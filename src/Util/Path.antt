-- ===== src/Util/Path.antt =====
-- util/src/path.c: the names in a path. A path is the list of its bytes before the 0 that ends it, and a
-- pointer into it is what is left of that list. The result of `path_split` is the list of its names in
-- ascending order; `path_split` takes fuel for the rounds of its loop. A path is shorter than 2^31 bytes, so
-- that its length fits the `int` of `path_file_name`.
pub mod Split
pub mod FileName
mod Tests
use cs.Base.{
  ℕ, zero, suc, ◌+◌, ◌-◌, Bool, true, false, List, [], ◌∷◌, Option, none, some, ◌==◌, if◌then◌else◌,
  ◌>>=◌,
}
use cs.Base.Lists.{length, get_or}

abbrev pub Name : Type 0
Name = List ℕ

-- '/'
abbrev pub slash : ℕ
slash = 47

unfoldable pub path_skip_slashes : Name → Name
path_skip_slashes [] = []
path_skip_slashes (c ∷ path) =
    let rest = path_skip_slashes path in if c == slash then rest else c ∷ path

unfoldable pub path_next_slash : Name → Name
path_next_slash [] = []
path_next_slash (c ∷ path) =
    let rest = path_next_slash path in if c == slash then c ∷ path else rest

-- The loop that copies a name of at most `n` bytes.
unfoldable pub name_of : ℕ → Name → Name
name_of zero path = []
name_of (suc n) [] = []
name_of (suc n) (c ∷ path) = let rest = name_of n path in if c == slash then [] else c ∷ rest

unfoldable pub path_split : ℕ → Name → Option (List Name)
path_split zero path = none
path_split (suc fuel) [] = some []
path_split (suc fuel) (c ∷ cs) =
    let path = path_skip_slashes (c ∷ cs) in
    do names ← path_split fuel (path_next_slash path); some (name_of 255 path ∷ names)

-- `path + i`
unfoldable pub from : ℕ → Name → Name
from zero path = path
from (suc i) [] = []
from (suc i) (c ∷ path) = from i path

-- The loop of `path_file_name` from `i - 1` down.
unfoldable pub file_name_from : Name → ℕ → Name
file_name_from path zero = path
file_name_from path (suc i) =
    let before = file_name_from path i in
    if get_or path i 0 == slash then from (i + 1) path else before

pub path_file_name : Name → Name
path_file_name path = file_name_from path (length path)
