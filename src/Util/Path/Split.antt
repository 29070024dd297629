-- ===== src/Util/Path/Split.antt =====
-- path_split and path_file_name on paths that are put together from names.
use cs.Base.{
  ℕ, zero, suc, ◌<◌, ◌≤◌, ◌≡◌, refl, arith, Bool, true, false, ◌&&◌, List, [], ◌∷◌, ◌++◌, some, leb,
  ◌==◌, if◌then◌else◌,
}
use cs.Base.Lists.{length}
use cs.Util.Path.{Name, slash, path_skip_slashes, path_next_slash, name_of, path_split}

-- No byte of the name is a slash.
unfoldable pub plain : Name → Bool
plain [] = true
plain (c ∷ name) = let rest = plain name in if c == slash then false else rest

-- A name that `path_split` can give back: it has a byte, no slash, and fits its array.
abbrev pub proper : Name → Bool
proper [] = false
proper (c ∷ name) = plain (c ∷ name) && leb (length (c ∷ name)) 255

unfoldable pub all_proper : List Name → Bool
all_proper [] = true
all_proper (n ∷ names) = proper n && all_proper names

-- The path of the names, each behind a slash.
unfoldable pub join : List Name → Name
join [] = []
join (n ∷ names) = slash ∷ n ++ join names

skip_slashes_of_proper :
    (n rest : Name) → proper n ≡ true → path_skip_slashes (slash ∷ n ++ rest) ≡ n ++ rest
unfolding path_skip_slashes plain
skip_slashes_of_proper [] rest i = ground arith
skip_slashes_of_proper (c ∷ n) rest i = ground (arith, i)

next_slash-join :
    (n : Name) (names : List Name) → plain n ≡ true → path_next_slash (n ++ join names) ≡ join names
unfolding path_next_slash plain join
next_slash-join [] [] i = refl
next_slash-join [] (m ∷ names) i = ground arith
next_slash-join (c ∷ n) names i = ground (arith, next_slash-join n names (ground arith))

name_of-join :
    (k : ℕ) (n : Name) (names : List Name)
    → plain n ≡ true
    → length n ≤ k
    → name_of k (n ++ join names) ≡ n
unfolding name_of plain join length
name_of-join zero [] names i fits = refl
name_of-join zero (c ∷ n) names i fits = ground arith
name_of-join (suc k) [] [] i fits = refl
name_of-join (suc k) [] (m ∷ names) i fits = ground arith
name_of-join (suc k) (c ∷ n) names i fits =
    ground (arith, name_of-join k n names (ground arith) (ground arith))

plain_of_proper : (n : Name) → proper n ≡ true → (plain n ≡ true) × (length n ≤ 255)
plain_of_proper [] i = ground arith
plain_of_proper (c ∷ n) i = (ground arith, ground arith)

-- The names that a path is put together from, each of 1 to 255 bytes and without a slash, are what
-- `path_split` returns of it, with enough fuel.
pub path_split-join :
    (fuel : ℕ) (names : List Name)
    → all_proper names ≡ true
    → length names < fuel
    → path_split fuel (join names) ≡ some names
unfolding path_split join all_proper length
path_split-join zero names i enough = ground arith
path_split-join (suc fuel) [] i enough = refl
path_split-join (suc fuel) (n ∷ names) i enough =
    let p = plain_of_proper n (ground arith) in
    rw (skip_slashes_of_proper n (join names) (ground arith)) (
      rw (next_slash-join n names p.0, name_of-join 255 n names p.0 p.1)
        (rw (path_split-join fuel names (ground arith) (ground arith)) refl))
