-- ===== src/Util/Path/Tests.antt =====
-- The path theorems on /bin/sh.
use cs.Base.{◌≡◌, refl, arith, [], ◌∷◌, some}
use cs.Util.Path.{Name, path_split}
use cs.Util.Path.Split.{all_proper, plain, join, path_split-join}

abbrev bin : Name
bin = 98 ∷ 105 ∷ 110 ∷ []

abbrev sh : Name
sh = 115 ∷ 104 ∷ []

path_split-join_example : path_split 3 (join (bin ∷ sh ∷ [])) ≡ some (bin ∷ sh ∷ [])
unfolding all_proper plain
path_split-join_example = path_split-join 3 (bin ∷ sh ∷ []) refl (omega arith)
