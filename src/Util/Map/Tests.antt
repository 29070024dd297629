-- ===== src/Util/Map/Tests.antt =====
-- A map of four slots.
use cs.Base.{◌+◌, ◌≡◌, refl, arith, [], ◌∷◌, none, some, if◌then◌else◌}
use cs.Base.Lists.{replicate}
use cs.Base.Cells.{get_or-replicate_all}
use cs.Util.Map.{Key, key_eq, Bucket, Map, map_set, map_get, map_remove, map_contains, map_size}
use cs.Util.Map.Laws.{IsValid, map_set-get, map_remove-get}

abbrev empty : Map
empty = record { slots = 4; size = 0; values = replicate 4 [] }

empty-IsValid : IsValid empty
empty-IsValid = record {
  positive = omega arith;
  whole = refl;
  distinct = λ i. rw (get_or-replicate_all {A = Bucket} [] 4 i) tt;
  sized = refl;
}

empty_size : map_size empty ≡ 0
unfolding map_size
empty_size = refl

abbrev ab : Key
ab = 97 ∷ 98 ∷ []

abbrev ba : Key
ba = 98 ∷ 97 ∷ []

map_set-get_example :
    IsValid (map_set empty ab 7)
    × ((l : Key)
        → map_get (map_set empty ab 7) l ≡ (if key_eq l ab then some 7 else map_get empty l))
    × (map_size (map_set empty ab 7) ≡ map_size empty + (if map_contains empty ab then 0 else 1))
map_set-get_example = map_set-get empty ab empty-IsValid 7 (omega (arith, empty_size))

one :
    IsValid (map_set empty ab 7)
    × ((l : Key)
        → map_get (map_set empty ab 7) l ≡ (if key_eq l ab then some 7 else map_get empty l))
    × (map_size (map_set empty ab 7) ≡ map_size empty + (if map_contains empty ab then 0 else 1))
one = map_set-get empty ab empty-IsValid 7 (omega (arith, empty_size))

map_remove-get_example :
    ((map_remove (map_set empty ab 7) ab).0 ≡ map_contains (map_set empty ab 7) ab)
    × IsValid (map_remove (map_set empty ab 7) ab).1
    × ((l : Key)
        → map_get (map_remove (map_set empty ab 7) ab).1 l
          ≡ (if key_eq l ab then none else map_get (map_set empty ab 7) l))
map_remove-get_example =
    map_remove-get (map_set empty ab 7) ab one.0 (ground (arith, one.2, empty_size))
