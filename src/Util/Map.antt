-- ===== src/Util/Map.antt =====
-- util/src/map.c: the hash map from strings to words. A string is the list of its bytes before the 0
-- that ends it, so `strcmp` returns 0 exactly on equal lists, and `strdup` is the list itself. A
-- bucket is the list of its elements in ascending order, which is from the oldest on: `list_add` puts
-- an element behind them. Allocations are taken to succeed, as the source does.
pub mod Bucket
pub mod Laws
pub mod Keys
mod Tests
use cs.Base.{
  ℕ, zero, suc, ◌+◌, ◌-◌, ◌*◌, ◌/◌, ◌%◌, ◌^◌, bit_xor, Bool, true, false, ◌&&◌, List, [], ◌∷◌, ◌++◌,
  Option, none, some, ltb, leb, ◌==◌, if◌then◌else◌, ◌>>=◌,
}
use cs.Base.Lists.{get_or, set, replicate}

abbrev pub Key : Type 0
Key = List ℕ

-- `!strcmp(key, other)`
unfoldable pub key_eq : Key → Key → Bool
key_eq [] [] = true
key_eq [] (y ∷ ys) = false
key_eq (x ∷ xs) [] = false
key_eq (x ∷ xs) (y ∷ ys) = let rest = key_eq xs ys in if x == y then rest else false

-- `FNV1_64_OFFSET`, `FNV1_64_PRIME`
abbrev pub fnv1_offset : ℕ
fnv1_offset = 14695981039346656037

abbrev pub fnv1_prime : ℕ
fnv1_prime = 1099511628211

unfoldable pub digest_from : ℕ → Key → ℕ
digest_from digest [] = digest
digest_from digest (k ∷ ks) = digest_from (bit_xor digest k * fnv1_prime % 2 ^ 64) ks

pub fnv1a_digest_64 : Key → ℕ
unfolding digest_from
fnv1a_digest_64 key = digest_from fnv1_offset key

pub record MapElem : Type 0 where
  pub key : Key
  pub val : ℕ

abbrev pub Bucket : Type 0
Bucket = List MapElem

pub record Map : Type 0 where
  pub slots : ℕ
  pub size : ℕ
  pub values : List Bucket

abbrev pub elem : Key → ℕ → MapElem
elem k v = record { key = k; val = v }

-- the bucket of a key
pub index : Map → Key → ℕ
index map key = fnv1a_digest_64 key % map.slots

pub bucket : Map → Key → Bucket
bucket map key = get_or map.values (index map key) []

-- the loops of `map_get_elem` and `map_get_celem`
unfoldable pub find_elem : Key → Bucket → Option MapElem
find_elem key [] = none
find_elem key (me ∷ rest) =
    let later = find_elem key rest in if key_eq key me.key then some me else later

pub map_get_elem : Map → Key → Option MapElem
unfolding find_elem
map_get_elem map key = find_elem key (bucket map key)

-- `me->val = val` on the element that `map_get_elem` finds
unfoldable pub set_val : Key → ℕ → Bucket → Bucket
set_val key val [] = []
set_val key val (me ∷ rest) =
    let later = set_val key val rest in
    if key_eq key me.key then elem me.key val ∷ rest else me ∷ later

-- the bucket without the element that `map_remove` finds
unfoldable pub drop_elem : Key → Bucket → Bucket
drop_elem key [] = []
drop_elem key (me ∷ rest) =
    let later = drop_elem key rest in if key_eq key me.key then rest else me ∷ later

pub with_bucket : Map → Key → Bucket → ℕ → Map
with_bucket map key b size = record {
  slots = map.slots;
  size = size;
  values = set map.values (index map key) b;
}

pub mapelem_set_val : Map → Key → ℕ → Map
unfolding set_val with_bucket
mapelem_set_val map key val = with_bucket map key (set_val key val (bucket map key)) map.size

pub mapelem_new_val : Map → Key → ℕ → Map
unfolding with_bucket
mapelem_new_val map key val =
    with_bucket map key (bucket map key ++ (elem key val ∷ [])) ((map.size + 1) % 2 ^ 32)

-- an empty list for each slot
abbrev pub map_init_values : ℕ → List Bucket
map_init_values slots = replicate slots []

pub map_init : ℕ → Map
map_init slots =
    let n = if slots == 0 then 1 else slots in
    record { slots = n; size = 0; values = map_init_values n }

-- `none` is NULL.
pub map_new_with_slots : ℕ → Option Map
unfolding map_init
map_new_with_slots slots = if slots == 0 then none else some (map_init slots)

pub map_new : Option Map
unfolding map_new_with_slots
map_new = map_new_with_slots 64

pub map_slots : Map → ℕ
map_slots map = map.slots

pub map_size : Map → ℕ
map_size map = map.size

pub map_set : Map → Key → ℕ → Map
map_set map key val = elim (map_get_elem map key) [
  | some me ↦ mapelem_set_val map key val
  | none ↦ mapelem_new_val map key val
]

pub map_get : Map → Key → Option ℕ
map_get map key = elim (map_get_elem map key) [ none ↦ none | some me ↦ some me.val ]

pub map_get_unchecked : Map → Key → ℕ
map_get_unchecked map key = elim (map_get map key) [ none ↦ 0 | some v ↦ v ]

pub map_contains : Map → Key → Bool
map_contains map key = elim (map_get map key) [ none ↦ false | some v ↦ true ]

pub map_remove : Map → Key → Bool × Map
map_remove map key = elim (map_get_elem map key) [
  | none ↦ (false, map)
  | some me ↦ (
    true,
    with_bucket map key (drop_elem key (bucket map key)) ((2 ^ 32 + map.size - 1) % 2 ^ 32),
  )
]

-- the keys of the buckets in ascending order
unfoldable pub keys_of : Bucket → List Key
keys_of [] = []
keys_of (me ∷ rest) = me.key ∷ keys_of rest

unfoldable pub keys_of_all : List Bucket → List Key
unfolding keys_of
keys_of_all [] = []
keys_of_all (b ∷ bs) = keys_of b ++ keys_of_all bs

pub map_get_keys : Map → List Key
unfolding keys_of_all
map_get_keys map = keys_of_all map.values

-- the digits of a number with the units in front, `i` of them at most
unfoldable pub digits : ℕ → ℕ → Key
digits zero n = []
digits (suc i) n = let rest = digits i (n / 10) in if n == 0 then [] else (n % 10 + 48) ∷ rest

-- The loop that flips the digits back into order.
unfoldable pub flip_onto : Key → Key → Key
flip_onto [] acc = acc
flip_onto (d ∷ ds) acc = flip_onto ds (d ∷ acc)

-- the digits of a positive number in order; the array has room for 62
unfoldable pub str_digits : ℕ → Key
unfolding digits flip_onto
str_digits n = flip_onto (digits 62 n) []

-- A `long` is its 64-bit word; `none` for the least one, whose negation is undefined.
unfoldable pub map_int_to_str : ℕ → Option Key
map_int_to_str n =
    if n == 0
    then some (48 ∷ [])
    else if n == 2 ^ 63
    then none
    else if ltb n (2 ^ 63)
    then some (str_digits n)
    else some (45 ∷ str_digits (2 ^ 64 - n))

pub map_set_int : Map → ℕ → ℕ → Option Map
map_set_int map ikey val = do key ← map_int_to_str ikey; some (map_set map key val)

pub map_get_int : Map → ℕ → Option (Option ℕ)
map_get_int map ikey = do key ← map_int_to_str ikey; some (map_get map key)

pub map_remove_int : Map → ℕ → Option (Bool × Map)
map_remove_int map ikey = do key ← map_int_to_str ikey; some (map_remove map key)
