-- ===== src/Util/Map/Laws.antt =====
-- The map as a finite function from keys to values.
use cs.Base.{
  ℕ, zero, suc, ◌+◌, ◌-◌, ◌%◌, ◌^◌, ◌≤◌, ◌<◌, ◌≡◌, ◌≢◌, refl, sym, ap, ◌∙◌, arith, Bool-cases, inl,
  inr, true, false, List, [], ◌∷◌, ◌++◌, Option, none, some, ◌==◌, if◌then◌else◌,
}
use native.Mathlib.Nat.{mod-lt}
use cs.Base.Lists.{length, get_or, set, replicate, length-set, length-append, length-replicate}
use cs.Base.Cells.{get_or-set_at, get_or-set_away, get_or-replicate_all}
use cs.Util.Map.{
  Key, key_eq, fnv1a_digest_64, MapElem, elem, Bucket, Map, index, bucket, find_elem, map_get_elem,
  set_val, drop_elem, with_bucket, mapelem_set_val, mapelem_new_val, map_init, map_new_with_slots,
  map_size, map_set, map_get, map_remove, map_contains,
}
use cs.Util.Map.Bucket.{
  key_eq_self, eq_of_key_eq, key_eq_comm, lookup, has, Distinct, lookup-set_val_same,
  lookup-set_val_other, lookup-append, lookup-absent, set_val-Distinct, append-Distinct,
  drop_elem-Distinct, lookup-drop_elem_same, lookup-drop_elem_other, length-set_val,
  length-drop_elem, find_elem_lem, find_elem-has,
}

-- the number of elements
abbrev pub total : List Bucket → ℕ
total [] = 0
total (b ∷ bs) = length b + total bs

pub record IsValid (map : Map) : Type 0 where
  pub positive : 0 < map.slots
  pub whole : length map.values ≡ map.slots
  pub distinct : (i : ℕ) → Distinct (get_or map.values i [])
  pub sized : map.size ≡ total map.values

total-set :
    (bs : List Bucket) (i : ℕ) (b : Bucket)
    → i < length bs
    → total (set bs i b) + length (get_or bs i []) ≡ total bs + length b
total-set [] i b h = elim h [ ]
total-set (x ∷ xs) zero b h = omega arith
total-set (x ∷ xs) (suc i) b h = omega (arith, total-set xs i b (omega arith))

bucket_total : (bs : List Bucket) (i : ℕ) → length (get_or bs i []) ≤ total bs
bucket_total [] i = omega arith
bucket_total (x ∷ xs) zero = omega arith
bucket_total (x ∷ xs) (suc i) = omega (arith, bucket_total xs i)

total-replicate : (n : ℕ) → total (replicate n []) ≡ 0
total-replicate zero = refl
total-replicate (suc n) = omega (arith, total-replicate n)

map_get_lem : (map : Map) (key : Key) → map_get map key ≡ lookup key (bucket map key)
unfolding map_get map_get_elem
map_get_lem map key = find_elem_lem key (bucket map key)

-- A new map of a positive number of slots is well formed and gives no value for any key.
pub map_new-IsValid :
    (slots : ℕ)
    → 0 < slots
    → (map : Map) × (map_new_with_slots slots ≡ some map)
      × IsValid map
      × ((key : Key) → map_get map key ≡ none)
unfolding map_new_with_slots map_init bucket
map_new-IsValid slots pos =
    let some_slots : (slots == 0) ≡ false = ground arith in
    let new : Map = record { slots = slots; size = 0; values = replicate slots [] } in
    rw some_slots (
      new,
      refl,
      record {
        positive = pos;
        whole = length-replicate slots [];
        distinct = λ i. rw (get_or-replicate_all {A = Bucket} [] slots i) tt;
        sized = sym (total-replicate slots);
      },
      λ key.
          map_get_lem new key
          ∙ ap (lookup key) (get_or-replicate_all {A = Bucket} [] slots (index new key)),
    )

-- The operations by what `find_elem` finds.
module _ (map : Map) (key : Key) where
  contains_none : find_elem key (bucket map key) ≡ none → map_contains map key ≡ false
  unfolding map_contains map_get map_get_elem
  contains_none e = rw (map_contains, e) refl

  contains_some :
      (me : MapElem) → find_elem key (bucket map key) ≡ some me → map_contains map key ≡ true
  unfolding map_contains map_get map_get_elem
  contains_some me e = rw (map_contains, e) refl

  set_none :
      (val : ℕ)
      → find_elem key (bucket map key) ≡ none
      → map_set map key val
        ≡ with_bucket map key (bucket map key ++ (elem key val ∷ [])) ((map.size + 1) % 2 ^ 32)
  unfolding map_set map_get_elem mapelem_new_val
  set_none val e = rw (map_set, e) refl

  set_some :
      (val : ℕ) (me : MapElem)
      → find_elem key (bucket map key) ≡ some me
      → map_set map key val ≡ with_bucket map key (set_val key val (bucket map key)) map.size
  unfolding map_set map_get_elem mapelem_set_val
  set_some val me e = rw (map_set, e) refl

  remove_none : find_elem key (bucket map key) ≡ none → map_remove map key ≡ (false, map)
  unfolding map_remove map_get_elem
  remove_none e = rw (map_remove, e) refl

  remove_some :
      (me : MapElem)
      → find_elem key (bucket map key) ≡ some me
      → map_remove map key ≡ (
        true,
        with_bucket map key (drop_elem key (bucket map key)) ((2 ^ 32 + map.size - 1) % 2 ^ 32),
      )
  unfolding map_remove map_get_elem
  remove_some me e = rw (map_remove, e) refl

  size_after : (b : Bucket) (n : ℕ) → map_size (with_bucket map key b n) ≡ n
  unfolding map_size with_bucket
  size_after b n = refl

module _ (map : Map) (key : Key) (ok : IsValid map) where
  index_low : index map key < length map.values
  unfolding index
  index_low = omega (arith, ok.whole, mod-lt (fnv1a_digest_64 key) ok.positive)

  -- the bucket of a key after the bucket of `key` is replaced
  bucket_after :
      (b : Bucket) (n : ℕ) (l : Key)
      → bucket (with_bucket map key b n) l
        ≡ (if index map l == index map key then b else bucket map l)
  unfolding bucket with_bucket index
  bucket_after b n l = elim (Bool-cases (index map l == index map key)) [
    | inl same ↦
        let e : index map l ≡ index map key = ground arith in
        rw (same, e) (get_or-set_at [] map.values (index map key) b index_low)
    | inr other ↦
        let ne : index map key ≢ index map l = λ e. ground arith in
        rw other (get_or-set_away [] map.values (index map key) (index map l) b ne)
  ]

  with_bucket-IsValid :
      (b : Bucket) (n : ℕ)
      → Distinct b
      → n + length (bucket map key) ≡ map.size + length b
      → IsValid (with_bucket map key b n)
  unfolding with_bucket bucket
  with_bucket-IsValid b n d size = record {
    positive = ok.positive;
    whole = length-set map.values (index map key) b ∙ ok.whole;
    distinct = λ i. elim (Bool-cases (i == index map key)) [
      | inl same ↦
          let e : i ≡ index map key = ground arith in
          rw (e, get_or-set_at [] map.values (index map key) b index_low) d
      | inr other ↦
          let ne : index map key ≢ i = λ e. ground arith in
          rw (get_or-set_away [] map.values (index map key) i b ne) (ok.distinct i)
    ];
    sized = omega (arith, total-set map.values (index map key) b index_low, ok.sized);
  }

  same_bucket : (l : Key) → index map l ≡ index map key → bucket map key ≡ bucket map l
  unfolding bucket
  same_bucket l e = ap (λ (i : ℕ). get_or map.values i []) (sym e)

  elsewhere :
      (b : Bucket) (n : ℕ) (l : Key)
      → ((l : Key) → key_eq key l ≡ false → lookup l b ≡ lookup l (bucket map key))
      → key_eq l key ≡ false
      → lookup l (bucket (with_bucket map key b n) l) ≡ lookup l (bucket map l)
  elsewhere b n l others differ = elim (Bool-cases (index map l == index map key)) [
    | inl same ↦
        ap (lookup l) (bucket_after b n l ∙ rw same refl)
        ∙ others l (key_eq_comm key l ∙ differ)
        ∙ ap (lookup l) (same_bucket l (ground arith))
    | inr other ↦ ap (lookup l) (bucket_after b n l ∙ rw other refl)
  ]

  -- Another key in the bucket that is replaced keeps its value where the new bucket does.
  get_after :
      (b : Bucket) (n : ℕ) (o : Option ℕ)
      → lookup key b ≡ o
      → ((l : Key) → key_eq key l ≡ false → lookup l b ≡ lookup l (bucket map key))
      → (l : Key)
      → map_get (with_bucket map key b n) l ≡ (if key_eq l key then o else map_get map l)
  get_after b n o here others l = elim (Bool-cases (key_eq l key)) [
    | inl same ↦
        let e = eq_of_key_eq l key same in
        let self : (index map key == index map key) ≡ true = ground arith in
        rw (same, e)
          (map_get_lem (with_bucket map key b n) key
            ∙ ap (lookup key) (bucket_after b n key ∙ rw self refl)
            ∙ here)
    | inr differ ↦ rw differ (
        map_get_lem (with_bucket map key b n) l
        ∙ elsewhere b n l others differ
        ∙ sym (map_get_lem map l))
  ]

  bucket-Distinct : Distinct (bucket map key)
  unfolding bucket
  bucket-Distinct = ok.distinct (index map key)

  -- On a well-formed map of fewer than 2^32 - 1 elements, `map_set` gives the key its value, keeps
  -- the value of every other key, counts a key that is new and leaves a well-formed map.
  pub map_set-get :
      (val : ℕ)
      → map_size map + 1 < 2 ^ 32
      → IsValid (map_set map key val)
        × ((l : Key)
            → map_get (map_set map key val) l ≡ (if key_eq l key then some val else map_get map l))
        × (map_size (map_set map key val) ≡ map_size map + (if map_contains map key then 0 else 1))
  unfolding map_size
  map_set-get val small = elim (find_elem-has key (bucket map key)) [
    | inl (missing, absent) ↦
        let n : (map.size + 1) % 2 ^ 32 ≡ map.size + 1 = omega arith in
        let b = bucket map key ++ (elem key val ∷ []) in
        rw (set_none map key val missing, contains_none map key missing, n)
          (
            with_bucket-IsValid b (map.size + 1)
                (append-Distinct (bucket map key) key val bucket-Distinct absent)
                (omega (arith, length-append (bucket map key) (elem key val ∷ []))),
            get_after b (map.size + 1) (some val)
                (lookup-append key (bucket map key) key val ∙ ground (arith, key_eq_self key))
                (λ l ne.
                  lookup-append l (bucket map key) key val
                  ∙ ground (arith, key_eq_comm key l, lookup-absent l (bucket map key))),
            size_after map key b (map.size + 1),
          )
    | inr (me, found, present) ↦
        let b = set_val key val (bucket map key) in
        rw (set_some map key val me found, contains_some map key me found)
          (
            with_bucket-IsValid b map.size
                (set_val-Distinct key val (bucket map key) bucket-Distinct)
                (omega (arith, length-set_val key val (bucket map key))),
            get_after b map.size (some val) (lookup-set_val_same key val (bucket map key) present)
                (λ l ne. lookup-set_val_other key l val (bucket map key) ne),
            size_after map key b map.size ∙ omega arith,
          )
  ]

  gone :
      has key (bucket map key) ≡ false
      → (l : Key) → map_get map l ≡ (if key_eq l key then none else map_get map l)
  gone absent l = elim (Bool-cases (key_eq l key)) [
    | inl same ↦
        let e = eq_of_key_eq l key same in
        rw (same, e) (map_get_lem map key ∙ lookup-absent key (bucket map key) absent)
    | inr differ ↦ rw differ refl
  ]

  -- a bucket that holds an element counts in the size
  held : has key (bucket map key) ≡ true → 0 < map.size
  unfolding bucket
  held present = omega (
    arith,
    length-drop_elem key (bucket map key) present,
    bucket_total map.values (index map key),
    ok.sized,
  )

  -- On a well-formed map of fewer than 2^32 elements, `map_remove` returns whether the key had a
  -- value, takes that value away, keeps the value of every other key and leaves a well-formed map.
  pub map_remove-get :
      map_size map < 2 ^ 32
      → ((map_remove map key).0 ≡ map_contains map key)
        × IsValid (map_remove map key).1
        × ((l : Key)
            → map_get (map_remove map key).1 l ≡ (if key_eq l key then none else map_get map l))
  unfolding map_size
  map_remove-get small = elim (find_elem-has key (bucket map key)) [
    | inl (missing, absent) ↦
        rw (remove_none map key missing, contains_none map key missing)
          (refl, ok, λ l. gone absent l)
    | inr (me, found, present) ↦
        let b = drop_elem key (bucket map key) in
        let n : (2 ^ 32 + map.size - 1) % 2 ^ 32 ≡ map.size - 1 = omega (arith, held present) in
        rw (remove_some map key me found, contains_some map key me found, n)
          (
            refl,
            with_bucket-IsValid b (map.size - 1)
                (drop_elem-Distinct key (bucket map key) bucket-Distinct)
                (omega (arith, held present, length-drop_elem key (bucket map key) present)),
            get_after b (map.size - 1) none
                (lookup-drop_elem_same key (bucket map key) bucket-Distinct)
                (λ l ne. lookup-drop_elem_other key l (bucket map key) ne),
          )
  ]
