-- ===== src/Page/Book.antt =====
-- The bookkeeping bits as an array of statuses: what a write to one page's bits does to the status
-- of every page. A write touches a byte that four pages share.
use cs.Base.{
  ◌≢◌, ℕ, ◌+◌, ◌-◌, ◌*◌, ◌/◌, ◌%◌, ◌^◌, ◌<◌, ◌≡◌, refl, arith, Bool, true, bit_and, bit_or, ◌==◌,
  ==_iff, if◌then◌else◌, every, every-apply,
}
use cs.Memory.{Memory, store8}
use cs.Util.Mem.Copy.{IsBytes, store8-IsBytes}
use cs.Page.{Region, bk_test, bk_set, bk_clear, book_byte}

abbrev get2 : ℕ → ℕ → ℕ
get2 b k = b / 2 ^ (k * 2) % 4

abbrev set2 : ℕ → ℕ → ℕ → ℕ
set2 b k v = bit_or b (v * 2 ^ (k * 2)) % 256

abbrev clear2 : ℕ → ℕ → ℕ
clear2 b k = bit_and b (0xff - 3 * 2 ^ (k * 2)) % 256

set2_table :
    every 256 (λ b. every 4 (λ k. every 4 (λ v.
      every 4 (λ j. get2 (set2 b k v) j == (if k == j then bit_or (get2 b j) v else get2 b j)))))
    ≡ true
unfolding every
set2_table = refl

clear2_table :
    every 256
      (λ b. every 4 (λ k. every 4 (λ j. get2 (clear2 b k) j == (if k == j then 0 else get2 b j))))
    ≡ true
unfolding every
clear2_table = refl

get2-set2 :
    (b k v j : ℕ)
    → b < 256
    → k < 4
    → v < 4
    → j < 4
    → get2 (set2 b k v) j ≡ (if k == j then bit_or (get2 b j) v else get2 b j)
get2-set2 b k v j hb hk hv hj =
    (==_iff _ _).0
      (every-apply _ j hj (every-apply _ v hv (every-apply _ k hk (every-apply _ b hb set2_table))))

get2-clear2 :
    (b k j : ℕ) → b < 256 → k < 4 → j < 4 → get2 (clear2 b k) j ≡ (if k == j then 0 else get2 b j)
get2-clear2 b k j hb hk hj =
    (==_iff _ _).0 (every-apply _ j hj (every-apply _ k hk (every-apply _ b hb clear2_table)))

pub bk_test-lt : (r : Region) (m : Memory) (i : ℕ) → bk_test r m i < 4
unfolding bk_test
bk_test-lt r m i = omega arith

-- the value that `bk_set` ors into the bits
abbrev pub mark : Bool → ℕ
mark last = 2 + (if last then 1 else 0)

pub bk_test-set :
    (r : Region) (m : Memory) (i j : ℕ) (last : Bool)
    → IsBytes m
    → bk_test r (bk_set r m i last) j
      ≡ (if i == j then bit_or (bk_test r m j) (mark last) else bk_test r m j)
unfolding bk_test bk_set store8
bk_test-set r m i j last b =
    ground (arith, b (book_byte r i), get2-set2 (m (book_byte r i)) (i % 4) (mark last) (j % 4))

pub bk_test-clear :
    (r : Region) (m : Memory) (i j : ℕ)
    → IsBytes m
    → bk_test r (bk_clear r m i) j ≡ (if i == j then 0 else bk_test r m j)
unfolding bk_test bk_clear store8
bk_test-clear r m i j b =
    ground (arith, b (book_byte r i), get2-clear2 (m (book_byte r i)) (i % 4) (j % 4))

pub bk_set-IsBytes :
    (r : Region) (m : Memory) (i : ℕ) (last : Bool) → IsBytes m → IsBytes (bk_set r m i last)
unfolding bk_set
bk_set-IsBytes r m i last = store8-IsBytes m _ _

pub bk_clear-IsBytes : (r : Region) (m : Memory) (i : ℕ) → IsBytes m → IsBytes (bk_clear r m i)
unfolding bk_clear
bk_clear-IsBytes r m i = store8-IsBytes m _ _

-- A write to a page's bits touches one byte.
pub bk_set_outside :
    (r : Region) (m : Memory) (i x : ℕ) (last : Bool)
    → x ≢ book_byte r i
    → bk_set r m i last x ≡ m x
unfolding bk_set store8
bk_set_outside r m i x last h = ground arith

-- A status depends on one byte.
pub bk_test-congr :
    (r : Region) (m m' : Memory) (i : ℕ)
    → m' (book_byte r i) ≡ m (book_byte r i)
    → bk_test r m' i ≡ bk_test r m i
unfolding bk_test
bk_test-congr r m m' i h = rw h
