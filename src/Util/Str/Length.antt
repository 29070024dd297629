-- ===== src/Util/Str/Length.antt =====
-- strlen, strcpy and strncpy on strings.
use cs.Base.{
  ℕ, zero, suc, ◌+◌, ◌-◌, ◌<◌, ◌≡◌, ◌≢◌, ◌⊎◌, refl, ◌∙◌, arith, ◌==◌, if◌then◌else◌, true, false,
  some,
}
use native.Mathlib.Nat.{add-zero}
use cs.Memory.{Memory, store8, in_range}
use cs.Util.Mem.Copy.{IsBytes, store8-IsBytes}
use cs.Util.Str.{len_from, strlen, strcpy}

-- The string at `s` has length `n`.
pub record IsString (m : Memory) (s n : ℕ) : Type 0 where
  pub stop : m (s + n) ≡ 0
  pub inner : (i : ℕ) → i < n → m (s + i) ≢ 0

len_from_lem :
    (fuel : ℕ) (m : Memory) (s n k i : ℕ)
    → IsString m s n
    → i + k ≡ n
    → k < fuel
    → len_from fuel m s i ≡ some n
unfolding len_from
len_from_lem zero m s n k i st e h = absurd (omega arith)
len_from_lem (suc fuel) m s n zero i st e h =
    let at_end : i ≡ n = omega arith in rw at_end (ground (arith, st.stop))
len_from_lem (suc fuel) m s n (suc k) i st e h =
    ground (arith, st.inner i, len_from_lem fuel m s n k (i + 1) st)

-- On a string of length `n`, with fuel for its bytes and the 0, `strlen` returns `n`.
pub strlen_lem :
    (fuel : ℕ) (m : Memory) (s n : ℕ) → IsString m s n → n < fuel → strlen fuel m s ≡ some n
unfolding strlen
strlen_lem fuel m s n st h = len_from_lem fuel m s n n 0 st (omega arith) h

add-shift : (a k : ℕ) → a + 1 + k ≡ a + suc k
add-shift a k = omega arith

tail-IsString : (m : Memory) (s n : ℕ) → IsString m s (suc n) → IsString m (s + 1) n
tail-IsString m s n st = record {
  stop = rw (add-shift s n) st.stop;
  inner = λ i h. rw (add-shift s i) (st.inner (suc i) (omega arith));
}

store8_other : (m : Memory) (a v x : ℕ) → x ≢ a → store8 m a v x ≡ m x
unfolding store8
store8_other m a v x ne = ground arith

-- A string is the same where a byte outside it is written.
stored-IsString :
    (m : Memory) (a v s n : ℕ)
    → IsString m s n
    → (a < s) ⊎ (s + n < a)
    → IsString (store8 m a v) s n
stored-IsString m a v s n st out = record {
  stop = store8_other m a v (s + n) (λ e. ground arith) ∙ st.stop;
  inner = λ i h. rw (store8_other m a v (s + i) (λ e. ground arith)) (st.inner i h);
}

-- On a string of length `n` that does not overlap the `n + 1` bytes at the destination, with fuel
-- for its bytes and the 0, `strcpy` returns; it leaves a copy of the string and its 0 at the
-- destination and every other byte as it was.
pub strcpy_lem :
    (fuel : ℕ) (m : Memory) (dest s n : ℕ)
    → IsBytes m
    → IsString m s n
    → (dest + n < s) ⊎ (s + n < dest)
    → n < fuel
    → (m' : Memory) × (strcpy fuel m dest s ≡ some m')
      × ((x : ℕ)
          → m' x
            ≡ (if x == dest + n then 0 else if in_range dest n x then m (s + (x - dest)) else m x))
unfolding strcpy store8
strcpy_lem zero m dest s n b st apart h = absurd (omega arith)
strcpy_lem (suc fuel) m dest s zero b st apart h =
    let here : (m s == 0) ≡ true = ground (arith, rw (add-zero s) at st.stop) in
    rw here (store8 m dest 0, refl, λ x. rw (add-zero dest) (ground arith))
strcpy_lem (suc fuel) m dest s (suc n) b st apart h =
    let here : (m s == 0) ≡ false = ground (arith, rw (add-zero s) at (st.inner 0 (omega arith))) in
    let w = store8 m dest (m s) in
    let (m', done, bytes) =
      strcpy_lem fuel w (dest + 1) (s + 1) n (store8-IsBytes m dest (m s) b)
        (stored-IsString m dest (m s) (s + 1) n (tail-IsString m s n st) (ground arith))
        (ground arith) (omega arith) in
    rw here (m', done, λ x. ground (arith, bytes x, b (m s), b s))
