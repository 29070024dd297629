-- ===== src/Util/Ring/Queue.antt =====
-- What a ring promises: a queue of at most `cap` bytes, and what becomes of a byte too many.
use cs.Base.{ℕ, Bool, true, false, List, [], ◌∷◌, ◌++◌, ltb, if◌then◌else◌}
use cs.Base.Lists.{length, drop, get_or}

-- `RP_OVERWRITE`, `RP_DISCARD`, `RP_ERROR`
pub data RingPolicy : Type 0 where
  overwrite : RingPolicy
  discard : RingPolicy
  error : RingPolicy

abbrev pub Queue : Type 0
Queue = List ℕ

-- the byte too many
abbrev pub overflow : RingPolicy → Queue → ℕ → Bool × Queue
overflow overwrite q x = (true, drop 1 q ++ (x ∷ []))
overflow discard q x = (true, q)
overflow error q x = (false, q)

abbrev pub push : ℕ → RingPolicy → Queue → ℕ → Bool × Queue
push cap policy q x = if ltb (length q) cap then (true, q ++ (x ∷ [])) else overflow policy q x

abbrev pub peek : Queue → ℕ
peek q = get_or q 0 0

abbrev pub pop : Queue → ℕ × Queue
pop q = (peek q, drop 1 q)
