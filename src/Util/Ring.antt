-- ===== src/Util/Ring.antt =====
-- util/src/ring.c: the ring buffer of bytes with its three policies for a full ring. The allocations
-- of a new ring are taken to succeed, as the source does, and `g_kcalloc` clears the buffer.
pub mod Queue
pub mod Refine
mod Tests
use cs.Base.{
  ℕ, ◌+◌, ◌-◌, ◌%◌, Bool, true, false, List, Option, none, some, ltb, leb, ◌==◌, if◌then◌else◌,
}
use cs.Base.Lists.{get_or, set, replicate}
use cs.Util.Ring.Queue.{RingPolicy, overwrite, discard, error}

pub record Ring : Type 0 where
  pub size : ℕ
  pub at : ℕ
  pub capacity : ℕ
  pub policy : RingPolicy
  pub buffer : List ℕ

pub ring_new_with_policy : ℕ → RingPolicy → Ring
ring_new_with_policy cap policy = record {
  size = 0;
  at = 0;
  capacity = cap;
  policy = policy;
  buffer = replicate cap 0;
}

pub ring_new : ℕ → Ring
unfolding ring_new_with_policy
ring_new cap = ring_new_with_policy cap error

pub ring_capacity : Ring → ℕ
ring_capacity rb = rb.capacity

pub ring_size : Ring → ℕ
ring_size rb = rb.size

pub ring_peek : Ring → ℕ
ring_peek rb = if ltb 0 rb.size then get_or rb.buffer rb.at 0 else 0

-- the store behind the last element; `none` where the index is a remainder by zero
pub store_last : Ring → ℕ → Option (Bool × Ring)
store_last rb value =
    if rb.capacity == 0
    then none
    else some (
      true,
      record {
        size = rb.size + 1;
        at = rb.at;
        capacity = rb.capacity;
        policy = rb.policy;
        buffer = set rb.buffer ((rb.at + rb.size) % rb.capacity) value;
      },
    )

-- the oldest element dropped, in the switch of `ring_push`
pub drop_oldest : Ring → Ring
drop_oldest rb = record {
  size = rb.capacity - 1;
  at = (rb.at + 1) % rb.capacity;
  capacity = rb.capacity;
  policy = rb.policy;
  buffer = rb.buffer;
}

-- the switch of `ring_push` on the policy, with what follows it
pub push_full : Ring → ℕ → Option (Bool × Ring)
push_full rb value = elim rb.policy [
  | error ↦ some (false, rb)
  | discard ↦ some (true, rb)
  | overwrite ↦ if rb.capacity == 0 then none else store_last (drop_oldest rb) value
]

pub ring_push : Ring → ℕ → Option (Bool × Ring)
ring_push rb value = if leb rb.capacity rb.size then push_full rb value else store_last rb value

-- Only an empty ring has capacity 0 where it is well formed.
pub ring_pop : Ring → ℕ × Ring
ring_pop rb = if rb.size == 0 then (0, rb) else (
  get_or rb.buffer rb.at 0,
  record {
    size = rb.size - 1;
    at = (rb.at + 1) % rb.capacity;
    capacity = rb.capacity;
    policy = rb.policy;
    buffer = rb.buffer;
  },
)
