-- ===== src/Util/Mem/Tests.antt =====
-- The memory routines on a memory that holds 1, 2, 3, ... from address 0 on, going round at 256.
use cs.Base.{◌-◌, if◌then◌else◌, ◌+◌, ◌%◌, ◌≡◌, refl, arith}
use cs.Memory.{in_range, Memory, store64, store8}
use cs.Util.Mem.{memset, memmove, memcmp}
use cs.Util.Mem.Copy.{IsBytes, memmove_lem}

abbrev ramp : Memory
ramp x = (x + 1) % 256

ramp-IsBytes : IsBytes ramp
ramp-IsBytes x = omega arith

memset_eleven : (memset ramp 40 7 11 50 ≡ 7) × (memset ramp 40 7 11 51 ≡ 52)
unfolding memset store64 store8
memset_eleven = (refl, refl)

memmove_up : (memmove ramp 12 10 5 12 ≡ 11) × (memmove ramp 12 10 5 16 ≡ 15)
unfolding memmove store8
memmove_up = (refl, refl)

-- A size of 0 still compares one byte.
memcmp_nothing : memcmp ramp 10 20 0 ≡ (11, 21)
unfolding memcmp
memcmp_nothing = refl

memmove_lem_example :
    memmove ramp 12 10 5 16 ≡ (if in_range 12 5 16 then ramp (10 + (16 - 12)) else ramp 16)
memmove_lem_example = memmove_lem ramp 12 10 5 16 ramp-IsBytes
