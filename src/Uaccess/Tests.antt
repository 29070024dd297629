-- ===== src/Uaccess/Tests.antt =====
-- A root table at 0x1000 whose first entry maps the first gigabyte to itself for the user to read and
-- write; all other bytes are 0.
use cs.Base.{ℕ, ◌+◌, ◌%◌, ◌^◌, ◌≤◌, ◌≡◌, ◌⊎◌, arith, true, false, some, ◌==◌, if◌then◌else◌}
use cs.Memory.{Memory, in_range}
use cs.Uaccess.{refused, copy_from}
use cs.Uaccess.Copy.{copy_from_lem}

abbrev mapped : Memory
mapped x = if x == 0x1000 then 0x17 else 0

copy_from_lem_example :
    (n : ℕ) × (m' : Memory) × (copy_from 9 mapped 0x8000 0x1000 0x4ffc 8 ≡ some (n, m'))
    × (n ≤ 8)
    × ((n ≡ 8) ⊎ (refused m' 0x1000 ((0x4ffc + n) % 2 ^ 64) 0x12 ≡ true))
    × ((x : ℕ) → in_range 0x8000 8 x ≡ false → m' x ≡ mapped x)
copy_from_lem_example = copy_from_lem 0x8000 0x1000 0x4ffc 8 9 mapped (omega arith)
