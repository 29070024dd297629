-- ===== src/Minix/Zone/Seek/Position.antt =====
-- Where lseek ends: the zone of the file that it reaches.
use Prim.Native.Nat.{min}
use cs.Base.{
  Option, none, ℕ, ◌+◌, ◌*◌, ◌/◌, ◌%◌, ◌^◌, ◌≡◌, refl, sym, ap, ◌∙◌, arith, true, false, List, ◌∷◌,
  some, ◌==◌, ◌>>=◌,
}
use cs.Base.Lists.{length, get_or, drop}
use cs.Block.{Device, Buffer, block_read_wrapper}
use cs.Minix.{Fs}
use cs.Minix.Zone.{
  Descriptor, minus_one, restore, zone_indir, zone_dindir, zone_of, words, read_pointers,
}
use cs.Minix.Zone.Walk.{Pointers}
use cs.Minix.Zone.Left.{remaining, zone_at, IsPlaced, direct, single, double}
use cs.Minix.Zone.Seek.{
  block_bytes, zone, from_block, pointers_of, next_pointers, seek_start, block_pointers, reread,
  seek_blocks,
}

-- The zones of a file from the first direct one on.
unfoldable pub file_zones : (ℕ → List ℕ) → Descriptor → List ℕ
file_zones ptrs fd = zone_of fd 0 ∷ remaining ptrs (seek_start fd)

-- An entry `m` zones further: its block is the `m`-th of `current ∷ left`, and its indices stand for what is
-- left after it.
pub record Further (ptrs : ℕ → List ℕ) (fd : Descriptor) (m : ℕ) (fd' : Descriptor) : Type 0 where
  pub block : fd'.fp_block_offset ≡ get_or (fd.fp_block_offset ∷ remaining ptrs fd) m 0
  pub left : remaining ptrs fd' ≡ drop m (remaining ptrs fd)
  pub placed : IsPlaced fd'
  pub kept : restore fd fd' ≡ fd

-- The entry where `lseek` ends.
pub record Landed (ptrs : ℕ → List ℕ) (fd : Descriptor) (m byte : ℕ) (fd' : Descriptor)
    : Type 0 where
  pub block : fd'.fp_block_offset ≡ get_or (file_zones ptrs fd) m 0
  pub byte_offset : fd'.fp_byte_offset ≡ byte
  pub pointer : fd'.file_pointer ≡ (get_or (file_zones ptrs fd) m 0 * 1024 + byte) % 2 ^ 64
  pub read : fd'.total_read ≡ 1024 * m + byte
  pub left : remaining ptrs fd' ≡ drop m (remaining ptrs (seek_start fd))
  pub placed : IsPlaced fd'
  pub zones : fd'.zones ≡ fd.zones
  pub size : fd'.size ≡ fd.size

module _ {Disk : Type 0} (dev : Device Disk) (fs : Fs Disk) (ptrs : ℕ → List ℕ)
    (ok : Pointers dev fs ptrs) (blocks : fs.block_size ≡ 1024) where
  -- A read whose words are those of the zone.
  read_words :
      (ps : List ℕ) (o : Option (Option Buffer))
      → (o >>= (λ got. got >>= (λ buf. some (words 256 buf 0)))) ≡ some ps
      → (o >>= (λ got. some (pointers_of got))) ≡ some (some ps)
  unfolding pointers_of ◌>>=◌
  read_words ps none h = absurd (ground (arith, h))
  read_words ps (some none) h = absurd (ground (arith, h))
  read_words ps (some (some buf)) h = ap some h

  block_pointers_lem : (z : ℕ) → block_pointers dev fs z ≡ some (some (ptrs z))
  unfolding block_pointers read_pointers
  block_pointers_lem z =
      read_words (ptrs z) (block_read_wrapper dev fs.disk (z * 1024 % 2 ^ 32) 1024) (
        ap
          (λ (b : ℕ).
            block_read_wrapper dev fs.disk (z * b % 2 ^ 32) b
            >>= (λ got. got >>= (λ buf. some (words (b / 4) buf 0))))
          (sym blocks)
        ∙ ok.reads z)

  pub reread_lem : (fd : Descriptor) → IsPlaced fd → reread dev fs fd ≡ zone (zone_at ptrs fd)
  unfolding reread zone_at from_block next_pointers ◌>>=◌
  reread_lem fd (direct at u1 u2 u3) =
      let one : fd.index1 == minus_one ≡ true = ground (arith, u1) in rw one refl
  reread_lem fd (single at u1 u2 u3) =
      let one : fd.index1 == minus_one ≡ false = ground (arith, u1) in
      let two : fd.index2 == minus_one ≡ true = ground (arith, u2) in
      rw (one, two, block_pointers_lem (zone_of fd zone_indir)) refl
  reread_lem fd (double at u1 u2 u3) =
      let one : fd.index1 == minus_one ≡ false = ground (arith, u1) in
      let two : fd.index2 == minus_one ≡ false = ground (arith, u2) in
      let three : fd.index3 == minus_one ≡ true = ground (arith, u3) in
      rw
        (
          one,
          two,
          three,
          block_pointers_lem (zone_of fd zone_dindir),
          block_pointers_lem (get_or (ptrs (zone_of fd zone_dindir)) fd.index1 0),
        )
        refl

  -- The loop from `fd` on with `n` rounds left.
  record Sought (n : ℕ) (fd : Descriptor) (skipped : ℕ) : Type 0 where
    m : ℕ
    fd' : Descriptor
    run : seek_blocks dev fs n fd skipped ≡ some (true, fd', skipped + block_bytes * m)
    count : m ≡ min n (length (remaining ptrs fd))
    further : Further ptrs fd m fd'
