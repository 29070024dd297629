-- ===== src/Minix/Zone/Read/Range.antt =====
-- The loop of read: every part of the range, one after the other.
use mathlib.Core.Path.{subst}
use cs.Base.{
  inl, inr, ℕ, zero, suc, ◌+◌, ◌-◌, ◌*◌, ◌/◌, ◌%◌, ◌^◌, ◌<◌, ◌≤◌, ◌≡◌, refl, sym, ap, ◌∙◌, arith,
  Bool-cases, true, false, List, some, ltb, ◌>>=◌,
}
use cs.Base.Lists.{length, get_or}
use cs.Memory.{in_range}
use cs.Block.{Device, Buffer, overlay, block_read_wrapper}
use cs.Block.Bytes.{IsDevice, block_read_wrapper-byte}
use cs.Minix.{Fs}
use cs.Minix.Zone.{Descriptor}
use cs.Minix.Zone.Walk.{Pointers}
use cs.Minix.Zone.Left.{remaining_moved}
use cs.Minix.Zone.Read.{
  Reading, read_start, cut_count, curr_read, copy_out, read_finish, next_place, read_part,
  read_round, read_loop, read,
}
use cs.Minix.Zone.Read.Content.{
  content, At, move_on-IsPlaced, Part, next_place-Placed, max_read_lem,
}
use cs.Minix.Zone.Read.Filled.{filled_part, in_front, file_byte, Done, Returned}

module _ {Disk : Type 0} (dev : Device Disk) (device : IsDevice dev) (fs : Fs Disk)
    (ptrs : ℕ → List ℕ) (ok : Pointers dev fs ptrs) (blocks : fs.block_size ≡ 1024)
    (served : (b s : ℕ)
      → b % 512 ≡ 0
      → s ≤ 1024
      → (buf : Buffer) × (block_read_wrapper dev fs.disk b s ≡ some (some buf)))
    (zs : List ℕ) (low : (i : ℕ) → get_or zs i 0 * 1024 + 1024 ≤ 2 ^ 32) (p : ℕ) where
  curr_read-Part :
      (n : ℕ) (s : Reading)
      → s.read_bytes < n
      → At ptrs zs s.entry (p + s.read_bytes)
      → Part (p + s.read_bytes) (n - s.read_bytes) (curr_read n s)
  unfolding curr_read
  curr_read-Part n s more at =
      let whole = max_read_lem dev device fs ptrs ok blocks zs low s.entry (p + s.read_bytes) at in
      record {
        positive = ground (arith, whole);
        within = ground (arith, whole);
        in_zone = ground (arith, whole);
        full = λ h. ground (arith, whole, h);
      }

  -- The bytes that a part reads.
  part_bytes :
      (s : Reading) (c : ℕ) (bytes : Buffer)
      → At ptrs zs s.entry (p + s.read_bytes)
      → (p + s.read_bytes) % 1024 + c ≤ 1024
      → block_read_wrapper dev fs.disk (s.entry.file_pointer % 2 ^ 32) c ≡ some (some bytes)
      → (i : ℕ) → i < c
      → bytes i ≡ content dev fs.disk zs (p + (s.read_bytes + i))
  unfolding content
  part_bytes s c bytes at in_zone run i h =
      let q = p + s.read_bytes in
      let quotient : (p + (s.read_bytes + i)) / 1024 ≡ q / 1024 = omega (arith, in_zone, h) in
      let remainder : (p + (s.read_bytes + i)) % 1024 ≡ q % 1024 + i = omega (arith, in_zone, h) in
      let place : s.entry.file_pointer % 2 ^ 32 + i
          ≡ get_or zs (q / 1024) 0 * 1024 + (q % 1024 + i) =
        omega (arith, at.pointer, low (q / 1024), in_zone, h) in
      let target : get_or zs ((p + (s.read_bytes + i)) / 1024) 0 * 1024
            + (p + (s.read_bytes + i)) % 1024
          ≡ get_or zs (q / 1024) 0 * 1024 + (q % 1024 + i) =
        rw (quotient, remainder) refl in
      block_read_wrapper-byte dev device fs.disk (s.entry.file_pointer % 2 ^ 32) c bytes
        (omega (arith, in_zone)) run i h
      ∙ ap (dev.byte fs.disk) (place ∙ sym target)

  Part-Done :
      (k n : ℕ) (s : Reading) (bytes : Buffer) (e : Descriptor)
      → s.read_bytes < n
      → n < 2 ^ 64
      → Part (p + s.read_bytes) (n - s.read_bytes) (curr_read n s)
      → block_read_wrapper dev fs.disk (s.entry.file_pointer % 2 ^ 32) (curr_read n s)
        ≡ some (some bytes)
      → next_place dev fs s.entry (curr_read n s) ≡ some e
      → ((i : ℕ) → i < curr_read n s → bytes i ≡ file_byte dev fs ptrs zs p (s.read_bytes + i))
      → e.total_read ≡ s.entry.total_read
      → e.size ≡ s.entry.size
      → Done dev fs ptrs zs p k n
          (record (copy_out s (curr_read n s) (overlay s.read_buf 0 (curr_read n s) bytes)) {
            entry = e;
          })
      → Done dev fs ptrs zs p (suc k) n s
  unfolding read_loop read_round read_part copy_out ◌>>=◌
  Part-Done k n s bytes e more fits part run moved got total size go =
      let test : ltb s.read_bytes n ≡ true = ground (arith, more) in
      let sum : (s.read_bytes + curr_read n s) % 2 ^ 64 ≡ s.read_bytes + curr_read n s =
        omega (arith, part.within, fits) in
      record {
        last = go.last;
        run = rw (test, run, moved) go.run;
        bytes = go.bytes;
        at = go.at;
        total = go.total ∙ total;
        size = go.size ∙ size;
        buffer = λ i.
            go.buffer i
            ∙ rw sum (
                filled_part (file_byte dev fs ptrs zs p) s.buf s.read_buf bytes s.read_bytes
                  (curr_read n s) n (omega (arith, part.within, more)) got i);
      }

  loop_end :
      (k n : ℕ) (s : Reading)
      → s.read_bytes ≡ n
      → At ptrs zs s.entry (p + s.read_bytes)
      → Done dev fs ptrs zs p (suc k) n s
  unfolding read_loop read_round
  loop_end k n s same at =
      let test : ltb s.read_bytes n ≡ false = ground (arith, same) in
      record {
        last = s;
        run = rw test refl;
        bytes = same;
        at = subst (λ m. At ptrs zs s.entry (p + m)) same at;
        total = refl;
        size = refl;
        buffer = λ i.
            let none_left : in_range s.read_bytes (n - s.read_bytes) i ≡ false =
              ground (arith, same) in
            rw none_left refl;
      }

  pointer_aligned :
      (s : Reading)
      → At ptrs zs s.entry (p + s.read_bytes)
      → (p + s.read_bytes) % 512 ≡ 0
      → s.entry.file_pointer % 2 ^ 32 % 512 ≡ 0
  pointer_aligned s at aligned =
      let q = p + s.read_bytes in
      let z = get_or zs (q / 1024) 0 in
      let whole : s.entry.file_pointer % 2 ^ 32 ≡ z * 1024 + q % 1024 =
        omega (arith, at.pointer, low (q / 1024)) in
      rw whole (omega (arith, aligned))

  -- A part that does not end the range ends a zone.
  next_aligned :
      (r c n : ℕ)
      → Part (p + r) (n - r) c
      → (r + c) % 2 ^ 64 ≡ r + c
      → (r + c) % 2 ^ 64 < n
      → (p + (r + c) % 2 ^ 64) % 512 ≡ 0
  next_aligned r c n part sum more =
      let zone_end : (p + r) % 1024 + c ≡ 1024 = part.full (omega (arith, sum, more)) in
      omega (arith, sum, zone_end)

  read_loop-Done :
      (k n : ℕ) (s : Reading)
      → n - s.read_bytes < k
      → s.read_bytes ≤ n
      → n < 2 ^ 64
      → At ptrs zs s.entry (p + s.read_bytes)
      → (s.read_bytes < n → (p + s.read_bytes) % 512 ≡ 0)
      → (p + n) / 1024 < length zs
      → Done dev fs ptrs zs p k n s
  unfolding read_part copy_out
  read_loop-Done zero n s fuel within fits at aligned inside = absurd (omega (arith, fuel))
  read_loop-Done (suc k) n s fuel within fits at aligned inside =
      elim (Bool-cases (ltb s.read_bytes n)) [
        | inr e ↦ loop_end k n s (ground (arith, e, within)) at
        | inl e ↦
            let more : s.read_bytes < n = ground (arith, e) in
            let part = curr_read-Part n s more at in
            let c = curr_read n s in
            let block =
              served (s.entry.file_pointer % 2 ^ 32) c (pointer_aligned s at (aligned more))
                (omega (arith, part.in_zone)) in
            let all : p + s.read_bytes + (n - s.read_bytes) ≡ p + n = omega (arith, within) in
            let to =
              next_place-Placed dev device fs ptrs ok blocks zs low s.entry (p + s.read_bytes)
                (n - s.read_bytes) c at part (rw all inside) in
            let sum : (s.read_bytes + c) % 2 ^ 64 ≡ s.read_bytes + c =
              omega (arith, part.within, fits) in
            let place : p + s.read_bytes + c ≡ p + (s.read_bytes + c) % 2 ^ 64 =
              omega (arith, sum) in
            Part-Done k n s block.0 to.next more fits part block.1 to.run
              (part_bytes s c block.0 at part.in_zone block.1) to.total to.size
              (read_loop-Done k n
                (record (copy_out s c (overlay s.read_buf 0 c block.0)) { entry = to.next })
                (omega (arith, sum, part.positive, part.within, fuel))
                (omega (arith, sum, part.within, more)) fits
                (subst (At ptrs zs to.next) place to.at)
                (λ h. next_aligned s.read_bytes c n part sum h) inside)
      ]

  finish-At :
      (fd : Descriptor) (q total : ℕ)
      → At ptrs zs fd q
      → At ptrs zs (record fd { total_read = total }) q
  finish-At fd q total at = record {
    block = at.block;
    byte_offset = at.byte_offset;
    pointer = at.pointer;
    left = remaining_moved ptrs fd fd.fp_byte_offset fd.file_pointer total ∙ at.left;
    inside = at.inside;
    placed = move_on-IsPlaced fd fd.fp_byte_offset fd.file_pointer total at.placed;
    no_triple = at.no_triple;
  }

  finished :
      (stack : Buffer) (fd : Descriptor) (buf : Buffer) (count : ℕ)
      → fd.total_read ≡ p
      → p + count < 2 ^ 32
      → cut_count fd count ≡ count
      → Done dev fs ptrs zs p (count + 1) count (read_start stack fd buf)
      → Returned dev fs ptrs zs p stack fd buf count
  unfolding read read_finish ◌>>=◌
  finished stack fd buf count total fits kept done =
      let last = done.last in
      let so_far : last.entry.total_read ≡ p = done.total ∙ total in
      let sum : (last.entry.total_read + last.read_bytes) % 2 ^ 64 ≡ p + count =
        omega (arith, done.bytes, so_far, fits) in
      record {
        entry = record last.entry {
          total_read = (last.entry.total_read + last.read_bytes) % 2 ^ 64;
        };
        out = last.buf;
        run = rw kept (
            rw done.run (
              ap
                (λ (n : ℕ). some (
                  n,
                  last.buf,
                  record last.entry {
                    total_read = (last.entry.total_read + last.read_bytes) % 2 ^ 64;
                  },
                ))
                done.bytes));
        bytes =
            λ i. done.buffer i ∙ in_front (λ (j : ℕ). content dev fs.disk zs (p + j)) buf count i;
        at = finish-At last.entry (p + count) _ done.at;
        total = sum;
      }

  -- From byte `p` of a file on, the first of a sector, whose zones are `zs`, all of them in the first 4 GiB of the
  -- disk, on a device that serves every read of at most 1024 bytes from the first byte of a sector on: where the range ends within the file and before the end of its last zone, `read` returns
  -- the count, puts the bytes of the file from `p` on in the first `count` places of the buffer and changes no
  -- other, and leaves the entry at byte `p + count`.
  pub read_lem :
      (stack : Buffer) (fd : Descriptor) (buf : Buffer) (count : ℕ)
      → At ptrs zs fd p
      → p % 512 ≡ 0
      → fd.total_read ≡ p
      → fd.size < 2 ^ 32
      → p + count ≤ fd.size
      → (p + count) / 1024 < length zs
      → Returned dev fs ptrs zs p stack fd buf count
  unfolding cut_count
  read_lem stack fd buf count at aligned total small within inside =
      let start : p + 0 ≡ p = omega arith in
      finished stack fd buf count total (omega (arith, small, within))
        (ground (arith, total, small, within))
        (read_loop-Done (count + 1) count (read_start stack fd buf) (omega arith) (omega arith)
          (omega (arith, small, within)) (subst (At ptrs zs fd) (sym start) at)
          (λ h. rw start aligned) inside)
