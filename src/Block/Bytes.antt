-- ===== src/Block/Bytes.antt =====
-- What the wrappers do to the bytes of a disk.
use cs.Base.{
  ℕ, ◌+◌, ◌-◌, ◌*◌, ◌/◌, ◌%◌, ◌^◌, ◌≤◌, ◌<◌, ◌≡◌, refl, sym, ap, ◌∙◌, arith, Bool, Bool-cases, inl,
  inr, true, false, Option, none, some, if◌then◌else◌, ◌>>=◌,
}
use cs.Memory.{in_range}
use cs.Block.{
  Device, Buffer, overlay, sector_size, sectors_len, block_read, block_write, overruns, read_range,
  write_range, block_read_wrapper, block_write_wrapper, write_back,
}
use cs.Block.Length.{sectors_len_lem}

-- What a served request does: a read gives the bytes of its sectors, a write changes them and no other
-- byte, and neither switches the driver off.
pub record IsDevice {Disk : Type 0} (dev : Device Disk) : Type 0 where
  pub reads :
      (d : Disk) (sector len : ℕ) (buf : Buffer)
      → dev.read d sector len ≡ some buf
      → (i : ℕ) → i < len
      → buf i ≡ dev.byte d (sector * 512 + i)
  pub writes :
      (d d' : Disk) (sector len : ℕ) (buf : Buffer)
      → dev.write d sector len buf ≡ (true, d')
      → (a : ℕ)
      → dev.byte d' a
        ≡ (if in_range (sector * 512) len a then buf (a - sector * 512) else dev.byte d a)

-- A transfer reaches from the sector of the first byte past the last one.
transfer_covers :
    (byte_num size : ℕ)
    → size + 4096 < 2 ^ 32
    → byte_num % 512 + size ≤ sectors_len byte_num (sectors_len byte_num size)
transfer_covers byte_num size h =
    let inner = sectors_len_lem byte_num size (omega arith) in
    let outer = sectors_len_lem byte_num (sectors_len byte_num size) (omega (arith, inner)) in
    omega (arith, inner, outer)

value_at : Buffer → ℕ → Option Buffer → ℕ
value_at d i none = d i
value_at d i (some buf) = buf i

pub some_at : (f g : Buffer) → some f ≡ some g → (i : ℕ) → f i ≡ g i
unfolding value_at
some_at f g h i = ap (value_at f i) h

returned : {A : Type 0} (over : Bool) (x y : A) → (if over then none else some x) ≡ some y → x ≡ y
returned true x y h = absurd (ground (arith, h))
returned false x y h = ap (λ o. elim o [ none ↦ x | some z ↦ z ]) h

module _ {Disk : Type 0} (dev : Device Disk) (ok : IsDevice dev) where
  read_inv :
      (d : Disk) (byte_num size : ℕ) (buf : Buffer)
      → block_read dev d byte_num size ≡ some buf
      → dev.read d (byte_num / 512) (sectors_len byte_num size) ≡ some buf
  unfolding block_read
  read_inv d byte_num size buf h = elim (Bool-cases (dev.enabled d)) [
    | inl e ↦ rw e at h
    | inr e ↦ ground (arith, e, h)
  ]

  write_inv :
      (d d' : Disk) (byte_num size : ℕ) (buf : Buffer)
      → block_write dev d byte_num size buf ≡ (true, d')
      → dev.write d (byte_num / 512) (sectors_len byte_num size) buf ≡ (true, d')
  unfolding block_write
  write_inv d d' byte_num size buf h = elim (Bool-cases (dev.enabled d)) [
    | inl e ↦ rw e at h
    | inr e ↦ ground (arith, e, ap (λ (p : Bool × Disk). p.0) h)
  ]

  read_range-byte :
      (d : Disk) (byte_num size : ℕ) (buf : Buffer)
      → size + 4096 < 2 ^ 32
      → read_range dev d byte_num size ≡ some buf
      → (i : ℕ) → i < size
      → buf i ≡ dev.byte d (byte_num + i)
  unfolding read_range
  read_range-byte d byte_num size buf h run i low =
      go (block_read dev d byte_num (sectors_len byte_num size)) refl run
    where
      go :
          (o : Option Buffer)
          → block_read dev d byte_num (sectors_len byte_num size) ≡ o
          → (o >>= (λ (t : Buffer). some (λ (j : ℕ). t (byte_num % sector_size + j)))) ≡ some buf
          → buf i ≡ dev.byte d (byte_num + i)
      go none at r = ground (arith, r)
      go (some t) at r =
          let got =
            ok.reads d (byte_num / 512) (sectors_len byte_num (sectors_len byte_num size)) t
              (read_inv d byte_num (sectors_len byte_num size) t at) (byte_num % 512 + i)
              (omega (arith, transfer_covers byte_num size h)) in
          let place : byte_num / 512 * 512 + (byte_num % 512 + i) ≡ byte_num + i = omega arith in
          sym (some_at (λ (j : ℕ). t (byte_num % sector_size + j)) buf r i)
          ∙ got
          ∙ ap (dev.byte d) place

  write_range-byte :
      (d d' : Disk) (byte_num size : ℕ) (buf : Buffer)
      → size + 4096 < 2 ^ 32
      → write_range dev d byte_num size buf ≡ (true, d')
      → (a : ℕ)
      → dev.byte d' a ≡ (if in_range byte_num size a then buf (a - byte_num) else dev.byte d a)
  unfolding write_range write_back
  write_range-byte d d' byte_num size buf h run a =
      go (block_read dev d byte_num (sectors_len byte_num size)) refl run
    where
      go :
          (o : Option Buffer)
          → block_read dev d byte_num (sectors_len byte_num size) ≡ o
          → write_back dev d byte_num size buf o ≡ (true, d')
          → dev.byte d' a ≡ (if in_range byte_num size a then buf (a - byte_num) else dev.byte d a)
      go none at r = ground (arith, ap (λ (p : Bool × Disk). p.0) r)
      go (some t) at r =
          let len = sectors_len byte_num (sectors_len byte_num size) in
          let first = byte_num / 512 * 512 in
          let put =
            ok.writes d d' (byte_num / 512) len (overlay t (byte_num % 512) size buf)
              (write_inv d d' byte_num (sectors_len byte_num size) _ r) a in
          let got =
            ok.reads d (byte_num / 512) len t (read_inv d byte_num (sectors_len byte_num size) t at)
              (a - first) in
          let cover = transfer_covers byte_num size h in
          let split : byte_num ≡ first + byte_num % 512 = omega arith in
          let same : a - first - byte_num % 512 ≡ a - byte_num = omega arith in
          let kept : buf (a - first - byte_num % 512) ≡ buf (a - byte_num) = ap buf same in
          elim (Bool-cases (in_range first len a)) [
            | inl i ↦
                let back : first + (a - first) ≡ a = ground arith in
                let old : t (a - first) ≡ dev.byte d a =
                  got (ground arith) ∙ ap (dev.byte d) back in
                elim (Bool-cases (in_range byte_num size a)) [
                  | inl j ↦
                      let inner : in_range (byte_num % 512) size (a - first) ≡ true =
                        ground arith in
                      put ∙ rw (i, j, inner) kept
                  | inr j ↦
                      let inner : in_range (byte_num % 512) size (a - first) ≡ false =
                        ground arith in
                      put ∙ rw (i, j, inner) old
                ]
            | inr i ↦
                let outer : in_range byte_num size a ≡ false = ground arith in
                put ∙ rw (i, outer) refl
          ]

  -- A read of a range of bytes that succeeds gives the bytes of the disk.
  pub block_read_wrapper-byte :
      (d : Disk) (byte_num size : ℕ) (buf : Buffer)
      → size + 4096 < 2 ^ 32
      → block_read_wrapper dev d byte_num size ≡ some (some buf)
      → (i : ℕ) → i < size
      → buf i ≡ dev.byte d (byte_num + i)
  unfolding block_read_wrapper
  block_read_wrapper-byte d byte_num size buf h run i low =
      read_range-byte d byte_num size buf h
        (returned (overruns dev d byte_num size) (read_range dev d byte_num size) (some buf) run) i
        low

  -- A write of a range of bytes, of a size below 2^32 - 4096, that does not overrun its buffer and succeeds on a
  -- device that keeps its laws changes those bytes of the disk and no other.
  pub block_write_wrapper-byte :
      (d d' : Disk) (byte_num size : ℕ) (buf : Buffer)
      → size + 4096 < 2 ^ 32
      → block_write_wrapper dev d byte_num size buf ≡ some (true, d')
      → (a : ℕ)
      → dev.byte d' a ≡ (if in_range byte_num size a then buf (a - byte_num) else dev.byte d a)
  unfolding block_write_wrapper
  block_write_wrapper-byte d d' byte_num size buf h run =
      write_range-byte d d' byte_num size buf h (
        returned (overruns dev d byte_num size) (write_range dev d byte_num size buf) (true, d')
          run)
