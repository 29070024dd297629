-- ===== src/Minix/Zone/Read/Filled.antt =====
-- What read promises: a buffer with a range of the bytes of a file.
use cs.Base.{
  inl, inr, ℕ, ◌+◌, ◌-◌, ◌<◌, ◌≤◌, ◌≡◌, refl, ap, ◌∙◌, arith, Bool-cases, true, false, List, some,
  ltb, if◌then◌else◌,
}
use cs.Memory.{in_range}
use cs.Block.{Device, Buffer, overlay}
use cs.Minix.{Fs}
use cs.Minix.Zone.{Descriptor}
use cs.Minix.Zone.Read.{Reading, read_loop, read}
use cs.Minix.Zone.Read.Content.{content, At}

-- A buffer with the bytes of `f` from `a` to `b - 1` in the place of its own.
abbrev pub filled : (ℕ → ℕ) → Buffer → ℕ → ℕ → Buffer
filled f buf a b i = if in_range a (b - a) i then f i else buf i

pub filled_part :
    (f : ℕ → ℕ) (buf read_buf bytes : Buffer) (r c n : ℕ)
    → r + c ≤ n
    → ((j : ℕ) → j < c → bytes j ≡ f (r + j))
    → (i : ℕ)
    → filled f (overlay buf r c (overlay read_buf 0 c bytes)) (r + c) n i ≡ filled f buf r n i
filled_part f buf read_buf bytes r c n h got i = elim (Bool-cases (in_range r c i)) [
  | inl e ↦
      let back : r + (i - r) ≡ i = ground (arith, e) in
      let here : bytes (i - r - 0) ≡ f i =
        let none_off : i - r - 0 ≡ i - r = omega arith in
        rw none_off (got (i - r) (ground (arith, e)) ∙ ap f back) in
      let inner : in_range 0 c (i - r) ≡ true = ground (arith, e) in
      let outer : in_range (r + c) (n - (r + c)) i ≡ false = ground (arith, e) in
      let all : in_range r (n - r) i ≡ true = ground (arith, e, h) in rw (outer, all, e, inner) here
  | inr e ↦ elim (Bool-cases (in_range (r + c) (n - (r + c)) i)) [
    | inl o ↦ let all : in_range r (n - r) i ≡ true = ground (arith, o, h) in rw (o, all) refl
    | inr o ↦
        let all : in_range r (n - r) i ≡ false = ground (arith, e, o, h) in rw (o, all, e) refl
  ]
]

pub in_front :
    (f : ℕ → ℕ) (buf : Buffer) (n i : ℕ) → filled f buf 0 n i ≡ (if ltb i n then f i else buf i)
in_front f buf n i = let same : in_range 0 (n - 0) i ≡ ltb i n = ground arith in rw same refl

module _ {Disk : Type 0} (dev : Device Disk) (fs : Fs Disk) (ptrs : ℕ → List ℕ) (zs : List ℕ)
    (p : ℕ) where
  abbrev pub file_byte : ℕ → ℕ
  file_byte i = content dev fs.disk zs (p + i)

  -- The loop up to byte `n` of the range.
  pub record Done (k n : ℕ) (s : Reading) : Type 0 where
    pub last : Reading
    pub run : read_loop dev fs k n s ≡ some (true, last)
    pub bytes : last.read_bytes ≡ n
    pub at : At ptrs zs last.entry (p + n)
    pub total : last.entry.total_read ≡ s.entry.total_read
    pub size : last.entry.size ≡ s.entry.size
    pub buffer : (i : ℕ) → last.buf i ≡ filled file_byte s.buf s.read_bytes n i

  -- `read` returns the count, with the bytes of the file from `p` on in the first `count` places of the buffer and
  -- the others as they were, and the entry at byte `p + count`.
  pub record Returned (stack : Buffer) (fd : Descriptor) (buf : Buffer) (count : ℕ) : Type 0 where
    pub entry : Descriptor
    pub out : Buffer
    pub run : read dev fs stack fd buf count ≡ some (count, out, entry)
    pub bytes : (i : ℕ) → out i ≡ (if ltb i count then content dev fs.disk zs (p + i) else buf i)
    pub at : At ptrs zs entry (p + count)
    pub total : entry.total_read ≡ p + count
