-- ===== src/Minix/Zone/Read/Content.antt =====
-- What read gives: the bytes of the file.
use cs.Base.{
  inl, inr, ℕ, ◌+◌, ◌-◌, ◌*◌, ◌/◌, ◌%◌, ◌^◌, ◌<◌, ◌≤◌, ◌≡◌, refl, sym, ap, ◌∙◌, arith, Bool-cases,
  true, false, List, ◌∷◌, some, ◌==◌, ◌>>=◌,
}
use cs.Base.Lists.{length, get_or, drop, length-drop}
use cs.Block.{Device}
use cs.Block.Bytes.{IsDevice}
use cs.Minix.{Fs}
use cs.Minix.Zone.{Descriptor, restore, zone_tindir, zone_of, get_next_zone_wrapper}
use cs.Minix.Zone.Walk.{Pointers, drop-drop, drop-cons}
use cs.Minix.Zone.Left.{
  remaining, IsPlaced, direct, single, double, remaining_moved, remaining_arrived,
}
use cs.Minix.Zone.Step.{get_next_zone_wrapper-Next}
use cs.Minix.Zone.Seek.{block_bytes, zone, reread}
use cs.Minix.Zone.Seek.Position.{reread_lem}
use cs.Minix.Zone.Read.{max_read, go_to, move_on, block_found, next_place}

-- The bytes of a file whose zones are `zs`.
unfoldable pub content : {Disk : Type 0} → Device Disk → Disk → List ℕ → ℕ → ℕ
content dev d zs q = dev.byte d (get_or zs (q / 1024) 0 * 1024 + q % 1024)

-- An entry at byte `p` of a file whose zones are `zs`.
pub record At (ptrs : ℕ → List ℕ) (zs : List ℕ) (fd : Descriptor) (p : ℕ) : Type 0 where
  pub block : fd.fp_block_offset ≡ get_or zs (p / 1024) 0
  pub byte_offset : fd.fp_byte_offset ≡ p % 1024
  pub pointer : fd.file_pointer ≡ get_or zs (p / 1024) 0 * 1024 + p % 1024
  pub left : remaining ptrs fd ≡ drop (p / 1024 + 1) zs
  pub inside : p / 1024 < length zs
  pub placed : IsPlaced fd
  pub no_triple : zone_of fd zone_tindir ≡ 0

pub move_on-IsPlaced :
    (fd : Descriptor) (byte pointer total : ℕ)
    → IsPlaced fd
    → IsPlaced (record fd { fp_byte_offset = byte; file_pointer = pointer; total_read = total })
move_on-IsPlaced fd byte pointer total (direct at u1 u2 u3) = direct at u1 u2 u3
move_on-IsPlaced fd byte pointer total (single at u1 u2 u3) = single at u1 u2 u3
move_on-IsPlaced fd byte pointer total (double at u1 u2 u3) = double at u1 u2 u3

arrive-IsPlaced :
    (fd : Descriptor) (block byte pointer : ℕ)
    → IsPlaced fd
    → IsPlaced
        (record fd { fp_block_offset = block; fp_byte_offset = byte; file_pointer = pointer })
arrive-IsPlaced fd block byte pointer (direct at u1 u2 u3) = direct at u1 u2 u3
arrive-IsPlaced fd block byte pointer (single at u1 u2 u3) = single at u1 u2 u3
arrive-IsPlaced fd block byte pointer (double at u1 u2 u3) = double at u1 u2 u3

-- A part of `curr` bytes from `p` on: to the end of the zone or of the range.
pub record Part (p rest curr : ℕ) : Type 0 where
  pub positive : 0 < curr
  pub within : curr ≤ rest
  pub in_zone : p % 1024 + curr ≤ 1024
  pub full : curr < rest → p % 1024 + curr ≡ 1024

module _ {Disk : Type 0} (dev : Device Disk) (device : IsDevice dev) (fs : Fs Disk)
    (ptrs : ℕ → List ℕ) (ok : Pointers dev fs ptrs) (blocks : fs.block_size ≡ 1024) (zs : List ℕ)
    (low : (i : ℕ) → get_or zs i 0 * 1024 + 1024 ≤ 2 ^ 32) where
  -- The next zone of the file.
  record NextZone (fd : Descriptor) (p : ℕ) : Type 0 where
    next : Descriptor
    found : get_next_zone_wrapper dev fs fd ≡ some (true, next)
    same : reread dev fs next ≡ zone (get_or zs (p / 1024 + 1) 0)
    rest : remaining ptrs next ≡ drop (p / 1024 + 1 + 1) zs
    placed : IsPlaced next
    kept : restore fd next ≡ fd

  next_zone : (fd : Descriptor) (p : ℕ) → At ptrs zs fd p → p / 1024 + 1 < length zs → NextZone fd p
  next_zone fd p at more =
      elim (get_next_zone_wrapper-Next dev fs ptrs ok fd at.placed at.no_triple) [
        | inl last ↦
            absurd
              (omega (arith, more, length-drop (p / 1024 + 1) zs, ap length (sym at.left ∙ last.0)))
        | inr f ↦
            let split : drop (p / 1024 + 1) zs ≡ f.0.fp_block_offset ∷ f.1 =
              sym at.left ∙ f.3.first in
            let here = (drop-cons (p / 1024 + 1) zs f.0.fp_block_offset f.1 split).0 in
            record {
              next = f.0;
              found = f.2;
              same = reread_lem dev fs ptrs ok blocks f.0 f.3.placed ∙ ap zone (f.3.at ∙ sym here);
              rest = f.3.rest ∙ sym (ap (drop 1) split) ∙ drop-drop 1 (p / 1024 + 1) zs;
              placed = f.3.placed;
              kept = f.3.kept;
            }
      ]

  -- The place after a part.
  pub record Placed (fd : Descriptor) (p curr : ℕ) : Type 0 where
    pub next : Descriptor
    pub run : next_place dev fs fd curr ≡ some next
    pub at : At ptrs zs next (p + curr)
    pub total : next.total_read ≡ fd.total_read
    pub size : next.size ≡ fd.size

  arrived :
      (fd : Descriptor) (p curr : ℕ)
      → At ptrs zs fd p
      → curr == max_read fd ≡ true
      → curr ≡ 1024 - p % 1024
      → p / 1024 + 1 < length zs
      → NextZone fd p
      → Placed fd p curr
  unfolding next_place block_found go_to restore ◌>>=◌
  arrived fd p curr at whole all more n =
      let q = p / 1024 + 1 in
      let z = get_or zs q 0 in
      let quotient : (p + curr) / 1024 ≡ q = omega (arith, all) in
      let remainder : (p + curr) % 1024 ≡ 0 = omega (arith, all) in
      let fits : z * block_bytes % 2 ^ 64 ≡ z * 1024 + 0 = omega (arith, low q) in
      record {
        next = record n.next {
          fp_block_offset = z;
          file_pointer = z * block_bytes % 2 ^ 64;
          fp_byte_offset = 0;
        };
        run = rw (whole, n.found, n.same) refl;
        at = record {
          block = rw quotient refl;
          byte_offset = sym remainder;
          pointer = rw (quotient, remainder) fits;
          left = rw quotient (remaining_arrived ptrs n.next z 0 _ ∙ n.rest);
          inside = rw quotient more;
          placed = arrive-IsPlaced n.next z 0 _ n.placed;
          no_triple = ap (λ (d : Descriptor). zone_of d zone_tindir) n.kept ∙ at.no_triple;
        };
        total = ap (λ (d : Descriptor). d.total_read) n.kept;
        size = ap (λ (d : Descriptor). d.size) n.kept;
      }

  in_same_zone :
      (fd : Descriptor) (p curr : ℕ)
      → At ptrs zs fd p
      → curr == max_read fd ≡ false
      → p % 1024 + curr < 1024
      → Placed fd p curr
  unfolding next_place move_on
  in_same_zone fd p curr at whole inner =
      let quotient : (p + curr) / 1024 ≡ p / 1024 = omega (arith, inner) in
      let remainder : (p + curr) % 1024 ≡ p % 1024 + curr = omega (arith, inner) in
      record {
        next = move_on fd curr;
        run = rw whole refl;
        at = record {
          block = rw quotient at.block;
          byte_offset = rw remainder (omega (arith, at.byte_offset, inner));
          pointer = rw (quotient, remainder) (omega (arith, at.pointer, low (p / 1024), inner));
          left = rw quotient (remaining_moved ptrs fd _ _ fd.total_read ∙ at.left);
          inside = rw quotient at.inside;
          placed = move_on-IsPlaced fd _ _ _ at.placed;
          no_triple = at.no_triple;
        };
        total = refl;
        size = refl;
      }

  pub max_read_lem : (fd : Descriptor) (p : ℕ) → At ptrs zs fd p → max_read fd ≡ 1024 - p % 1024
  unfolding max_read
  max_read_lem fd p at = omega (arith, at.byte_offset)

  pub next_place-Placed :
      (fd : Descriptor) (p rest curr : ℕ)
      → At ptrs zs fd p
      → Part p rest curr
      → (p + rest) / 1024 < length zs
      → Placed fd p curr
  next_place-Placed fd p rest curr at part inside = elim (Bool-cases (curr == max_read fd)) [
    | inl e ↦
        let all : curr ≡ 1024 - p % 1024 = ground (arith, e, max_read_lem fd p at) in
        let more : p / 1024 + 1 < length zs = omega (arith, inside, part.within, all) in
        arrived fd p curr at e all more (next_zone fd p at more)
    | inr e ↦ in_same_zone fd p curr at e (ground (arith, e, max_read_lem fd p at, part.in_zone))
  ]
