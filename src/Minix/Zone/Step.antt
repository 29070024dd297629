-- ===== src/Minix/Zone/Step.antt =====
-- What one call of get_next_zone_wrapper does to the zones that are left.
use cs.Base.{
  ◌⊎◌, inl, inr, ℕ, ◌+◌, ◌/◌, ◌%◌, ◌^◌, ◌<◌, ◌≡◌, refl, sym, ap, ◌∙◌, arith, Bool-cases, true,
  false, List, [], ◌++◌, some, ltb, ◌==◌, if◌then◌else◌, ◌>>=◌,
}
use cs.Base.Lists.{drop, take, length-take}
use cs.Block.{Device}
use cs.Minix.{Fs}
use cs.Minix.Zone.{
  Descriptor, minus_one, restore, zone_indir, zone_dindir, zone_tindir, zone_of, or_else,
  direct_left, next_direct, next_single, in_direct, in_single, in_double, in_triple, get_next_zone,
  get_next_zone_wrapper,
}
use cs.Minix.Zone.Walk.{
  nonzero, double_zones, scan_array, double_from-Doubles, Pointers, drop_all, get_or-take,
}
use cs.Minix.Zone.Left.{
  doubles, singles, remaining, zone_at, IsPlaced, direct, single, double, Next, Stage,
  restore_again,
}

module _ {Disk : Type 0} (dev : Device Disk) (fs : Fs Disk) (ptrs : ℕ → List ℕ)
    (ok : Pointers dev fs ptrs) where
  Stage-double :
      (fd : Descriptor)
      → fd.index0 ≡ zone_dindir
      → fd.index3 ≡ minus_one
      → zone_of fd zone_tindir ≡ 0
      → Stage ptrs fd
          (in_double dev fs fd >>= (λ r. or_else r in_triple))
          (doubles ptrs fd fd.index1 ((fd.index2 + 1) % 2 ^ 32))
  unfolding in_double in_triple doubles restore remaining zone_at double_zones ◌>>=◌
  Stage-double fd at unreached no_triple =
      let here : fd.index0 == zone_dindir ≡ true = ground (arith, at) in
      let not_triple : fd.index0 == zone_tindir ≡ false = ground (arith, at) in
      elim (Bool-cases (zone_of fd zone_dindir == 0)) [
        | inl e ↦ inl (rw e refl, fd, rw (here, e, not_triple) refl, refl)
        | inr e ↦ elim (Bool-cases (ltb (fs.block_size / 4) fd.index1)) [
          | inl past ↦
              let none_left : drop fd.index1 (ptrs (zone_of fd zone_dindir)) ≡ [] =
                drop_all fd.index1 (ptrs (zone_of fd zone_dindir))
                  (ground (arith, past, ok.whole (zone_of fd zone_dindir))) in
              inl (
                rw (e, none_left) refl,
                fd,
                rw (here, e, ok.reads (zone_of fd zone_dindir), past, not_triple) refl,
                refl,
              )
          | inr within ↦
              let table = ptrs (zone_of fd zone_dindir) in
              elim (double_from-Doubles dev fs ptrs ok table fd.index1 (drop fd.index1 table) fd
                refl) [
                  | inl n ↦ inl (
                    rw e n.0,
                    record fd { index0 = zone_tindir; index1 = 0; index2 = 0; index3 = minus_one },
                    rw (here, e, ok.reads (zone_of fd zone_dindir), within, n.1, no_triple) refl,
                    refl,
                  )
                  | inr f ↦
                      let low : f.j < minus_one =
                        omega (arith, f.in_table, ok.short (zone_of fd zone_dindir)) in
                      let one : f.j == minus_one ≡ false = ground (arith, low) in
                      let two : f.k == minus_one ≡ false = ground (arith, f.below) in
                      let under : ltb fd.index0 zone_indir ≡ false = ground (arith, at) in
                      let not_single : fd.index0 == zone_indir ≡ false = ground (arith, at) in
                      inr (
                        record fd { index1 = f.j; index2 = f.k; fp_block_offset = f.z },
                        f.zs,
                        rw (here, e, ok.reads (zone_of fd zone_dindir), within, f.result) refl,
                        record {
                          first = rw e f.first;
                          rest = rw (under, not_single, here, e) f.rest;
                          placed = double at low f.below unreached;
                          at = rw (one, two) f.value;
                          kept = refl;
                        },
                      )
                ]
        ]
      ]

  Stage-single :
      (fd : Descriptor)
      → fd.index0 ≡ zone_indir
      → fd.index2 ≡ minus_one
      → fd.index3 ≡ minus_one
      → zone_of fd zone_tindir ≡ 0
      → Stage ptrs fd
          (in_single dev fs fd
            >>= (λ r. or_else r (λ fd. in_double dev fs fd >>= (λ r. or_else r in_triple))))
          (singles ptrs fd ((fd.index1 + 1) % 2 ^ 32))
  unfolding in_single in_double in_triple next_single singles doubles restore remaining zone_at
      ◌>>=◌
  Stage-single fd at unreached2 unreached3 no_triple =
      let here : fd.index0 == zone_indir ≡ true = ground (arith, at) in
      elim (Bool-cases (zone_of fd zone_indir == 0)) [
        | inl e ↦
            let not_double : fd.index0 == zone_dindir ≡ false = ground (arith, at) in
            let not_triple : fd.index0 == zone_tindir ≡ false = ground (arith, at) in
            inl (rw e refl, fd, rw (here, e, not_double, not_triple) refl, refl)
        | inr e ↦
            let first = (fd.index1 + 1) % 2 ^ 32 in
            let pointers = ptrs (zone_of fd zone_indir) in
            elim (scan_array first pointers) [
              | inl n ↦
                  elim (Stage-double
                    (record fd { index0 = zone_dindir; index1 = 0; index2 = minus_one }) refl
                    unreached3 no_triple) [
                      | inl d ↦ inl (
                        rw (e, n.1) d.0,
                        d.1,
                        rw (here, e, ok.reads (zone_of fd zone_indir), n.0) d.2,
                        restore_again fd _ d.1 refl d.3,
                      )
                      | inr d ↦ inr (
                        d.0,
                        d.1,
                        rw (here, e, ok.reads (zone_of fd zone_indir), n.0) d.2,
                        record {
                          first = rw (e, n.1) d.3.first;
                          rest = d.3.rest;
                          placed = d.3.placed;
                          at = d.3.at;
                          kept = restore_again fd _ d.0 refl d.3.kept;
                        },
                      )
                    ]
              | inr f ↦
                  let g = f.2 in
                  let low : f.0 < minus_one =
                    omega (arith, g.below, ok.short (zone_of fd zone_indir)) in
                  let one : f.0 == minus_one ≡ false = ground (arith, low) in
                  let two : fd.index2 == minus_one ≡ true = ground (arith, unreached2) in
                  let under : ltb fd.index0 zone_indir ≡ false = ground (arith, at) in
                  let step : (f.0 + 1) % 2 ^ 32 ≡ f.0 + 1 = omega (arith, low) in
                  inr (
                    record fd { index1 = f.0; fp_block_offset = f.1 },
                    nonzero (drop (f.0 + 1) pointers) ++ doubles ptrs fd 0 0,
                    rw (here, e, ok.reads (zone_of fd zone_indir), g.at) refl,
                    record {
                      first = rw (e, g.rest) refl;
                      rest = rw (under, here, e, step) refl;
                      placed = single at low unreached2 unreached3;
                      at = rw (one, two) g.value;
                      kept = refl;
                    },
                  )
            ]
      ]

  Stage-direct :
      (fd : Descriptor)
      → fd.index0 < zone_indir
      → fd.index1 ≡ minus_one
      → fd.index2 ≡ minus_one
      → fd.index3 ≡ minus_one
      → zone_of fd zone_tindir ≡ 0
      → Stage ptrs fd (get_next_zone dev fs fd) (remaining ptrs fd)
  unfolding get_next_zone in_direct next_direct direct_left restore remaining zone_at singles
      doubles
  Stage-direct fd at unreached1 unreached2 unreached3 no_triple =
      let here : ltb fd.index0 zone_indir ≡ true = ground (arith, at) in
      elim (scan_array (fd.index0 + 1) (take zone_indir fd.zones)) [
        | inl n ↦
            let fd' = record fd {
              index0 = zone_indir;
              index1 = minus_one;
              fp_block_offset = if ltb (fd.index0 + 1) zone_indir then 0 else fd.fp_block_offset;
            } in
            elim (Stage-single fd' refl unreached2 unreached3 no_triple) [
              | inl d ↦
                  inl
                    (rw (here, n.1) d.0, d.1, rw (here, n.0) d.2, restore_again fd fd' d.1 refl d.3)
              | inr d ↦ inr (
                d.0,
                d.1,
                rw (here, n.0) d.2,
                record {
                  first = rw (here, n.1) d.3.first;
                  rest = d.3.rest;
                  placed = d.3.placed;
                  at = d.3.at;
                  kept = restore_again fd fd' d.0 refl d.3.kept;
                },
              )
            ]
        | inr f ↦
            let g = f.2 in
            let low : f.0 < zone_indir = omega (arith, g.below, length-take zone_indir fd.zones) in
            let under : ltb f.0 zone_indir ≡ true = ground (arith, low) in
            let one : fd.index1 == minus_one ≡ true = ground (arith, unreached1) in
            inr (
              record fd { index0 = f.0; fp_block_offset = f.1 },
              nonzero (drop (f.0 + 1) (take zone_indir fd.zones)) ++ singles ptrs fd 0,
              rw (here, g.at) refl,
              record {
                first = rw (here, g.rest) refl;
                rest = rw under refl;
                placed = direct low unreached1 unreached2 unreached3;
                at = rw one (sym (get_or-take zone_indir f.0 fd.zones low) ∙ g.value);
                kept = refl;
              },
            )
      ]

  single_passed :
      (fd : Descriptor) → fd.index0 == zone_indir ≡ false → in_single dev fs fd ≡ some (false, fd)
  unfolding in_single
  single_passed fd e = rw e refl

  stage :
      (fd : Descriptor)
      → IsPlaced fd
      → zone_of fd zone_tindir ≡ 0
      → Stage ptrs fd (get_next_zone dev fs fd) (remaining ptrs fd)
  unfolding get_next_zone in_direct remaining ◌>>=◌
  stage fd (direct at u1 u2 u3) no_triple = Stage-direct fd at u1 u2 u3 no_triple
  stage fd (single at u1 u2 u3) no_triple =
      let under : ltb fd.index0 zone_indir ≡ false = ground (arith, at) in
      let here : fd.index0 == zone_indir ≡ true = ground (arith, at) in
      rw (under, here) (Stage-single fd at u2 u3 no_triple)
  stage fd (double at u1 u2 u3) no_triple =
      let under : ltb fd.index0 zone_indir ≡ false = ground (arith, at) in
      let not_single : fd.index0 == zone_indir ≡ false = ground (arith, at) in
      let here : fd.index0 == zone_dindir ≡ true = ground (arith, at) in
      rw (under, single_passed fd not_single, not_single, here) (Stage-double fd at u3 no_triple)

  pub get_next_zone_wrapper-Next :
      (fd : Descriptor)
      → IsPlaced fd
      → zone_of fd zone_tindir ≡ 0
      → ((remaining ptrs fd ≡ []) × (get_next_zone_wrapper dev fs fd ≡ some (false, fd)))
        ⊎ ((next : Descriptor) × (zs : List ℕ) × (get_next_zone_wrapper dev fs fd
              ≡ some (true, next))
            × Next ptrs fd (remaining ptrs fd) next zs)
  unfolding get_next_zone_wrapper ◌>>=◌
  get_next_zone_wrapper-Next fd placed no_triple = elim (stage fd placed no_triple) [
    | inl n ↦ inl (n.0, rw n.2 (ap (λ (d : Descriptor). some (false, d)) n.3))
    | inr f ↦ inr (f.0, f.1, rw f.2 refl, f.3)
  ]
