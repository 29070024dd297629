-- ===== src/Util/Tests.antt =====
-- The rounding macros at the sizes that the kernel uses.
use cs.Base.{◌≡◌, refl}
use cs.Util.Align.{align_up}

align_up_values : (align_up 4097 4096 ≡ 8192) × (align_up 8192 4096 ≡ 8192) × (align_up 0 4096 ≡ 0)
unfolding align_up
align_up_values = (refl, refl, refl)
