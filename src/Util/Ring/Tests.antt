-- ===== src/Util/Ring/Tests.antt =====
-- A ring of two bytes.
use cs.Base.{◌≡◌, arith, true, [], ◌∷◌, some}
use cs.Util.Ring.{Ring, ring_new_with_policy, ring_push, ring_pop}
use cs.Util.Ring.Queue.{overwrite}
use cs.Util.Ring.Refine.{Holds, ring_push-Holds, ring_pop-Holds, ring_new-Holds}

empty : Ring
unfolding ring_new_with_policy
empty = ring_new_with_policy 2 overwrite

empty-Holds : Holds 2 overwrite [] empty
unfolding empty
empty-Holds = ring_new-Holds 2 overwrite (omega arith)

-- 1 and 2 pushed, and 3 over the first
pushed : (r : Ring) × (ring_push empty 1 ≡ some (true, r)) × Holds 2 overwrite (1 ∷ []) r
pushed = ring_push-Holds empty empty-Holds 1

filled : (r : Ring) × (ring_push pushed.0 2 ≡ some (true, r)) × Holds 2 overwrite (1 ∷ 2 ∷ []) r
filled = ring_push-Holds pushed.0 pushed.2 2

ring_push-Holds_example :
    (r : Ring) × (ring_push filled.0 3 ≡ some (true, r)) × Holds 2 overwrite (2 ∷ 3 ∷ []) r
ring_push-Holds_example = ring_push-Holds filled.0 filled.2 3

ring_pop-Holds_example :
    ((ring_pop filled.0).0 ≡ 1) × Holds 2 overwrite (2 ∷ []) (ring_pop filled.0).1
ring_pop-Holds_example = ring_pop-Holds filled.0 filled.2
