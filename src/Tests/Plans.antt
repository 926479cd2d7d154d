-- ===== src/Tests/Plans.antt =====
-- internal/services/billing/hold_plan.go on the numbers of its own tests.
use orbit_api.Common.{◌+◌, ◌≡◌, refl, ap, arith, ◌<◌, ◌≢◌}
use orbit_api.Common.Int.{pos, pos_part, ◌≤ℤ◌}
use orbit_api.Common.Result.{ok, err}
use orbit_api.Billing.Charge.{charge_micros}
use orbit_api.Billing.HoldPlan.{HoldPlan, low_on_credits, output_cap, compute_hold}
use orbit_api.Billing.HoldPlan.Facts.{ceil_cost}
use orbit_api.Billing.HoldPlan.Cover.{
  Fits, reference, compute_hold-reference, compute_hold-bounds, compute_hold-covers,
  compute_hold-largest,
}
use orbit_api.Tests.Data.{runs}

abbrev full_plan : HoldPlan
full_plan = record { amount_micros = pos 41360; max_tokens = pos 4096 }

full :
    compute_hold (pos 200) (pos 0) (pos 4096) (pos 2000000) (pos 10000000) (pos 1000000) (pos 10000)
    ≡ ok full_plan
unfolding runs
full = refl

-- Five cents are left: the output is cut so that the freeze fits.
abbrev cut_plan : HoldPlan
cut_plan = record { amount_micros = pos 50000; max_tokens = pos 4960 }

cut :
    compute_hold
      (pos 200)
      (pos 8192)
      (pos 4096)
      (pos 2000000)
      (pos 10000000)
      (pos 50000)
      (pos 10000)
    ≡ ok cut_plan
unfolding runs
cut = refl

below_floor :
    compute_hold (pos 200) (pos 0) (pos 4096) (pos 2000000) (pos 10000000) (pos 5000) (pos 10000)
    ≡ err low_on_credits
unfolding runs
below_floor = refl

full-Fits : Fits 200 2000000 10000000 1000000
full-Fits = record {
  input_fits = omega arith;
  budget_fits = omega arith;
  output_fits = omega arith;
}

cut-Fits : Fits 200 2000000 10000000 50000
cut-Fits = record { input_fits = omega arith; budget_fits = omega arith; output_fits = omega arith }

compute_hold-reference_example :
    compute_hold
      (pos 200)
      (pos 8192)
      (pos 4096)
      (pos 2000000)
      (pos 10000000)
      (pos 50000)
      (pos 10000)
    ≡ reference (pos_part (output_cap (pos 8192) (pos 4096))) 200 2000000 10000000 50000 (pos 10000)
compute_hold-reference_example =
    compute_hold-reference 200 2000000 10000000 50000 (pos 8192) (pos 4096) (pos 10000) cut-Fits

compute_hold-bounds_example :
    (pos 10000 ≤ℤ pos 50000)
    × (pos 1 ≤ℤ pos 50000)
    × (pos 50000 ≤ℤ pos 50000)
    × (pos 1 ≤ℤ pos 4960)
    × (pos 4960 ≤ℤ output_cap (pos 8192) (pos 4096))
compute_hold-bounds_example =
    compute_hold-bounds 200 2000000 10000000 50000 (pos 8192) (pos 4096) (pos 10000) cut_plan
      cut-Fits cut

compute_hold-covers_example :
    charge_micros (pos 150) (pos 4960) (pos 2000000) (pos 10000000) ≤ℤ pos 50000
compute_hold-covers_example =
    compute_hold-covers 200 2000000 10000000 50000 (pos 8192) (pos 4096) (pos 10000) cut_plan 150
      4960 cut-Fits cut (omega arith) (omega arith)

cut_short : pos 4960 ≢ output_cap (pos 8192) (pos 4096)
unfolding runs
cut_short e = omega (arith, ap pos_part e)

compute_hold-largest_example : 50000 < ceil_cost 200 2000000 + ceil_cost (4960 + 1) 10000000
compute_hold-largest_example =
    compute_hold-largest 200 2000000 10000000 50000 (pos 8192) (pos 4096) (pos 10000) cut_plan
      cut-Fits cut cut_short
