-- ===== src/Tests/Records.antt =====
-- Holds and records on a database with one organization.
use mathlib.Core.Option
use orbit_api.Common.{◌≡◌, refl, inr, true, none, some, arith}
use orbit_api.Common.Int.{pos}
use orbit_api.Common.Str.{Str, codes}
use orbit_api.Common.Table.{lookup}
use orbit_api.Common.Result.{ok}
use orbit_api.Store.{Organization, CreditHold, Db, org_key}
use orbit_api.Billing.Holds.{HoldPlanner, place_hold, SettleResult}
use orbit_api.Billing.Invariants.{IsUsed}
use orbit_api.Billing.Ledger.{record_usage}
use orbit_api.Billing.Ledger.Once.{record_usage_once}
use orbit_api.Billing.Ledger.Spending.{Fitting}
use orbit_api.Billing.Ledger.Lockstep.{record_usage-IsUsed}
use orbit_api.Tests.Data.{runs, answers, acme, wallet, answered}

abbrev pub h1 : Str
h1 = codes "h1"

abbrev pub half : HoldPlanner
half available = ok (pos 41360, pos 4096)

abbrev pub held : Db
held = (place_hold answers 5 h1 acme (pos 10000) (pos 60000000000) (some half) wallet).1

held_org :
    Option.map
      (λ (o : Organization). o.credits_remaining_micros)
      (lookup org_key acme held.organizations)
    ≡ some (pos 958640)
unfolding runs
held_org = refl

abbrev pub after : Db
after = (record_usage answers 9 (codes "r1") (answered h1) held).1

abbrev pub recorded : SettleResult
recorded = record {
  found = true;
  applied = true;
  organization_id = acme;
  amount_micros = pos 41360;
  actual_micros = pos 1400;
  refund_micros = pos 39960;
  remaining_before_micros = pos 958640;
  remaining_after_micros = pos 998600;
}

pub record_runs : record_usage answers 9 (codes "r1") (answered h1) held ≡ (ok recorded, after)
unfolding runs
record_runs = refl

record_usage_once_example : (record_usage answers 20 (codes "r2") (answered h1) after).1 ≡ after
record_usage_once_example =
    record_usage_once answers answers 9 20 (codes "r1") (codes "r2") (answered h1) held record_runs

abbrev pub h1_row : CreditHold
h1_row = record {
  id = h1;
  organization_id = acme;
  amount_micros = pos 41360;
  created_at = 5;
  expires_at = 60000005;
  settled_at = none;
}

held-IsUsed : IsUsed held
unfolding runs
held-IsUsed id o found = ground arith

h1_fits : Fitting (answered h1) held
unfolding runs
h1_fits = inr (record { hold = h1_row; hold_found = refl; owner = refl; unspent = λ o. refl })

record_usage-IsUsed_example : IsUsed after
record_usage-IsUsed_example =
    record_usage-IsUsed answers 9 (codes "r1") (answered h1) held (λ e. cc) h1_fits held-IsUsed
      record_runs
