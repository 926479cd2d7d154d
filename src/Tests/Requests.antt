-- ===== src/Tests/Requests.antt =====
-- Whole requests on a database with one organization, and a history of several calls.
use orbit_api.Common.{◌≡◌, refl, false, some, [], ◌∷◌, List}
use orbit_api.Common.Int.{pos, ◌≤ℤ◌, ◌+ℤ◌, ◌-ℤ◌}
use orbit_api.Common.Str.{codes}
use orbit_api.Common.Table.{lookup}
use orbit_api.Common.Result.{ok}
use orbit_api.Store.{Organization, org_key}
use orbit_api.Store.Tx.{Link}
use orbit_api.Billing.Holds.{Hold, place_hold}
use orbit_api.Billing.Holds.Steps.{spend}
use orbit_api.Billing.Ledger.{actual_of}
use orbit_api.Billing.Processor.Effect.{place_hold-covered}
use orbit_api.Billing.Processor.Request.{place_then_record}
use orbit_api.Billing.History.{Op, placing, recording, sweeping, perform_all, perform}
use orbit_api.Tests.Data.{runs, answers, acme, acme_row, wallet, answered}
use orbit_api.Tests.Records.{h1, half, held, after, record_runs}

abbrev first_hold : Hold
first_hold = record {
  id = h1;
  amount_micros = pos 41360;
  max_tokens = pos 4096;
  organization_id = acme;
  remaining_before_micros = pos 1000000;
  remaining_after_micros = pos 958640;
}

hold_runs :
    place_hold answers 5 h1 acme (pos 10000) (pos 60000000000) (some half) wallet
    ≡ (ok first_hold, held)
unfolding runs
hold_runs = refl

abbrev held_row : Organization
held_row = record acme_row { credits_remaining_micros = pos 958640 }

held_found : lookup org_key acme held.organizations ≡ some held_row
unfolding runs
held_found = refl

place_hold-covered_example :
    (o : Organization) × (lookup org_key acme held.organizations ≡ some o)
    × (pos 10000 ≤ℤ pos 1000000)
    × (pos 1 ≤ℤ pos 41360)
    × (pos 0 ≤ℤ o.credits_remaining_micros)
    × (o.credits_remaining_micros ≡ pos 1000000 -ℤ pos 41360)
    × (pos 958640 ≡ o.credits_remaining_micros)
place_hold-covered_example =
    place_hold-covered answers 5 h1 acme (pos 10000) (pos 60000000000) half wallet hold_runs

place_then_record_example :
    (o' : Organization) × (lookup org_key acme after.organizations ≡ some o')
    × (o'.credits_remaining_micros ≡ pos 1000000 -ℤ spend (actual_of (answered h1)))
    × (o'.credits_used_micros ≡ pos 0 +ℤ spend (actual_of (answered h1)))
place_then_record_example =
    place_then_record answers answers 5 9 h1 acme (codes "r1") (pos 10000) (pos 60000000000) half
      (answered h1) wallet held_row hold_runs held_found refl (λ e. cc) record_runs

-- Two holds, of which one is recorded and the other is swept.
abbrev busy_day : List (Link × Op)
busy_day =
    (answers, placing 5 h1 acme (pos 10000) (pos 60000000000) half)
    ∷ (answers, placing 6 (codes "h2") acme (pos 10000) (pos 60000000000) half)
    ∷ (answers, recording 9 (codes "r1") (answered h1))
    ∷ (answers, sweeping 90000000 (λ org. false))
    ∷ []

abbrev evening_row : Organization
evening_row = record acme_row {
  credits_used_micros = pos 1400;
  credits_remaining_micros = pos 998600;
}

evening_found : lookup org_key acme (perform_all busy_day wallet).organizations ≡ some evening_row
unfolding runs perform_all perform
evening_found = refl
