-- ===== src/Webhook/Delivery/Books.antt =====
-- The books over a history of calls and deliveries.
use orbit_api.Common.{◌≡◌, ◌∙◌, some, List, [], ◌∷◌}
use orbit_api.Common.Int.{◌+ℤ◌}
use orbit_api.Common.Str.{Str}
use orbit_api.Common.Table.{lookup}
use orbit_api.Store.{Organization, org_key}
use orbit_api.Billing.Holds.Sums.{open_sum}
use orbit_api.Billing.Ledger.{grant}
use orbit_api.Billing.Invariants.{entry_sum}
use orbit_api.Billing.History.Books.{IsBooked, perform-IsBooked}
use orbit_api.Webhook.Act.{World}
use orbit_api.Webhook.Handlers.Books.{handle_event-IsBooked}
use orbit_api.Webhook.Delivery.{Step, billing, delivered, step, step_all}

step-IsBooked : (s : Step) (w : World) → IsBooked w.db → IsBooked (step s w).db
unfolding step
step-IsBooked (billing link op) w b = perform-IsBooked link op w.db b
step-IsBooked (delivered env v) w b = (handle_event-IsBooked env v).kept w b

step_all-IsBooked : (ss : List Step) (w : World) → IsBooked w.db → IsBooked (step_all ss w).db
unfolding step_all
step_all-IsBooked [] w b = b
step_all-IsBooked (s ∷ ss) w b = step_all-IsBooked ss (step s w) (step-IsBooked s w b)

-- Over every history of billing calls and payment events, delivered in any order, any number of
-- times, whether they go through or fail half-way, that starts with accounts that add up: what
-- remains of an organization's credits, what open holds have frozen and what was used are together
-- the sum of the ledger's grants to it.
pub step_all_conserves :
    (ss : List Step) (w : World)
    → IsBooked w.db
    → (id : Str) (o : Organization) → lookup org_key id (step_all ss w).db.organizations ≡ some o
    → o.credits_remaining_micros +ℤ open_sum id (step_all ss w).db.holds +ℤ o.credits_used_micros
      ≡ entry_sum grant id (step_all ss w).db.ledger
step_all_conserves ss w b id o found =
    let after = step_all-IsBooked ss w b in after.balanced id o found ∙ after.granted id o found
