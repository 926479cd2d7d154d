-- ===== src/Webhook/Delivery.antt =====
-- What happens to the accounts: the calls of the billing repository, and the deliveries of events to
-- HandleEvent of internal/services/webhook/dodo.go, in any order, each with its own answers of the
-- database and of the payment provider.
pub mod Books
use orbit_api.Common.{List, [], ◌∷◌}
use orbit_api.Store.Tx.{Link}
use orbit_api.Billing.History.{Op, perform}
use orbit_api.Webhook.Act.{Env, World}
use orbit_api.Webhook.Handlers.{DodoEvent, handle_event}

pub data Step : Type 0 where
  billing : Link → Op → Step
  delivered : Env → DodoEvent → Step

-- A delivery that fails may have written before it did.
unfoldable pub step : Step → World → World
step (billing link op) w = record w { db = perform link op w.db }
step (delivered env v) w = (handle_event env v w).1

unfoldable pub step_all : List Step → World → World
step_all [] w = w
step_all (s ∷ ss) w = step_all ss (step s w)
