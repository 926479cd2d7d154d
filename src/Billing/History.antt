-- ===== src/Billing/History.antt =====
-- A history of the operations of internal/repositories/billing on one database. Each is a
-- transaction, so the calls of concurrent servers and workers run in some order; each call has its
-- own time, ids and statements that the database fails to answer.
pub mod Books
pub mod Stays
use orbit_api.Common.{ℕ, Bool, List, [], ◌∷◌, some}
use orbit_api.Common.Int.{ℤ}
use orbit_api.Common.Str.{Str}
use orbit_api.Store.{Db}
use orbit_api.Store.Tx.{Link}
use orbit_api.Billing.Holds.{HoldPlanner, place_hold}
use orbit_api.Billing.Sweep.{release_hold, release_expired_holds, reclaim_expired_for_org}
use orbit_api.Billing.Ledger.{RecordParams, GrantParams, record_usage, grant_credits}

pub data Op : Type 0 where
  placing : ℕ → Str → Str → ℤ → ℤ → HoldPlanner → Op
  releasing : ℕ → Str → Op
  sweeping : ℕ → (Str → Bool) → Op
  reclaiming : ℕ → Str → Op
  recording : ℕ → Str → RecordParams → Op
  granting : ℕ → GrantParams → Op

unfoldable pub perform : Link → Op → Db → Db
perform link (placing now hold_id org threshold ttl plan) d =
    (place_hold link now hold_id org threshold ttl (some plan) d).1
perform link (releasing now hold_id) d = (release_hold link now hold_id d).1
perform link (sweeping now locked) d = (release_expired_holds link now locked d).1
perform link (reclaiming now org) d = (reclaim_expired_for_org link now org d).1
perform link (recording now request_id p) d = (record_usage link now request_id p d).1
perform link (granting now p) d = (grant_credits link now p d).1

unfoldable pub perform_all : List (Link × Op) → Db → Db
perform_all [] d = d
perform_all ((link, op) ∷ ops) d = perform_all ops (perform link op d)
