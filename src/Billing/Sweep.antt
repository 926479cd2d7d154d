-- ===== src/Billing/Sweep.antt =====
-- internal/repositories/billing/hold.go: releasing holds, one by one and when they have expired.
use orbit_api.Common.{
  ℕ, ◌+◌, Bool, true, false, none, some, List, [], ◌∷◌, ◌&&◌, ◌||◌, not, if◌then◌else◌,
}
use orbit_api.Common.Int.{ℤ, pos, ◌+ℤ◌, ◌-ℤ◌, leb_ℤ}
use orbit_api.Common.Str.{Str, is_empty}
use orbit_api.Common.Table.{lookup}
use orbit_api.Common.Result.{Result, ok, err}
use orbit_api.Store.{Organization, CreditHold, Db, org_key}
use orbit_api.Store.Tx.{
  Tx, Link, Error, insufficient_credits, select_expired, lock_organization, read_remaining,
  debit_usage, not_answered, ◌>>=◌, ◌>>◌, pure, ask, gets, row, transact,
}
use orbit_api.Billing.Holds.{
  SettleResult, no_settlement, settle_hold_tx, is_expired, reclaim_expired_holds_tx,
  reclaim_expired_holds_tx_count, write_credits,
}

unfoldable pub release_hold : Link → ℕ → Str → Db → Result Error SettleResult × Db
release_hold link now hold_id d =
    if is_empty hold_id
    then (ok no_settlement, d)
    else transact link (settle_hold_tx link now hold_id (pos 0)) d

-- EXISTS (an expired hold of the organization)
unfoldable pub any_expired : Str → ℕ → List CreditHold → Bool
any_expired org now [] = false
any_expired org now (h ∷ hs) = is_expired org now h || any_expired org now hs

-- The organizations with an expired hold, but for those that another transaction has locked.
unfoldable pub expired_organizations :
    (Str → Bool) → ℕ → List CreditHold → List Organization → List Str
expired_organizations locked now hs [] = []
expired_organizations locked now hs (o ∷ os) =
    let rest = expired_organizations locked now hs os in
    if any_expired o.id now hs && not (locked o.id) then o.id ∷ rest else rest

-- The loop over these organizations, which adds up the holds that it releases.
unfoldable pub reclaim_each : Link → ℕ → ℕ → List Str → Tx ℕ
reclaim_each link now released [] = pure released
reclaim_each link now released (org ∷ orgs) = do
  n ← reclaim_expired_holds_tx_count link now org
  reclaim_each link now (released + n) orgs

unfoldable pub release_expired_tx : Link → ℕ → (Str → Bool) → Tx ℕ
release_expired_tx link now locked = do
  ask link select_expired
  orgs ← gets (λ d. expired_organizations locked now d.holds d.organizations)
  reclaim_each link now 0 orgs

unfoldable pub release_expired_holds : Link → ℕ → (Str → Bool) → Db → Result Error ℕ × Db
release_expired_holds link now locked d = transact link (release_expired_tx link now locked) d

unfoldable pub reclaim_for_org_tx : Link → ℕ → Str → Tx (Unit {0})
reclaim_for_org_tx link now org = do
  ask link lock_organization
  o ← λ d. row (lookup org_key org d.organizations) insufficient_credits d
  reclaim_expired_holds_tx link now org

unfoldable pub reclaim_expired_for_org : Link → ℕ → Str → Db → Result Error (Unit {0}) × Db
reclaim_expired_for_org link now org d =
    if is_empty org then (ok tt, d) else transact link (reclaim_for_org_tx link now org) d

-- What remains, and whether the organization is there.
unfoldable pub remaining : Link → Str → Db → Result Error (ℤ × Bool)
remaining link org d =
    if link read_remaining
    then err (not_answered read_remaining)
    else elim (lookup org_key org d.organizations) [
      | none ↦ ok (pos 0, false)
      | some o ↦ ok (o.credits_remaining_micros, true)
    ]

-- used += amount, remaining -= amount, of an organization that may be missing.
unfoldable pub debit_usage_tx : Link → Str → ℤ → Tx (Unit {0})
debit_usage_tx link org amount = if is_empty org || leb_ℤ amount (pos 0) then pure tt else do
  ask link debit_usage
  found ← gets (λ d. lookup org_key org d.organizations)
  elim found [
    | none ↦ pure tt
    | some o ↦
        write_credits o o.credits_granted_micros (o.credits_used_micros +ℤ amount)
          (o.credits_remaining_micros -ℤ amount)
  ]
