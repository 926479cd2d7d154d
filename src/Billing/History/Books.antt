-- ===== src/Billing/History/Books.antt =====
-- The books over a whole history: no order of calls and no failure of a statement can lose or
-- create credits.
use orbit_api.Common.{ℕ, ◌≡◌, inl, inr, Bool, List, [], ◌∷◌, arith, ◌+◌, Option-cases}
use orbit_api.Common.Str.{Str}
use orbit_api.Common.Table.{lookup}
use orbit_api.Common.Result.{ok, Result-cases}
use orbit_api.Store.{Db, org_key}
use orbit_api.Store.Tx.{Tx, Link, transact}
use orbit_api.Billing.Holds.{
  place_hold, place_hold_tx, settle_hold_tx, reclaim_expired_holds_tx,
  reclaim_expired_holds_tx_count,
}
use orbit_api.Billing.Holds.Placing.{Reclaims, reclaim-ok}
use orbit_api.Billing.Holds.Balance.{
  IsBalanced, settle_hold_tx-IsBalanced, reclaimed-IsBalanced, place_hold_tx-IsBalanced,
}
use orbit_api.Billing.Sweep.{
  release_hold, release_expired_holds, release_expired_tx, reclaim_each, expired_organizations,
  reclaim_expired_for_org, reclaim_for_org_tx,
}
use orbit_api.Billing.Ledger.{record_usage, record_tx, grant_credits, grant_on}
use orbit_api.Billing.Ledger.Balance.{record_tx-IsBalanced, grant_on-IsBalanced}
use orbit_api.Billing.Ledger.Books.{
  settle_hold_tx-IsGranted, reclaimed-IsGranted, place_hold_tx-IsGranted, record_tx-IsGranted,
  grant_on-IsGranted,
}
use orbit_api.Billing.Invariants.{IsGranted}
use orbit_api.Billing.History.{
  Op, placing, releasing, sweeping, reclaiming, recording, granting, perform,
}

-- Both equations of the accounts.
pub record IsBooked (d : Db) : Type 0 where
  pub balanced : IsBalanced d
  pub granted : IsGranted d

-- A transaction keeps what its statements keep, since it leaves the database when it fails.
pub transact_keeps :
    {A : Type 0} (P : Db → Type 0) (link : Link) (body : Tx A) (d : Db)
    → ((a : A) (d' : Db) → body d ≡ ok (a, d') → P d')
    → P d
    → P (transact link body d).1
transact_keeps P link body d keeps p = elim (Result-cases (body d)) [
  | inl ((a, d'), went) ↦ let q = keeps a d' went in ground arith
  | inr (x, failed) ↦ ground arith
]

reclaimed-IsBooked :
    {now : ℕ} {org : Str} {d : Db} {n : ℕ} {d' : Db}
    → Reclaims now org d n d'
    → IsBooked d
    → IsBooked d'
reclaimed-IsBooked done b = record {
  balanced = reclaimed-IsBalanced done b.balanced;
  granted = reclaimed-IsGranted done b.granted;
}

reclaim_each-IsBooked :
    (link : Link) (now n : ℕ) (orgs : List Str) (d : Db) {m : ℕ} {d' : Db}
    → reclaim_each link now n orgs d ≡ ok (m, d')
    → IsBooked d
    → IsBooked d'
unfolding reclaim_each
reclaim_each-IsBooked link now n [] d {m} {d'} e b = let same : d' ≡ d = ground arith in rw same b
reclaim_each-IsBooked link now n (org ∷ orgs) d {m} {d'} e b =
    elim (Result-cases (reclaim_expired_holds_tx_count link now org d)) [
      | inl ((k, d1), went) ↦
          let rest : reclaim_each link now (n + k) orgs d1 ≡ ok (m, d') = ground arith in
          reclaim_each-IsBooked link now (n + k) orgs d1 rest
            (reclaimed-IsBooked (reclaim-ok link now org d went) b)
      | inr (x, failed) ↦ ground arith
    ]

sweep-IsBooked :
    (link : Link) (now : ℕ) (locked : Str → Bool) (d : Db) {m : ℕ} {d' : Db}
    → release_expired_tx link now locked d ≡ ok (m, d')
    → IsBooked d
    → IsBooked d'
unfolding release_expired_tx
sweep-IsBooked link now locked d {m} {d'} e b =
    let orgs = expired_organizations locked now d.holds d.organizations in
    let went : reclaim_each link now 0 orgs d ≡ ok (m, d') = ground arith in
    reclaim_each-IsBooked link now 0 orgs d went b

pub reclaim_for_org_tx-ok :
    (link : Link) (now : ℕ) (org : Str) (d : Db) {x : Unit {0}} {d' : Db}
    → reclaim_for_org_tx link now org d ≡ ok (x, d')
    → (n : ℕ) × (reclaim_expired_holds_tx_count link now org d ≡ ok (n, d'))
unfolding reclaim_for_org_tx reclaim_expired_holds_tx
reclaim_for_org_tx-ok link now org d {x} {d'} e =
    elim (Option-cases (lookup org_key org d.organizations)) [
      | inl missing ↦ ground arith
      | inr (o, found) ↦ elim (Result-cases (reclaim_expired_holds_tx_count link now org d)) [
        | inl ((k, d1), went) ↦ (k, ground arith)
        | inr (y, failed) ↦ ground arith
      ]
    ]

reclaim_for_org-IsBooked :
    (link : Link) (now : ℕ) (org : Str) (d : Db) {x : Unit {0}} {d' : Db}
    → reclaim_for_org_tx link now org d ≡ ok (x, d')
    → IsBooked d
    → IsBooked d'
reclaim_for_org-IsBooked link now org d e b =
    let (n, went) = reclaim_for_org_tx-ok link now org d e in
    reclaimed-IsBooked (reclaim-ok link now org d went) b

pub perform-IsBooked : (link : Link) (op : Op) (d : Db) → IsBooked d → IsBooked (perform link op d)
unfolding perform place_hold release_hold release_expired_holds reclaim_expired_for_org record_usage
    grant_credits
perform-IsBooked link (placing now hold_id [] threshold ttl plan) d b = b
perform-IsBooked link (placing now hold_id (c ∷ cs) threshold ttl plan) d b =
    transact_keeps IsBooked link (place_hold_tx link now hold_id (c ∷ cs) threshold ttl plan) d
      (λ h d' e. record {
        balanced =
            place_hold_tx-IsBalanced link now hold_id (c ∷ cs) threshold ttl plan d e b.balanced;
        granted =
            place_hold_tx-IsGranted link now hold_id (c ∷ cs) threshold ttl plan d e b.granted;
      })
      b
perform-IsBooked link (releasing now []) d b = b
perform-IsBooked link (releasing now (c ∷ cs)) d b =
    transact_keeps IsBooked link (settle_hold_tx link now (c ∷ cs) _) d
      (λ s d' e. record {
        balanced = settle_hold_tx-IsBalanced link now (c ∷ cs) _ d e b.balanced;
        granted = settle_hold_tx-IsGranted link now (c ∷ cs) _ d e b.granted;
      })
      b
perform-IsBooked link (sweeping now locked) d b =
    transact_keeps IsBooked link (release_expired_tx link now locked) d
      (λ m d' e. sweep-IsBooked link now locked d e b) b
perform-IsBooked link (reclaiming now []) d b = b
perform-IsBooked link (reclaiming now (c ∷ cs)) d b =
    transact_keeps IsBooked link (reclaim_for_org_tx link now (c ∷ cs)) d
      (λ x d' e. reclaim_for_org-IsBooked link now (c ∷ cs) d e b) b
perform-IsBooked link (recording now request_id p) d b =
    transact_keeps IsBooked link (record_tx link now request_id p) d
      (λ s d' e. record {
        balanced = record_tx-IsBalanced link now request_id p d e b.balanced;
        granted = record_tx-IsGranted link now request_id p d e b.granted;
      })
      b
perform-IsBooked link (granting now p) d b =
    transact_keeps IsBooked link (grant_on link now p) d
      (λ x d' e. record {
        balanced = grant_on-IsBalanced link now p d e b.balanced;
        granted = grant_on-IsGranted link now p d e b.granted;
      })
      b
