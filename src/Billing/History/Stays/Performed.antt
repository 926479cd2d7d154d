-- ===== src/Billing/History/Stays/Performed.antt =====
-- Each call of internal/repositories/billing keeps what Stays says.
use orbit_api.Common.{
  ℕ, ◌≡◌, refl, ◌∙◌, inl, inr, Bool, List, [], ◌∷◌, ◌++◌, ◌+◌, arith, Option-cases,
}
use orbit_api.Common.Int.{ℤ}
use orbit_api.Common.Str.{Str}
use orbit_api.Common.Table.{lookup, lookup-append_found, has-append}
use orbit_api.Common.Result.{ok, Result-cases}
use orbit_api.Store.{CreditLedgerEntry, Db, entry_key, request_key}
use orbit_api.Store.Tx.{Link}
use orbit_api.Billing.Ledger.{
  grant_row, request_row, usage_row, RecordParams, GrantParams, request_tx, new_request,
  record_usage, record_tx, grant_credits, grant_on,
}
use orbit_api.Billing.Holds.{
  SettleResult, HoldPlanner, Hold, place_hold, place_hold_tx, settle_hold_tx,
  reclaim_expired_holds_tx_count,
}
use orbit_api.Billing.Holds.Steps.{settle_hold_tx-ok}
use orbit_api.Billing.Holds.Placing.{Reclaims, reclaim-ok, place_hold_tx-ok}
use orbit_api.Billing.Sweep.{
  release_hold, release_expired_holds, release_expired_tx, reclaim_each, expired_organizations,
  reclaim_expired_for_org, reclaim_for_org_tx, debit_usage_tx,
}
use orbit_api.Billing.Ledger.Steps.{
  usage_tx-ok, debit_usage_tx-ok, record_tx-ok, Charged, uncharged, debited, by_hold, swept,
  charge_tx-ok, grant_on-ok, with_entry,
}
use orbit_api.Billing.History.{
  Op, placing, releasing, sweeping, reclaiming, recording, granting, perform,
}
use orbit_api.Billing.History.Books.{transact_keeps, reclaim_for_org_tx-ok}
use orbit_api.Billing.History.Stays.{
  Stays, Stays-refl, Stays-trans, HoldsStay-append, HoldsStay-refl, HoldsStay-close,
  HoldsStay-settle_expired, same_but_holds, same-Stays,
}

settle-Stays :
    (link : Link) (now : ℕ) (hold_id : Str) (actual : ℤ) (d : Db) {s : SettleResult} {d' : Db}
    → settle_hold_tx link now hold_id actual d ≡ ok (s, d')
    → Stays d d'
settle-Stays link now hold_id actual d e = elim (settle_hold_tx-ok link now hold_id actual d e) [
  | inl done ↦
      rw done.written (same_but_holds refl refl refl (HoldsStay-close now done.hold.id d.holds))
  | inr left ↦ same-Stays left.unchanged
]

debit-Stays :
    (link : Link) (org : Str) (amount : ℤ) (d : Db) {x : Unit {0}} {d' : Db}
    → debit_usage_tx link org amount d ≡ ok (x, d')
    → Stays d d'
debit-Stays link org amount d e = elim (debit_usage_tx-ok link org amount d e) [
  | inl (kept, why) ↦ same-Stays kept
  | inr (o, found, written) ↦ rw written (same_but_holds refl refl refl (HoldsStay-refl d.holds))
]

Charged-Stays :
    {link : Link} {now : ℕ} {p : RecordParams} {n : ℕ} {d d' : Db}
    → Charged link now p n d d'
    → Stays d d'
Charged-Stays (uncharged h z kept) = same-Stays kept
Charged-Stays {link} {p} {d} (debited h i debit) =
    debit-Stays link p.organization_id p.amount_micros d debit
Charged-Stays {link} {now} {p} {d} (by_hold r held done why) =
    settle-Stays link now p.hold_id _ d done
Charged-Stays {link} {now} {p} {d} (swept r d1 held done i a f debit) =
    Stays-trans (settle-Stays link now p.hold_id _ d done)
      (debit-Stays link r.organization_id _ d1 debit)

request-Stays :
    (link : Link) (now : ℕ) (request_id : Str) (p : RecordParams) (d : Db) {r : Str} {d' : Db}
    → request_tx link now request_id p d ≡ ok (r, d')
    → Stays d d'
unfolding request_tx new_request
request-Stays link now request_id p d {r} {d'} e =
    elim (Option-cases (lookup request_key p.idempotency_key d.requests)) [
      | inl missing ↦
          let new : d' ≡ record d { requests = d.requests ++ request_row now request_id p ∷ [] } =
            ground arith in
          rw new (record {
            requests_stay = λ k x found. lookup-append_found request_key k _ d.requests found;
            entries_stay = λ k there. there;
            holds_stay = HoldsStay-refl d.holds;
            prices_same = refl;
          })
      | inr (q, old) ↦ same-Stays (ground arith)
    ]

entry-Stays : (x : CreditLedgerEntry) (d : Db) → Stays d (with_entry x d)
entry-Stays x d = record {
  requests_stay = λ k r found. found;
  entries_stay = λ k there. has-append entry_key k x d.ledger ∙ rw there refl;
  holds_stay = HoldsStay-refl d.holds;
  prices_same = refl;
}

pub record_tx-Stays :
    (link : Link) (now : ℕ) (request_id : Str) (p : RecordParams) (d : Db) {s : SettleResult}
    {d' : Db}
    → record_tx link now request_id p d ≡ ok (s, d')
    → Stays d d'
record_tx-Stays link now request_id p d {s} {d'} e =
    let (request, d1, n, d2, requested, used, charge) = record_tx-ok link now request_id p d e in
    let one = request-Stays link now request_id p d requested in
    let two : Stays d1 d2 = elim (usage_tx-ok link now request p d1 used) [
      | inl (z, kept, taken) ↦ same-Stays kept
      | inr (i, written, c, fresh, there) ↦ rw written (entry-Stays (usage_row now request p) d1)
    ] in
    Stays-trans one (Stays-trans two (Charged-Stays (charge_tx-ok link now p n d2 {s = s} charge)))

Reclaims-Stays :
    {now : ℕ} {org : Str} {d : Db} {n : ℕ} {d' : Db} → Reclaims now org d n d' → Stays d d'
Reclaims-Stays {now} {org} {d} done =
    rw done.written (same_but_holds refl refl refl (HoldsStay-settle_expired now org d.holds))

reclaim_each-Stays :
    (link : Link) (now n : ℕ) (orgs : List Str) (d : Db) {m : ℕ} {d' : Db}
    → reclaim_each link now n orgs d ≡ ok (m, d')
    → Stays d d'
unfolding reclaim_each
reclaim_each-Stays link now n [] d e = same-Stays (ground arith)
reclaim_each-Stays link now n (org ∷ orgs) d {m} {d'} e =
    elim (Result-cases (reclaim_expired_holds_tx_count link now org d)) [
      | inl ((k, d1), went) ↦
          let rest : reclaim_each link now (n + k) orgs d1 ≡ ok (m, d') = ground arith in
          Stays-trans (Reclaims-Stays (reclaim-ok link now org d went))
            (reclaim_each-Stays link now (n + k) orgs d1 rest)
      | inr (x, failed) ↦ ground arith
    ]

sweep-Stays :
    (link : Link) (now : ℕ) (locked : Str → Bool) (d : Db) {m : ℕ} {d' : Db}
    → release_expired_tx link now locked d ≡ ok (m, d')
    → Stays d d'
unfolding release_expired_tx
sweep-Stays link now locked d {m} {d'} e =
    let orgs = expired_organizations locked now d.holds d.organizations in
    let went : reclaim_each link now 0 orgs d ≡ ok (m, d') = ground arith in
    reclaim_each-Stays link now 0 orgs d went

reclaim_for_org-Stays :
    (link : Link) (now : ℕ) (org : Str) (d : Db) {x : Unit {0}} {d' : Db}
    → reclaim_for_org_tx link now org d ≡ ok (x, d')
    → Stays d d'
reclaim_for_org-Stays link now org d {x} {d'} e =
    let (k, went) = reclaim_for_org_tx-ok link now org d e in
    Reclaims-Stays (reclaim-ok link now org d went)

place-Stays :
    (link : Link) (now : ℕ) (hold_id org : Str) (threshold ttl : ℤ) (plan : HoldPlanner) (d : Db)
    {h : Hold} {d' : Db}
    → place_hold_tx link now hold_id org threshold ttl plan d ≡ ok (h, d')
    → Stays d d'
place-Stays link now hold_id org threshold ttl plan d e =
    let placed = place_hold_tx-ok link now hold_id org threshold ttl plan d e in
    Stays-trans (Reclaims-Stays placed.reclaims) (
      rw placed.sized.written
        (same_but_holds refl refl refl (HoldsStay-append _ placed.reclaimed.holds)))

grant-Stays :
    (link : Link) (now : ℕ) (p : GrantParams) (d : Db) {x : Unit {0}} {d' : Db}
    → grant_on link now p d ≡ ok (x, d')
    → Stays d d'
grant-Stays link now p d e = elim (grant_on-ok link now p d e) [
  | inl (kept, taken) ↦ same-Stays kept
  | inr (o, found, fresh, positive, written) ↦ rw written (
      Stays-trans (entry-Stays (grant_row now p) d)
        (same_but_holds refl refl refl (HoldsStay-refl d.holds)))
]

pub record_usage-Stays :
    (link : Link) (now : ℕ) (request_id : Str) (p : RecordParams) (d : Db)
    → Stays d (record_usage link now request_id p d).1
unfolding record_usage
record_usage-Stays link now request_id p d =
    transact_keeps (Stays d) link (record_tx link now request_id p) d
      (λ s d' e. record_tx-Stays link now request_id p d e) (Stays-refl d)

-- Whatever a call of the repository does, the database that it leaves has kept these.
pub perform-Stays : (link : Link) (op : Op) (d : Db) → Stays d (perform link op d)
unfolding perform place_hold release_hold release_expired_holds reclaim_expired_for_org
    grant_credits
perform-Stays link (placing now hold_id [] threshold ttl plan) d = Stays-refl d
perform-Stays link (placing now hold_id (c ∷ cs) threshold ttl plan) d =
    transact_keeps (Stays d) link (place_hold_tx link now hold_id (c ∷ cs) threshold ttl plan) d
      (λ h d' e. place-Stays link now hold_id (c ∷ cs) threshold ttl plan d e) (Stays-refl d)
perform-Stays link (releasing now []) d = Stays-refl d
perform-Stays link (releasing now (c ∷ cs)) d =
    transact_keeps (Stays d) link (settle_hold_tx link now (c ∷ cs) _) d
      (λ s d' e. settle-Stays link now (c ∷ cs) _ d e) (Stays-refl d)
perform-Stays link (sweeping now locked) d =
    transact_keeps (Stays d) link (release_expired_tx link now locked) d
      (λ m d' e. sweep-Stays link now locked d e) (Stays-refl d)
perform-Stays link (reclaiming now []) d = Stays-refl d
perform-Stays link (reclaiming now (c ∷ cs)) d =
    transact_keeps (Stays d) link (reclaim_for_org_tx link now (c ∷ cs)) d
      (λ x d' e. reclaim_for_org-Stays link now (c ∷ cs) d e) (Stays-refl d)
perform-Stays link (recording now request_id p) d = record_usage-Stays link now request_id p d
perform-Stays link (granting now p) d =
    transact_keeps (Stays d) link (grant_on link now p) d (λ x d' e. grant-Stays link now p d e)
      (Stays-refl d)
