-- ===== src/Billing/Ledger/Lockstep.antt =====
-- Record of internal/repositories/billing/repository.go leaves the used column in step with the
-- ledger, however the request is charged.
use orbit_api.Common.{
  ℕ, ◌≡◌, ◌≢◌, refl, sym, ap, ◌∙◌, ◌⊎◌, inl, inr, true, false, none, some, [], arith,
}
use orbit_api.Common.Int.{ℤ, pos, ◌≤ℤ◌}
use orbit_api.Common.Str.{Str, is_empty}
use orbit_api.Common.Table.{lookup, has}
use orbit_api.Common.Result.{ok}
use orbit_api.Store.{CreditHold, Db, org_key, hold_key}
use orbit_api.Store.Tx.{Link, transact-eq-ok}
use orbit_api.Billing.Holds.{SettleResult}
use orbit_api.Billing.Holds.Steps.{Settles, Leaves, settle_hold_tx-ok}
use orbit_api.Billing.Invariants.{IsUsed, entry_sum}
use orbit_api.Billing.Ledger.{RecordParams, usage, usage_row, record_tx, record_usage, actual_of}
use orbit_api.Billing.Ledger.Steps.{
  request_tx-ok, usage_tx-ok, with_entry, costs, record_tx-ok, Charged, uncharged, debited, by_hold,
  swept, charge_tx-ok,
}
use orbit_api.Billing.Ledger.Spending.{
  Fitting, spend_costly, spends_entry, written_as, debits_entry, no_new_usage,
}

-- The request has no hold, or one of its organization.
abbrev Owned : RecordParams → Db → Type 0
Owned p d =
    (p.hold_id ≡ [])
    ⊎ ((w : CreditHold) × (lookup hold_key p.hold_id d.holds ≡ some w)
        × (w.organization_id ≡ p.organization_id))

owned : (p : RecordParams) (d d' : Db) → d'.holds ≡ d.holds → Fitting p d → Owned p d'
owned p d d' same (inl blank) = inl blank
owned p d d' same (inr f) = inr (f.hold, rw same f.hold_found, f.owner)

carry :
    (p : RecordParams) (d d' : Db)
    → d'.holds ≡ d.holds
    → d'.ledger ≡ d.ledger
    → Fitting p d
    → Fitting p d'
carry p d d' holds ledger (inl blank) = inl blank
carry p d d' holds ledger (inr f) = inr (record {
  hold = f.hold;
  hold_found = rw holds f.hold_found;
  owner = f.owner;
  unspent = λ o. rw ledger (f.unspent o);
})

-- The owner of the hold that a settlement met is the request's organization.
owner_of :
    (p : RecordParams) (d : Db) {h : CreditHold}
    → Owned p d
    → is_empty p.hold_id ≡ false
    → lookup hold_key p.hold_id d.holds ≡ some h
    → h.organization_id ≡ p.organization_id
owner_of p d (inl blank) held found = absurd (ground (arith, blank))
owner_of p d {h} (inr (w, there, owner)) held found =
    let same : h ≡ w = cc (found, there) in ap (λ (x : CreditHold). x.organization_id) same ∙ owner

never_missing :
    (p : RecordParams) (d : Db)
    → Owned p d
    → is_empty p.hold_id ≡ false
    → lookup hold_key p.hold_id d.holds ≡ none
    → ⊥
never_missing p d (inl blank) held missing = ground (arith, blank)
never_missing p d (inr (w, there, owner)) held missing = cc (there, missing)

-- A hold that fits is found, and a settlement that leaves it reports its owner.
left_owner :
    (p : RecordParams) (d : Db) {r : SettleResult} {d' : Db}
    → Leaves p.hold_id d r d'
    → Owned p d
    → is_empty p.hold_id ≡ false
    → (r.found ≡ true) × (r.organization_id ≡ p.organization_id)
left_owner p d left fits held = elim left.missing_or_settled [
  | inl blank ↦ absurd (ground (arith, blank))
  | inr (inl (missing, nothing)) ↦ absurd (never_missing p d fits held missing)
  | inr (inr (h, found, shut, there, org)) ↦ (there, org ∙ owner_of p d fits held found)
]

-- Where usage was entered and cost something, a hold that is left alone is debited for.
left_unpaid :
    (p : RecordParams) (n : ℕ) (d : Db) {r : SettleResult} {d' : Db}
    → Leaves p.hold_id d r d'
    → Owned p d
    → is_empty p.hold_id ≡ false
    → n ≡ 1
    → costs p ≡ true
    → (n ≡ 0) ⊎ (r.applied ≡ true) ⊎ (r.found ≡ false) ⊎ (actual_of p ≤ℤ pos 0)
    → ⊥
left_unpaid p n d left fits held one costly (inl nothing) = omega arith
left_unpaid p n d left fits held one costly (inr (inl applied)) =
    let h = left.not_applied in cc (h, applied)
left_unpaid p n d left fits held one costly (inr (inr (inl missing))) =
    let h = (left_owner p d left fits held).0 in cc (h, missing)
left_unpaid p n d left fits held one costly (inr (inr (inr free))) = ground arith

applied_once :
    {now : ℕ} {hold_id : Str} {actual : ℤ} {d : Db} {r : SettleResult} {d' : Db}
    → Settles now hold_id actual d r d'
    → r.applied ≡ false
    → ⊥
applied_once done a = let h = ap (λ (x : SettleResult). x.applied) done.answer in cc (h, a)

module _ (link : Link) (now : ℕ) (request_id : Str) (p : RecordParams) (d d2 : Db) where
  new_usage :
      {n : ℕ} {d' : Db}
      → Charged link now p n d2 d'
      → n ≡ 1
      → d2 ≡ with_entry (usage_row now request_id p) d
      → has org_key p.organization_id d.organizations ≡ true
      → p.organization_id ≢ []
      → costs p ≡ true
      → Owned p d2
      → IsUsed d
      → IsUsed d'
  new_usage (uncharged h z kept) one entered there named costly fits all = absurd (omega arith)
  new_usage (debited h i debit) one entered there named costly fits all =
      debits_entry link now request_id p.organization_id p.amount_micros p d d2 entered there named
        refl refl costly debit all
  new_usage {d' = d'} (by_hold r held settled_hold why) one entered there named costly fits all =
      elim (settle_hold_tx-ok link now p.hold_id (actual_of p) d2 settled_hold) [
        | inr left ↦ absurd (left_unpaid p _ d2 left fits held one costly why)
        | inl done ↦
            let spent = (spend_costly p costly).0 in
            let owner = owner_of p d2 fits held done.hold_found in
            spends_entry now request_id p d d2 d' done.org _ _ entered
              (ap (λ (i : Str). lookup org_key i d2.organizations) (sym owner) ∙ done.org_found)
              (written_as done spent) (ap (λ (x : Db). x.ledger) done.written) all
      ]
  new_usage {d' = d'} (swept r d1 held settled_hold i a f debit) one entered there named costly fits
        all =
      elim (settle_hold_tx-ok link now p.hold_id (actual_of p) d2 settled_hold) [
        | inl done ↦ absurd (applied_once done a)
        | inr left ↦
            let same : d1 ≡ with_entry (usage_row now request_id p) d = left.unchanged ∙ entered in
            debits_entry link now request_id r.organization_id (actual_of p) p d d1 same there named
              (left_owner p d2 left fits held).1 (spend_costly p costly).1 costly debit all
      ]

-- Record keeps used equal to the usage in the ledger, if the request's organization has a name and
-- its hold, where it has one, is that organization's and is open only as long as the request's
-- usage is not in the ledger.
pub record_usage-IsUsed :
    (link : Link) (now : ℕ) (request_id : Str) (p : RecordParams) (d : Db) {s : SettleResult}
    {d' : Db}
    → p.organization_id ≢ []
    → Fitting p d
    → IsUsed d
    → record_usage link now request_id p d ≡ (ok s, d')
    → IsUsed d'
unfolding record_usage
record_usage-IsUsed link now request_id p d {s} {d'} named fits all e =
    let went = transact-eq-ok link (record_tx link now request_id p) d e in
    let (request, d1, n, d2, requested, used, charge) = record_tx-ok link now request_id p d went in
    let kept = request_tx-ok link now request_id p d requested in
    let charged = charge_tx-ok link now p n d2 {s = s} charge in
    let fits1 : Fitting p d1 = carry p d d1 kept.holds_kept kept.ledger_kept fits in
    let all1 : IsUsed d1 = λ j x found.
      all j x (ap (lookup org_key j) (sym kept.organizations_kept) ∙ found)
      ∙ ap (entry_sum usage j) (sym kept.ledger_kept) in
    elim (usage_tx-ok link now request p d1 used) [
      | inl (zero_rows, same, taken) ↦
          no_new_usage charged zero_rows (rw same taken) (rw same fits1) (rw same all1)
      | inr (one, entered, costly, fresh, there) ↦
          new_usage link now request p d1 d2 charged one entered there named costly
            (owned p d1 d2 (ap (λ (x : Db). x.holds) entered) fits1) all1
    ]
