-- ===== src/Billing/Ledger/Books.antt =====
-- The columns of an organization against the ledger, under the operations of
-- internal/repositories/billing: granted is the sum of the grants, used the sum of the usage.
use orbit_api.Common.{ℕ, ◌≡◌, refl, sym, ap, ◌∙◌, inl, inr, false, some}
use orbit_api.Common.Int.{ℤ, ◌+ℤ◌, int_laws}
use orbit_api.Common.Str.{Str, str_eq, str_eq_refl}
use orbit_api.Common.Table.{lookup, lookup_key}
use orbit_api.Common.Result.{ok}
use orbit_api.Store.{Organization, Db, org_key}
use orbit_api.Store.Tx.{Link}
use orbit_api.Billing.Holds.{Hold, HoldPlanner, SettleResult, settle_hold_tx, place_hold_tx}
use orbit_api.Billing.Holds.Steps.{with_credits, settle_hold_tx-ok}
use orbit_api.Billing.Holds.Placing.{Reclaims, place_hold_tx-ok}
use orbit_api.Billing.Sweep.{debit_usage_tx}
use orbit_api.Billing.Invariants.{Granted, IsGranted, recredit, entry_sum, entry_sum-append}
use orbit_api.Billing.Ledger.{
  RecordParams, GrantParams, usage, grant, usage_row, grant_row, usage_tx, record_tx, grant_on,
}
use orbit_api.Billing.Ledger.Steps.{
  request_tx-ok, usage_tx-ok, debit_usage_tx-ok, record_tx-ok, Charged, uncharged, debited, by_hold,
  swept, charge_tx-ok, grant_on-ok,
}

-- A write to the credits of one organization that leaves the ledger, and its granted column.
credits-IsGranted :
    (d d' : Db) (id : Str) (o : Organization) (u r : ℤ)
    → lookup org_key id d.organizations ≡ some o
    → d'.organizations ≡ (with_credits o o.credits_granted_micros u r d).organizations
    → d'.ledger ≡ d.ledger
    → IsGranted d
    → IsGranted d'
credits-IsGranted d d' id o u r found written same all =
    recredit (Granted d) (Granted d') d d' id o o.credits_granted_micros u r found written
      (lookup_key org_key id d.organizations found) all
      (all id o found ∙ ap (entry_sum grant id) (sym same))
      (λ j x ne p. p ∙ ap (entry_sum grant j) (sym same))

pub settle_hold_tx-IsGranted :
    (link : Link) (now : ℕ) (hold_id : Str) (actual : ℤ) (d : Db) {s : SettleResult} {d' : Db}
    → settle_hold_tx link now hold_id actual d ≡ ok (s, d')
    → IsGranted d
    → IsGranted d'
settle_hold_tx-IsGranted link now hold_id actual d {s} {d'} e all =
    elim (settle_hold_tx-ok link now hold_id actual d e) [
      | inr left ↦ rw left.unchanged all
      | inl done ↦
          credits-IsGranted d d' done.hold.organization_id done.org _ _ done.org_found
            (ap (λ (x : Db). x.organizations) done.written) (ap (λ (x : Db). x.ledger) done.written)
            all
    ]

pub reclaimed-IsGranted :
    {now : ℕ} {org : Str} {d : Db} {n : ℕ} {d' : Db}
    → Reclaims now org d n d'
    → IsGranted d
    → IsGranted d'
reclaimed-IsGranted {org} {d} {d'} done all =
    credits-IsGranted d d' org done.owner _ _ done.owner_found
      (ap (λ (x : Db). x.organizations) done.written) (ap (λ (x : Db). x.ledger) done.written) all

pub place_hold_tx-IsGranted :
    (link : Link) (now : ℕ) (hold_id org : Str) (threshold ttl : ℤ) (plan : HoldPlanner) (d : Db)
    {h : Hold} {d' : Db}
    → place_hold_tx link now hold_id org threshold ttl plan d ≡ ok (h, d')
    → IsGranted d
    → IsGranted d'
place_hold_tx-IsGranted link now hold_id org threshold ttl plan d {h} {d'} e all =
    let placed = place_hold_tx-ok link now hold_id org threshold ttl plan d e in
    let written = placed.sized.written in
    credits-IsGranted placed.reclaimed d' org placed.owner _ _ placed.owner_found
      (ap (λ (x : Db). x.organizations) written) (ap (λ (x : Db). x.ledger) written)
      (reclaimed-IsGranted placed.reclaims all)

debit_usage_tx-IsGranted :
    (link : Link) (org : Str) (amount : ℤ) (d : Db) {x : Unit {0}} {d' : Db}
    → debit_usage_tx link org amount d ≡ ok (x, d')
    → IsGranted d
    → IsGranted d'
debit_usage_tx-IsGranted link org amount d {x} {d'} e all =
    elim (debit_usage_tx-ok link org amount d e) [
      | inl (kept, why) ↦ rw kept all
      | inr (o, found, written) ↦
          credits-IsGranted d d' org o _ _ found (ap (λ (y : Db). y.organizations) written)
            (ap (λ (y : Db). y.ledger) written) all
    ]

Charged-IsGranted :
    {link : Link} {now : ℕ} {p : RecordParams} {n : ℕ} {d d' : Db}
    → Charged link now p n d d'
    → IsGranted d
    → IsGranted d'
Charged-IsGranted (uncharged h z kept) all = rw kept all
Charged-IsGranted {link} {p} {d} (debited h i debit) all =
    debit_usage_tx-IsGranted link p.organization_id p.amount_micros d debit all
Charged-IsGranted {link} {now} {p} {d} (by_hold r held done why) all =
    settle_hold_tx-IsGranted link now p.hold_id _ d done all
Charged-IsGranted {link} {now} {p} {d} (swept r d1 held done i a f debit) all =
    debit_usage_tx-IsGranted link r.organization_id _ d1 debit
      (settle_hold_tx-IsGranted link now p.hold_id _ d done all)

usage_is_no_grant : str_eq usage grant ≡ false
unfolding str_eq
usage_is_no_grant = refl

grant_is_no_usage : str_eq grant usage ≡ false
unfolding str_eq
grant_is_no_usage = refl

-- A new usage entry is no grant.
usage_tx-IsGranted :
    (link : Link) (now : ℕ) (request_id : Str) (p : RecordParams) (d : Db) {n : ℕ} {d' : Db}
    → usage_tx link now request_id p d ≡ ok (n, d')
    → IsGranted d
    → IsGranted d'
usage_tx-IsGranted link now request_id p d {n} {d'} e all =
    elim (usage_tx-ok link now request_id p d e) [
      | inl (z, kept, taken) ↦ rw kept all
      | inr (o, written, c, fresh, there) ↦ rw written (λ j x found. grind (
        int_laws,
        all j x found,
        entry_sum-append grant j (usage_row now request_id p) d.ledger,
        usage_is_no_grant,
      ))
    ]

pub record_tx-IsGranted :
    (link : Link) (now : ℕ) (request_id : Str) (p : RecordParams) (d : Db) {s : SettleResult}
    {d' : Db}
    → record_tx link now request_id p d ≡ ok (s, d')
    → IsGranted d
    → IsGranted d'
record_tx-IsGranted link now request_id p d {s} {d'} e all =
    let (request, d1, n, d2, requested, used, charge) = record_tx-ok link now request_id p d e in
    let kept = request_tx-ok link now request_id p d requested in
    let first : IsGranted d1 = λ j x found.
      all j x (ap (lookup org_key j) (sym kept.organizations_kept) ∙ found)
      ∙ ap (entry_sum grant j) (sym kept.ledger_kept) in
    Charged-IsGranted (charge_tx-ok link now p n d2 {s = s} charge)
      (usage_tx-IsGranted link now request p d1 used first)

-- A grant adds its entry to the ledger and its amount to the organization.
pub grant_on-IsGranted :
    (link : Link) (now : ℕ) (p : GrantParams) (d : Db) {x : Unit {0}} {d' : Db}
    → grant_on link now p d ≡ ok (x, d')
    → IsGranted d
    → IsGranted d'
grant_on-IsGranted link now p d {x} {d'} e all = elim (grant_on-ok link now p d e) [
  | inl (kept, taken) ↦ rw kept all
  | inr (o, found, fresh, positive, written) ↦
      let org = p.organization_id in
      recredit (Granted d) (Granted d') d d' org o (o.credits_granted_micros +ℤ p.amount_micros)
        o.credits_used_micros (o.credits_remaining_micros +ℤ p.amount_micros) found
        (ap (λ (y : Db). y.organizations) written) (lookup_key org_key org d.organizations found)
        all
        (rw written (
          grind (
            int_laws,
            all org o found,
            entry_sum-append grant org (grant_row now p) d.ledger,
            str_eq_refl grant,
            str_eq_refl org,
          )))
        (λ j y ne before.
          rw written
            (grind (int_laws, before, entry_sum-append grant j (grant_row now p) d.ledger)))
]
