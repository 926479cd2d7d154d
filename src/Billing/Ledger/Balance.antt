-- ===== src/Billing/Ledger/Balance.antt =====
-- The books under the operations of internal/repositories/billing/repository.go: what remains, what
-- is frozen and what was used are together what was granted.
use orbit_api.Common.{ℕ, ◌≡◌, refl, inl, inr, some}
use orbit_api.Common.Int.{ℤ, ◌+ℤ◌, ◌-ℤ◌, int_laws}
use orbit_api.Common.Str.{Str}
use orbit_api.Common.Table.{lookup}
use orbit_api.Common.Result.{ok}
use orbit_api.Store.{Db, org_key}
use orbit_api.Store.Tx.{Link}
use orbit_api.Billing.Holds.{SettleResult}
use orbit_api.Billing.Holds.Balance.{IsBalanced, rebalance, settle_hold_tx-IsBalanced}
use orbit_api.Billing.Sweep.{debit_usage_tx}
use orbit_api.Billing.Ledger.{RecordParams, GrantParams, usage_tx, record_tx, grant_on}
use orbit_api.Billing.Ledger.Steps.{
  request_tx-ok, usage_tx-ok, debit_usage_tx-ok, record_tx-ok, Charged, uncharged, debited, by_hold,
  swept, charge_tx-ok, grant_on-ok,
}

-- Only the organizations and the holds matter to the balance.
pub keep-IsBalanced :
    (d d' : Db)
    → d'.organizations ≡ d.organizations
    → d'.holds ≡ d.holds
    → IsBalanced d
    → IsBalanced d'
keep-IsBalanced d d' orgs holds balanced id o found =
    let before : lookup org_key id d.organizations ≡ some o = cc in rw holds (balanced id o before)

pub debit_usage_tx-IsBalanced :
    (link : Link) (org : Str) (amount : ℤ) (d : Db) {x : Unit {0}} {d' : Db}
    → debit_usage_tx link org amount d ≡ ok (x, d')
    → IsBalanced d
    → IsBalanced d'
debit_usage_tx-IsBalanced link org amount d e balanced =
    elim (debit_usage_tx-ok link org amount d e) [
      | inl (kept, why) ↦ rw kept balanced
      | inr (o, found, written) ↦ rw written (
          rebalance d org o o.credits_granted_micros (o.credits_used_micros +ℤ amount)
            (o.credits_remaining_micros -ℤ amount) d.holds balanced found
            (grind (int_laws, balanced org o found)) (λ j ne. refl))
    ]

Charged-IsBalanced :
    {link : Link} {now : ℕ} {p : RecordParams} {n : ℕ} {d d' : Db}
    → Charged link now p n d d'
    → IsBalanced d
    → IsBalanced d'
Charged-IsBalanced {d} (uncharged h z kept) balanced = rw kept balanced
Charged-IsBalanced {link} {p} {d} (debited h i debit) balanced =
    debit_usage_tx-IsBalanced link p.organization_id p.amount_micros d debit balanced
Charged-IsBalanced {link} {now} {p} {d} (by_hold r held done why) balanced =
    settle_hold_tx-IsBalanced link now p.hold_id _ d done balanced
Charged-IsBalanced {link} {now} {p} {d} (swept r d1 held done i a f debit) balanced =
    debit_usage_tx-IsBalanced link r.organization_id _ d1 debit
      (settle_hold_tx-IsBalanced link now p.hold_id _ d done balanced)

usage_tx-IsBalanced :
    (link : Link) (now : ℕ) (request_id : Str) (p : RecordParams) (d : Db) {n : ℕ} {d' : Db}
    → usage_tx link now request_id p d ≡ ok (n, d')
    → IsBalanced d
    → IsBalanced d'
usage_tx-IsBalanced link now request_id p d e balanced =
    elim (usage_tx-ok link now request_id p d e) [
      | inl (z, kept, taken) ↦ rw kept balanced
      | inr (o, written, c, f, there) ↦ rw written balanced
    ]

pub record_tx-IsBalanced :
    (link : Link) (now : ℕ) (request_id : Str) (p : RecordParams) (d : Db) {s : SettleResult}
    {d' : Db}
    → record_tx link now request_id p d ≡ ok (s, d')
    → IsBalanced d
    → IsBalanced d'
record_tx-IsBalanced link now request_id p d {s} {d'} e balanced =
    let (request, d1, n, d2, requested, used, charged) = record_tx-ok link now request_id p d e in
    let kept = request_tx-ok link now request_id p d requested in
    Charged-IsBalanced (charge_tx-ok link now p n d2 {s = s} charged) (
      usage_tx-IsBalanced link now request p d1 used
        (keep-IsBalanced d d1 kept.organizations_kept kept.holds_kept balanced))

pub grant_on-IsBalanced :
    (link : Link) (now : ℕ) (p : GrantParams) (d : Db) {x : Unit {0}} {d' : Db}
    → grant_on link now p d ≡ ok (x, d')
    → IsBalanced d
    → IsBalanced d'
grant_on-IsBalanced link now p d e balanced = elim (grant_on-ok link now p d e) [
  | inl (kept, taken) ↦ rw kept balanced
  | inr (o, found, fresh, positive, written) ↦ rw written (
      rebalance d p.organization_id o (o.credits_granted_micros +ℤ p.amount_micros)
        o.credits_used_micros (o.credits_remaining_micros +ℤ p.amount_micros) d.holds balanced found
        (grind (int_laws, balanced p.organization_id o found)) (λ j ne. refl))
]
