-- ===== src/Billing/Ledger/Once.antt =====
-- Record of internal/repositories/billing/repository.go charges once: a delivery that is repeated
-- changes nothing.
use orbit_api.Common.{ℕ, ◌≡◌, refl, ◌∙◌, inl, inr, true, some, [], ◌∷◌, arith}
use orbit_api.Common.Int.{ℤ}
use orbit_api.Common.Str.{Str, str_eq_refl}
use orbit_api.Common.Table.{lookup, has, has-append}
use orbit_api.Common.Result.{ok}
use orbit_api.Store.{CreditHold, Db, entry_key, hold_key}
use orbit_api.Store.Tx.{Link, transact-eq-ok, transact_kept}
use orbit_api.Billing.Holds.{SettleResult, is_open, settle_hold_tx}
use orbit_api.Billing.Holds.Steps.{settle_hold_tx-ok}
use orbit_api.Billing.Ledger.{RecordParams, usage_key, usage_row, usage_tx, record_tx, record_usage}
use orbit_api.Billing.Ledger.Steps.{
  request_tx-ok, request_tx-again, usage_tx-ok, costs, record_tx-ok, Charged, uncharged, debited,
  by_hold, swept, charge_tx-ok,
}
use orbit_api.Billing.Ledger.Retry.{IsShut, IsRecorded, Charged-KeepsTables, Charged-IsShut}

usage-entered :
    (link : Link) (now : ℕ) (request_id : Str) (p : RecordParams) (d : Db) {n : ℕ} {d' : Db}
    → usage_tx link now request_id p d ≡ ok (n, d')
    → (costs p ≡ true → has entry_key (usage_key p.idempotency_key) d'.ledger ≡ true)
      × (d'.requests ≡ d.requests)
usage-entered link now request_id p d e = elim (usage_tx-ok link now request_id p d e) [
  | inl (z, kept, taken) ↦ rw kept (taken, refl)
  | inr (o, written, c, fresh, there) ↦ rw written (
    λ c'.
        has-append entry_key (usage_key p.idempotency_key) (usage_row now request_id p) d.ledger
        ∙ rw (fresh, str_eq_refl) refl,
    refl,
  )
]

-- A record that went through has left its request, its entry and no open hold behind.
pub record-IsRecorded :
    (link : Link) (now : ℕ) (request_id : Str) (p : RecordParams) (d : Db) {s : SettleResult}
    {d' : Db}
    → record_tx link now request_id p d ≡ ok (s, d')
    → IsRecorded p d'
record-IsRecorded link now request_id p d {s} {d'} e =
    let (request, d1, n, d2, requested, used, charge) = record_tx-ok link now request_id p d e in
    let asked = request_tx-ok link now request_id p d requested in
    let (entered, same) = usage-entered link now request p d1 used in
    let charged = charge_tx-ok link now p n d2 {s = s} charge in
    let kept = Charged-KeepsTables charged in
    record {
      request = asked.there;
      requested = rw (kept.requests_kept, same) asked.found;
      entered = λ c. rw kept.ledger_kept (entered c);
      shut = Charged-IsShut charged;
    }

-- Usage that was entered before is not entered again.
usage-again :
    (link : Link) (now : ℕ) (request_id : Str) (p : RecordParams) (d : Db) {n : ℕ} {d' : Db}
    → (costs p ≡ true → has entry_key (usage_key p.idempotency_key) d.ledger ≡ true)
    → usage_tx link now request_id p d ≡ ok (n, d')
    → (n ≡ 0) × (d' ≡ d)
usage-again link now request_id p d entered e = elim (usage_tx-ok link now request_id p d e) [
  | inl (z, kept, taken) ↦ (z, kept)
  | inr (o, written, c, fresh, there) ↦ let taken = entered c in absurd (cc)
]

shut_has_no_open :
    {c : ℕ} {cs : Str} (d : Db) {h : CreditHold}
    → IsShut (c ∷ cs) d
    → lookup hold_key (c ∷ cs) d.holds ≡ some h
    → is_open h ≡ true
    → ⊥
shut_has_no_open d (inl blank) found opened = cc
shut_has_no_open d (inr (inl missing)) found opened = cc
shut_has_no_open d (inr (inr (x, there, closed))) found opened = ground arith

settle-again :
    (link : Link) (now : ℕ) (hold_id : Str) (actual : ℤ) (d : Db) {s : SettleResult} {d' : Db}
    → IsShut hold_id d
    → settle_hold_tx link now hold_id actual d ≡ ok (s, d')
    → d' ≡ d
unfolding settle_hold_tx
settle-again link now [] actual d shut e = ground arith
settle-again link now (c ∷ cs) actual d shut e =
    elim (settle_hold_tx-ok link now (c ∷ cs) actual d e) [
      | inr left ↦ left.unchanged
      | inl done ↦ absurd (shut_has_no_open d shut done.hold_found done.was_open)
    ]

-- With nothing inserted, and no hold open, a charge does nothing.
charge-again :
    (link : Link) (now : ℕ) (p : RecordParams) (n : ℕ) (d d' : Db)
    → n ≡ 0
    → IsShut p.hold_id d
    → Charged link now p n d d'
    → d' ≡ d
charge-again link now p n d d' none_new shut (uncharged h z kept) = kept
charge-again link now p n d d' none_new shut (debited h i debit) = absurd (omega arith)
charge-again link now p n d d' none_new shut (by_hold r held done why) =
    settle-again link now p.hold_id _ d shut done
charge-again link now p n d d' none_new shut (swept r d1 held done i a f debit) =
    absurd (omega arith)

pub record-again :
    (link : Link) (now : ℕ) (request_id : Str) (p : RecordParams) (d : Db) {s : SettleResult}
    {d' : Db}
    → IsRecorded p d
    → record_tx link now request_id p d ≡ ok (s, d')
    → d' ≡ d
record-again link now request_id p d {s} {d'} recorded e =
    let (request, d1, n, d2, requested, used, charge) = record_tx-ok link now request_id p d e in
    let same1 : d1 ≡ d = request_tx-again link now request_id p d recorded.requested requested in
    let (none_new, same2) = usage-again link now request p d1 (rw same1 recorded.entered) used in
    let same3 : d' ≡ d2 =
      charge-again link now p n d2 d' none_new (rw (same2, same1) recorded.shut)
        (charge_tx-ok link now p n d2 {s = s} charge) in
    same3 ∙ same2 ∙ same1

-- Record is idempotent: once it has gone through, another call with the same parameters leaves the
-- whole database as it is, at any later time, with any request id and whatever the database fails
-- to answer then.
pub record_usage_once :
    (link link' : Link) (now now' : ℕ) (request_id request_id' : Str) (p : RecordParams) (d : Db)
    {s : SettleResult} {d' : Db}
    → record_usage link now request_id p d ≡ (ok s, d')
    → (record_usage link' now' request_id' p d').1 ≡ d'
unfolding record_usage
record_usage_once link link' now now' request_id request_id' p d {s} {d'} e =
    let first = transact-eq-ok link (record_tx link now request_id p) d e in
    let recorded = record-IsRecorded link now request_id p d first in
    transact_kept link' (record_tx link' now' request_id' p) d'
      (λ s' d'' went. record-again link' now' request_id' p d' {s = s'} recorded went)
