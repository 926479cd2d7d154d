-- ===== src/Billing/Ledger/Retry.antt =====
-- Record of internal/repositories/billing/repository.go, delivered again: a second run of the same
-- parameters changes nothing, whatever the first one did.
use orbit_api.Common.{ℕ, ◌≡◌, ap, ◌∙◌, ◌⊎◌, inl, inr, true, false, none, some, [], arith}
use orbit_api.Common.Int.{ℤ}
use orbit_api.Common.Str.{Str}
use orbit_api.Common.Table.{lookup, has, update, lookup-update_self, lookup_key}
use orbit_api.Common.Result.{ok}
use orbit_api.Store.{CreditHold, InferenceRequest, Db, entry_key, request_key, hold_key}
use orbit_api.Store.Tx.{Link}
use orbit_api.Billing.Holds.{SettleResult, is_open, settle_hold_tx}
use orbit_api.Billing.Holds.Sums.{close_open}
use orbit_api.Billing.Holds.Steps.{Settles, Leaves, settle_hold_tx-ok}
use orbit_api.Billing.Sweep.{debit_usage_tx}
use orbit_api.Billing.Ledger.{RecordParams, usage_key}
use orbit_api.Billing.Ledger.Steps.{
  costs, debit_usage_tx-ok, Charged, uncharged, debited, by_hold, swept,
}

-- No hold of this id is open.
abbrev pub IsShut : Str → Db → Type 0
IsShut hold_id d =
    (hold_id ≡ [])
    ⊎ (lookup hold_key hold_id d.holds ≡ none)
    ⊎ ((h : CreditHold) × (lookup hold_key hold_id d.holds ≡ some h) × (is_open h ≡ false))

-- What Record leaves behind: the request, its usage entry if it cost something, and no open hold.
pub record IsRecorded (p : RecordParams) (d : Db) : Type 0 where
  pub request : InferenceRequest
  pub requested : lookup request_key p.idempotency_key d.requests ≡ some request
  pub entered : costs p ≡ true → has entry_key (usage_key p.idempotency_key) d.ledger ≡ true
  pub shut : IsShut p.hold_id d

-- The tables that a charge leaves alone.
pub record KeepsTables (d d' : Db) : Type 0 where
  pub requests_kept : d'.requests ≡ d.requests
  pub ledger_kept : d'.ledger ≡ d.ledger

settle-KeepsTables :
    (link : Link) (now : ℕ) (hold_id : Str) (actual : ℤ) (d : Db) {s : SettleResult} {d' : Db}
    → settle_hold_tx link now hold_id actual d ≡ ok (s, d')
    → KeepsTables d d'
settle-KeepsTables link now hold_id actual d e =
    elim (settle_hold_tx-ok link now hold_id actual d e) [
      | inl done ↦
          let w = done.written in
          record { requests_kept = ground (arith, w); ledger_kept = ground (arith, w) }
      | inr left ↦
          let w = left.unchanged in
          record { requests_kept = ground (arith, w); ledger_kept = ground (arith, w) }
    ]

Leaves-IsShut :
    {hold_id : Str} {d : Db} {s : SettleResult} {d' : Db}
    → Leaves hold_id d s d'
    → IsShut hold_id d'
Leaves-IsShut {hold_id} {d} left = rw left.unchanged (elim left.missing_or_settled [
  | inl blank ↦ inl blank
  | inr (inl (missing, nothing)) ↦ inr (inl missing)
  | inr (inr (h, found, shut, there, org)) ↦ inr (inr (h, found, shut))
])

shut_once_closed : (now : ℕ) (h : CreditHold) → is_open (close_open now h) ≡ false
shut_once_closed now h = ground arith

Settles-IsShut :
    {now : ℕ} {hold_id : Str} {actual : ℤ} {d : Db} {s : SettleResult} {d' : Db}
    → Settles now hold_id actual d s d'
    → IsShut hold_id d'
Settles-IsShut {now} {hold_id} {actual} {d} {s} {d'} done =
    let same : done.hold.id ≡ hold_id = lookup_key hold_key hold_id d.holds done.hold_found in
    let closed : lookup hold_key hold_id (update hold_key hold_id (λ r. close_open now r) d.holds)
        ≡ some (close_open now done.hold) =
      lookup-update_self hold_key hold_id (λ r. close_open now r) d.holds done.hold_found
        (ground arith) in
    let holds : d'.holds ≡ update hold_key done.hold.id (λ r. close_open now r) d.holds =
      ap (λ (x : Db). x.holds) done.written in
    inr (inr (close_open now done.hold, cc, shut_once_closed now done.hold))

settle-IsShut :
    (link : Link) (now : ℕ) (hold_id : Str) (actual : ℤ) (d : Db) {s : SettleResult} {d' : Db}
    → settle_hold_tx link now hold_id actual d ≡ ok (s, d')
    → IsShut hold_id d'
settle-IsShut link now hold_id actual d e = elim (settle_hold_tx-ok link now hold_id actual d e) [
  | inr left ↦ Leaves-IsShut left
  | inl done ↦ Settles-IsShut done
]

debit-kept :
    (link : Link) (org : Str) (amount : ℤ) (d : Db) {x : Unit {0}} {d' : Db}
    → debit_usage_tx link org amount d ≡ ok (x, d')
    → KeepsTables d d' × (d'.holds ≡ d.holds)
debit-kept link org amount d e = elim (debit_usage_tx-ok link org amount d e) [
  | inl (kept, why) ↦
      (record { requests_kept = ground arith; ledger_kept = ground arith }, ground arith)
  | inr (o, found, written) ↦
      (record { requests_kept = ground arith; ledger_kept = ground arith }, ground arith)
]

pub Charged-KeepsTables :
    {link : Link} {now : ℕ} {p : RecordParams} {n : ℕ} {d d' : Db}
    → Charged link now p n d d'
    → KeepsTables d d'
Charged-KeepsTables (uncharged h z kept) = record {
  requests_kept = ground (arith, kept);
  ledger_kept = ground (arith, kept);
}
Charged-KeepsTables {link} {p} {d} (debited h i debit) =
    (debit-kept link p.organization_id p.amount_micros d debit).0
Charged-KeepsTables {link} {now} {p} {d} (by_hold r held done why) =
    settle-KeepsTables link now p.hold_id _ d done
Charged-KeepsTables {link} {now} {p} {d} (swept r d1 held done i a f debit) =
    let one = settle-KeepsTables link now p.hold_id _ d done in
    let two = (debit-kept link r.organization_id _ d1 debit).0 in
    record {
      requests_kept = two.requests_kept ∙ one.requests_kept;
      ledger_kept = two.ledger_kept ∙ one.ledger_kept;
    }

pub Charged-IsShut :
    {link : Link} {now : ℕ} {p : RecordParams} {n : ℕ} {d d' : Db}
    → Charged link now p n d d'
    → IsShut p.hold_id d'
Charged-IsShut (uncharged h z kept) = inl h
Charged-IsShut (debited h i debit) = inl h
Charged-IsShut {link} {now} {p} {d} (by_hold r held done why) =
    settle-IsShut link now p.hold_id _ d done
Charged-IsShut {link} {now} {p} {d} (swept r d1 held done i a f debit) =
    let before = settle-IsShut link now p.hold_id _ d done in
    let same = (debit-kept link r.organization_id _ d1 debit).1 in rw same before
