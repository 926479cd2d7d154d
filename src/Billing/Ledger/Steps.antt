-- ===== src/Billing/Ledger/Steps.antt =====
-- What the transactions of internal/repositories/billing/repository.go write when they go through.
use orbit_api.Common.{
  ℕ, ◌≡◌, ◌<◌, refl, ◌⊎◌, inl, inr, Bool, true, false, ◌&&◌, none, some, [], ◌∷◌, ◌++◌, arith,
  Bool-cases, Option-cases,
}
use orbit_api.Common.Int.{ℤ, pos, ◌+ℤ◌, ◌-ℤ◌, ◌≤ℤ◌, ltb_ℤ, leb_ℤ}
use orbit_api.Common.Str.{Str, is_empty, is_empty-eq}
use orbit_api.Common.Table.{lookup, has, has-missing, lookup-append_self}
use orbit_api.Common.Result.{ok, Result-cases}
use orbit_api.Store.{
  Organization, CreditLedgerEntry, InferenceRequest, Db, org_key, entry_key, request_key,
}
use orbit_api.Store.Tx.{Link}
use orbit_api.Billing.Holds.{SettleResult, settle_hold_tx, write_credits}
use orbit_api.Billing.Holds.Steps.{with_credits}
use orbit_api.Billing.Sweep.{debit_usage_tx}
use orbit_api.Billing.Ledger.{
  RecordParams, GrantParams, request_row, request_tx, new_request, usage_key, usage_row,
  insert_entry, append_entry, usage_tx, is_success, actual_of, debit_swept, settle_recorded,
  debit_recorded, charge_tx, record_tx, grant_row, apply_grant_tx, grant_on,
}

-- A request's row was there, or is there now; nothing else has changed.
pub record Requested (p : RecordParams) (d : Db) (d' : Db) : Type 0 where
  pub organizations_kept : d'.organizations ≡ d.organizations
  pub holds_kept : d'.holds ≡ d.holds
  pub ledger_kept : d'.ledger ≡ d.ledger
  pub there : InferenceRequest
  pub found : lookup request_key p.idempotency_key d'.requests ≡ some there

pub request_tx-ok :
    (link : Link) (now : ℕ) (request_id : Str) (p : RecordParams) (d : Db) {r : Str} {d' : Db}
    → request_tx link now request_id p d ≡ ok (r, d')
    → Requested p d d'
unfolding request_tx new_request
request_tx-ok link now request_id p d e =
    elim (Option-cases (lookup request_key p.idempotency_key d.requests)) [
      | inl missing ↦ record {
        organizations_kept = ground arith;
        holds_kept = ground arith;
        ledger_kept = ground arith;
        there = request_row now request_id p;
        found = ground (
          arith,
          lookup-append_self request_key (request_row now request_id p) d.requests missing,
        );
      }
      | inr (q, old) ↦ record {
        organizations_kept = ground arith;
        holds_kept = ground arith;
        ledger_kept = ground arith;
        there = q;
        found = ground arith;
      }
    ]

-- A request that was recorded before is not recorded again.
pub request_tx-again :
    (link : Link) (now : ℕ) (request_id : Str) (p : RecordParams) (d : Db) {q : InferenceRequest}
    {r : Str} {d' : Db}
    → lookup request_key p.idempotency_key d.requests ≡ some q
    → request_tx link now request_id p d ≡ ok (r, d')
    → d' ≡ d
unfolding request_tx
request_tx-again link now request_id p d old e = ground arith

-- The ledger with one entry more.
abbrev pub with_entry : CreditLedgerEntry → Db → Db
with_entry e d = record d { ledger = d.ledger ++ e ∷ [] }

-- An entry whose key is taken is skipped; any other is inserted, for an organization that exists.
pub insert_entry-ok :
    (x : CreditLedgerEntry) (d : Db) {n : ℕ} {d' : Db}
    → insert_entry x d ≡ ok (n, d')
    → ((n ≡ 0) × (d' ≡ d) × (has entry_key x.idempotency_key d.ledger ≡ true))
      ⊎ ((n ≡ 1)
          × (d' ≡ with_entry x d)
          × (has entry_key x.idempotency_key d.ledger ≡ false)
          × (has org_key x.organization_id d.organizations ≡ true))
unfolding insert_entry append_entry
insert_entry-ok x d e = ground arith

abbrev pub costs : RecordParams → Bool
costs p = ltb_ℤ (pos 0) p.amount_micros && is_success p

pub usage_tx-ok :
    (link : Link) (now : ℕ) (request_id : Str) (p : RecordParams) (d : Db) {n : ℕ} {d' : Db}
    → usage_tx link now request_id p d ≡ ok (n, d')
    → ((n ≡ 0)
        × (d' ≡ d)
        × (costs p ≡ true → has entry_key (usage_key p.idempotency_key) d.ledger ≡ true))
      ⊎ ((n ≡ 1)
          × (d' ≡ with_entry (usage_row now request_id p) d)
          × (costs p ≡ true)
          × (has entry_key (usage_key p.idempotency_key) d.ledger ≡ false)
          × (has org_key p.organization_id d.organizations ≡ true))
unfolding usage_tx
usage_tx-ok link now request_id p d {n} {d'} e = elim (Bool-cases (costs p)) [
  | inl costly ↦
      elim (insert_entry-ok (usage_row now request_id p) d {n = n} {d' = d'} (ground arith)) [
        | inl (zero_rows, kept, taken) ↦ inl (zero_rows, kept, λ c. taken)
        | inr (one_row, written, fresh, org_found) ↦
            inr (one_row, written, costly, fresh, org_found)
      ]
  | inr free ↦ inl (ground arith, ground arith, λ c. cc)
]

-- An organization is debited, or nothing changes.
pub debit_usage_tx-ok :
    (link : Link) (org : Str) (amount : ℤ) (d : Db) {x : Unit {0}} {d' : Db}
    → debit_usage_tx link org amount d ≡ ok (x, d')
    → ((d' ≡ d) × ((org ≡ []) ⊎ (amount ≤ℤ pos 0) ⊎ (lookup org_key org d.organizations ≡ none)))
      ⊎ ((o : Organization) × (lookup org_key org d.organizations ≡ some o)
          × (d'
              ≡ with_credits o o.credits_granted_micros
                  (o.credits_used_micros +ℤ amount)
                  (o.credits_remaining_micros -ℤ amount)
                  d))
unfolding debit_usage_tx write_credits
debit_usage_tx-ok link [] amount d e = inl (ground arith, inl refl)
debit_usage_tx-ok link (c ∷ cs) amount d e =
    elim (Option-cases (lookup org_key (c ∷ cs) d.organizations)) [
      | inl missing ↦ inl (ground arith, inr (inr missing))
      | inr (o, found) ↦ elim (Bool-cases (leb_ℤ amount (pos 0))) [
        | inl nothing ↦ inl (ground arith, inr (inl (ground arith)))
        | inr some_amount ↦ inr (o, found, ground arith)
      ]
    ]

-- Record in its three parts.
pub record_tx-ok :
    (link : Link) (now : ℕ) (request_id : Str) (p : RecordParams) (d : Db) {s : SettleResult}
    {d' : Db}
    → record_tx link now request_id p d ≡ ok (s, d')
    → (request : Str) × (d1 : Db) × (n : ℕ) × (d2 : Db) × (request_tx link now request_id p d
        ≡ ok (request, d1))
      × (usage_tx link now request p d1 ≡ ok (n, d2))
      × (charge_tx link now p n d2 ≡ ok (s, d'))
unfolding record_tx
record_tx-ok link now request_id p d e = elim (Result-cases (request_tx link now request_id p d)) [
  | inr (x, refused) ↦ ground arith
  | inl ((request, d1), requested) ↦ elim (Result-cases (usage_tx link now request p d1)) [
    | inr (x, refused) ↦ ground arith
    | inl ((n, d2), used) ↦ (request, d1, n, d2, requested, used, ground arith)
  ]
]

-- A debit stands in for a settlement only if an entry was inserted for a hold that was found
-- settled.
debit_swept-ok :
    (link : Link) (p : RecordParams) (n : ℕ) (r : SettleResult) (d : Db) {s : SettleResult}
    {d' : Db}
    → debit_swept link p n r d ≡ ok (s, d')
    → ((d' ≡ d) × ((n ≡ 0) ⊎ (r.applied ≡ true) ⊎ (r.found ≡ false) ⊎ (actual_of p ≤ℤ pos 0)))
      ⊎ ((0 < n)
          × (r.applied ≡ false)
          × (r.found ≡ true)
          × (debit_usage_tx link r.organization_id (actual_of p) d ≡ ok (tt, d')))
unfolding debit_swept
debit_swept-ok link p n r d {s} {d'} e =
    elim (Result-cases (debit_usage_tx link r.organization_id (actual_of p) d)) [
      | inl (x, debited) ↦ ground arith
      | inr (x, refused) ↦ ground arith
    ]

debit_recorded-ok :
    (link : Link) (p : RecordParams) (n : ℕ) (d : Db) {s : SettleResult} {d' : Db}
    → debit_recorded link p n d ≡ ok (s, d')
    → ((n ≡ 0) × (d' ≡ d))
      ⊎ ((0 < n) × (debit_usage_tx link p.organization_id p.amount_micros d ≡ ok (tt, d')))
unfolding debit_recorded
debit_recorded-ok link p n d {s} {d'} e =
    elim (Result-cases (debit_usage_tx link p.organization_id p.amount_micros d)) [
      | inl (x, debited) ↦ ground arith
      | inr (x, refused) ↦ ground arith
    ]

settle_recorded-ok :
    (link : Link) (now : ℕ) (p : RecordParams) (n : ℕ) (d : Db) {s : SettleResult} {d' : Db}
    → settle_recorded link now p n d ≡ ok (s, d')
    → (r : SettleResult) × (d1 : Db) × (settle_hold_tx link now p.hold_id (actual_of p) d
        ≡ ok (r, d1))
      × (debit_swept link p n r d1 ≡ ok (s, d'))
unfolding settle_recorded
settle_recorded-ok link now p n d {s} {d'} e =
    elim (Result-cases (settle_hold_tx link now p.hold_id (actual_of p) d)) [
      | inr (x, refused) ↦ ground arith
      | inl ((r, d1), done) ↦ (r, d1, done, ground arith)
    ]

-- How a recorded request was charged: not at all, or by a debit; or by its hold, after which a
-- debit may stand in for a hold that the sweeper has settled.
pub data Charged (link : Link) (now : ℕ) (p : RecordParams) (n : ℕ) (d : Db) (d' : Db)
    : Type 0 where
  uncharged : p.hold_id ≡ [] → n ≡ 0 → d' ≡ d → Charged link now p n d d'
  debited :
      p.hold_id ≡ []
      → 0 < n
      → debit_usage_tx link p.organization_id p.amount_micros d ≡ ok (tt, d')
      → Charged link now p n d d'
  by_hold :
      (r : SettleResult)
      → is_empty p.hold_id ≡ false
      → settle_hold_tx link now p.hold_id (actual_of p) d ≡ ok (r, d')
      → (n ≡ 0) ⊎ (r.applied ≡ true) ⊎ (r.found ≡ false) ⊎ (actual_of p ≤ℤ pos 0)
      → Charged link now p n d d'
  swept :
      (r : SettleResult) (d1 : Db)
      → is_empty p.hold_id ≡ false
      → settle_hold_tx link now p.hold_id (actual_of p) d ≡ ok (r, d1)
      → 0 < n
      → r.applied ≡ false
      → r.found ≡ true
      → debit_usage_tx link r.organization_id (actual_of p) d1 ≡ ok (tt, d')
      → Charged link now p n d d'

pub charge_tx-ok :
    (link : Link) (now : ℕ) (p : RecordParams) (n : ℕ) (d : Db) {s : SettleResult} {d' : Db}
    → charge_tx link now p n d ≡ ok (s, d')
    → Charged link now p n d d'
unfolding charge_tx
charge_tx-ok link now p n d {s} {d'} e = elim (Bool-cases (is_empty p.hold_id)) [
  | inl holdless ↦ elim (debit_recorded-ok link p n d {s = s} {d' = d'} (ground arith)) [
    | inl (nothing, kept) ↦ uncharged (is_empty-eq _ holdless) nothing kept
    | inr (inserted, debit) ↦ debited (is_empty-eq _ holdless) inserted debit
  ]
  | inr held ↦
      let (r, d1, done, after) =
        settle_recorded-ok link now p n d {s = s} {d' = d'} (ground arith) in
      elim (debit_swept-ok link p n r d1 after) [
        | inl (kept, why) ↦ by_hold r held (cc) why
        | inr (inserted, not_applied, found, debit) ↦
            swept r d1 held done inserted not_applied found debit
      ]
]

-- A grant was written before, or its entry is new and its organization has the amount.
pub grant_on-ok :
    (link : Link) (now : ℕ) (p : GrantParams) (d : Db) {x : Unit {0}} {d' : Db}
    → grant_on link now p d ≡ ok (x, d')
    → ((d' ≡ d) × (has entry_key p.idempotency_key d.ledger ≡ true))
      ⊎ ((o : Organization) × (lookup org_key p.organization_id d.organizations ≡ some o)
          × (has entry_key p.idempotency_key d.ledger ≡ false)
          × (pos 1 ≤ℤ p.amount_micros)
          × (d'
              ≡ with_credits o
                  (o.credits_granted_micros +ℤ p.amount_micros)
                  o.credits_used_micros
                  (o.credits_remaining_micros +ℤ p.amount_micros)
                  (with_entry (grant_row now p) d)))
unfolding grant_on apply_grant_tx write_credits insert_entry append_entry
grant_on-ok link now p d e =
    elim (Option-cases (lookup org_key p.organization_id d.organizations)) [
      | inl missing ↦ inl (
        ground (arith, has-missing org_key p.organization_id d.organizations missing),
        ground (arith, has-missing org_key p.organization_id d.organizations missing),
      )
      | inr (o, found) ↦ elim (Bool-cases (has entry_key p.idempotency_key d.ledger)) [
        | inl taken ↦ inl (ground arith, taken)
        | inr fresh ↦ inr (o, found, fresh, ground arith, ground arith)
      ]
    ]
