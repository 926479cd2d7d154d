-- ===== src/Billing/Ledger.antt =====
-- internal/repositories/billing/repository.go: recording a request, and granting credits.
pub mod Steps
pub mod Balance
pub mod Retry
pub mod Once
pub mod Books
pub mod Spending
pub mod Lockstep
use orbit_api.Common.{
  ℕ, ◌+◌, Bool, true, false, Option, none, some, List, [], ◌∷◌, ◌++◌, ◌&&◌, ◌||◌, not, ltb, ◌==◌,
  if◌then◌else◌,
}
use orbit_api.Common.Int.{ℤ, pos, pos_part, neg_part, ◌+ℤ◌, ◌-ℤ◌, ltb_ℤ, leb_ℤ}
use orbit_api.Common.Str.{Str, str_eq, is_empty, codes}
use orbit_api.Common.Table.{lookup, has}
use orbit_api.Common.Result.{Result, ok, err}
use orbit_api.Store.{
  Organization, CreditLedgerEntry, InferenceRequest, Db, org_key, entry_key, request_key,
  request_id_key, id_key,
}
use orbit_api.Store.Tx.{
  Tx, Link, Error, required, amount_not_positive, no_rows, not_answered, out_of_range, violates,
  ledger_amount_positive, ledger_vendor_non_negative, request_status, unique_id, foreign_key,
  insert_request, select_request, insert_usage, check_key, insert_grant, apply_grant, ◌>>=◌, ◌>>◌,
  pure, fail, ask, gets, require, row, modify, transact,
}
use orbit_api.Billing.Holds.{SettleResult, no_settlement, settle_hold_tx, write_credits}
use orbit_api.Billing.Sweep.{debit_usage_tx}

abbrev pub success : Str
success = codes "success"

abbrev pub usage : Str
usage = codes "usage"

abbrev pub grant : Str
grant = codes "grant"

pub record RecordParams : Type 0 where
  pub idempotency_key : Str
  pub organization_id : Str
  pub api_key_id : Str
  pub model_catalogue_id : Str
  pub prompt : Str
  pub input_tokens : ℤ
  pub output_tokens : ℤ
  pub latency_ms : ℤ
  pub status : Str
  pub error : Str
  pub amount_micros : ℤ
  pub vendor_amount_micros : ℤ
  pub hold_id : Str

-- A sql.NullString: the empty text is NULL.
abbrev pub null_string : Str → Option Str
null_string s = if is_empty s then none else some s

-- A column of type INTEGER.
unfoldable pub fits_integer : ℤ → Bool
fits_integer a = ltb (pos_part a) 2147483648 && ltb (neg_part a) 2147483649

-- A nullable foreign key holds where it is NULL or names a row.
unfoldable pub references : Option Str → List Str → Bool
references none ids = true
references (some i) ids = has id_key i ids

-- The row that Record inserts.
abbrev pub request_row : ℕ → Str → RecordParams → InferenceRequest
request_row now request_id p = record {
  id = request_id;
  organization_id = p.organization_id;
  api_key_id = null_string p.api_key_id;
  model_catalogue_id = null_string p.model_catalogue_id;
  prompt = p.prompt;
  input_tokens = p.input_tokens;
  output_tokens = p.output_tokens;
  latency_ms = p.latency_ms;
  status = p.status;
  error = p.error;
  idempotency_key = p.idempotency_key;
  created_at = now;
}

unfoldable pub new_request : ℕ → Str → RecordParams → Tx Str
new_request now request_id p = do
  require (← gets (λ d. not (has request_id_key request_id d.requests))) (violates unique_id)
  require
      (← gets (λ d.
        has org_key p.organization_id d.organizations
        && (references (null_string p.api_key_id) d.api_key_ids
            && references (null_string p.model_catalogue_id) d.model_ids)))
      (violates foreign_key)
  modify (λ d. record d { requests = d.requests ++ request_row now request_id p ∷ [] })
  pure request_id

-- INSERT INTO inference_requests … ON CONFLICT DO NOTHING RETURNING id, and the SELECT that follows
-- where the key was there.
unfoldable pub request_tx : Link → ℕ → Str → RecordParams → Tx Str
request_tx link now request_id p = do
  ask link insert_request
  require
      (fits_integer p.input_tokens && (fits_integer p.output_tokens && fits_integer p.latency_ms))
      out_of_range
  require (str_eq p.status success || str_eq p.status (codes "error")) (violates request_status)
  there ← gets (λ d. lookup request_key p.idempotency_key d.requests)
  elim there [ none ↦ new_request now request_id p | some r ↦ ask link select_request >> pure r.id ]

abbrev pub usage_key : Str → Str
usage_key key = codes "usage:" ++ key

abbrev pub usage_row : ℕ → Str → RecordParams → CreditLedgerEntry
usage_row now request_id p = record {
  organization_id = p.organization_id;
  inference_request_id = some request_id;
  entry_type = usage;
  amount_micros = p.amount_micros;
  vendor_amount_micros = p.vendor_amount_micros;
  idempotency_key = usage_key p.idempotency_key;
  note = [];
  created_at = now;
}

unfoldable pub append_entry : Bool → CreditLedgerEntry → Tx ℕ
append_entry org_found e = do
  require org_found (violates foreign_key)
  modify (λ d. record d { ledger = d.ledger ++ e ∷ [] })
  pure 1

-- INSERT INTO credit_ledger … ON CONFLICT DO NOTHING: the number of rows inserted.
unfoldable pub insert_entry : CreditLedgerEntry → Tx ℕ
insert_entry e = do
  require (ltb_ℤ (pos 0) e.amount_micros) (violates ledger_amount_positive)
  require (leb_ℤ (pos 0) e.vendor_amount_micros) (violates ledger_vendor_non_negative)
  there ← gets (λ d. has entry_key e.idempotency_key d.ledger)
  found ← gets (λ d. has org_key e.organization_id d.organizations)
  if there then pure 0 else append_entry found e

abbrev pub is_success : RecordParams → Bool
is_success p = str_eq p.status success

-- A usage row, for a request that succeeded and cost something.
unfoldable pub usage_tx : Link → ℕ → Str → RecordParams → Tx ℕ
usage_tx link now request_id p =
    if ltb_ℤ (pos 0) p.amount_micros && is_success p
    then ask link insert_usage >> insert_entry (usage_row now request_id p)
    else pure 0

-- What the request cost in the end.
abbrev pub actual_of : RecordParams → ℤ
actual_of p = if is_success p then p.amount_micros else pos 0

-- The settlement of the hold, and the debit that stands in for it where the sweeper was first.
unfoldable pub debit_swept : Link → RecordParams → ℕ → SettleResult → Tx SettleResult
debit_swept link p inserted s =
    if not s.applied && (s.found && (ltb 0 inserted && ltb_ℤ (pos 0) (actual_of p)))
    then debit_usage_tx link s.organization_id (actual_of p) >> pure s
    else pure s

unfoldable pub settle_recorded : Link → ℕ → RecordParams → ℕ → Tx SettleResult
settle_recorded link now p inserted = do
  s ← settle_hold_tx link now p.hold_id (actual_of p)
  debit_swept link p inserted s

-- A job from before there were holds.
unfoldable pub debit_recorded : Link → RecordParams → ℕ → Tx SettleResult
debit_recorded link p inserted =
    if ltb 0 inserted
    then debit_usage_tx link p.organization_id p.amount_micros >> pure no_settlement
    else pure no_settlement

unfoldable pub charge_tx : Link → ℕ → RecordParams → ℕ → Tx SettleResult
charge_tx link now p inserted =
    if is_empty p.hold_id
    then debit_recorded link p inserted
    else settle_recorded link now p inserted

-- The statements of Record.
unfoldable pub record_tx : Link → ℕ → Str → RecordParams → Tx SettleResult
record_tx link now request_id p = do
  require (not (is_empty p.idempotency_key)) required
  request ← request_tx link now request_id p
  inserted ← usage_tx link now request p
  charge_tx link now p inserted

-- Record
unfoldable pub record_usage : Link → ℕ → Str → RecordParams → Db → Result Error SettleResult × Db
record_usage link now request_id p d = transact link (record_tx link now request_id p) d

pub record GrantParams : Type 0 where
  pub organization_id : Str
  pub amount_micros : ℤ
  pub idempotency_key : Str
  pub note : Str

abbrev pub grant_row : ℕ → GrantParams → CreditLedgerEntry
grant_row now p = record {
  organization_id = p.organization_id;
  inference_request_id = none;
  entry_type = grant;
  amount_micros = p.amount_micros;
  vendor_amount_micros = pos 0;
  idempotency_key = p.idempotency_key;
  note = p.note;
  created_at = now;
}

-- granted += amount, remaining += amount, of an organization that may be missing.
unfoldable pub apply_grant_tx : Link → GrantParams → Tx (Unit {0})
apply_grant_tx link p = do
  ask link apply_grant
  found ← gets (λ d. lookup org_key p.organization_id d.organizations)
  elim found [
    | none ↦ pure tt
    | some o ↦
        write_credits o (o.credits_granted_micros +ℤ p.amount_micros) o.credits_used_micros
          (o.credits_remaining_micros +ℤ p.amount_micros)
  ]

unfoldable pub grant_on : Link → ℕ → GrantParams → Tx (Unit {0})
grant_on link now p = do
  require (not (is_empty p.idempotency_key)) required
  require (ltb_ℤ (pos 0) p.amount_micros) amount_not_positive
  ask link insert_grant
  inserted ← insert_entry (grant_row now p)
  if inserted == 0 then pure tt else apply_grant_tx link p

unfoldable pub grant_credits : Link → ℕ → GrantParams → Db → Result Error (Unit {0}) × Db
grant_credits link now p d = transact link (grant_on link now p) d
