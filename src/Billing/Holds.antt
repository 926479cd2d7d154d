-- ===== src/Billing/Holds.antt =====
-- internal/repositories/billing/hold.go: placing, settling and reclaiming credit holds.
pub mod Placing
pub mod Steps
pub mod Sums
pub mod Balance
use orbit_api.Common.{
  ℕ, ◌+◌, ◌*◌, ◌/◌, suc, Bool, true, false, Option, none, some, List, [], ◌∷◌, ◌++◌, ◌&&◌, ◌||◌,
  not, ltb, ◌==◌, if◌then◌else◌,
}
use orbit_api.Common.Int.{ℤ, pos, pos_part, ◌+ℤ◌, ◌-ℤ◌, ltb_ℤ, leb_ℤ}
use orbit_api.Common.Word.{add64, sub64, in_range}
use orbit_api.Common.Str.{Str, str_eq, is_empty}
use orbit_api.Common.Table.{lookup, update, has}
use orbit_api.Common.Result.{Result, ok, err}
use orbit_api.Store.{Organization, CreditHold, Db, org_key, hold_key, credits_allowed}
use orbit_api.Store.Tx.{
  Tx, Link, Error, insufficient_credits, required, organization_missing, no_rows, out_of_range,
  violates, credits_non_negative, hold_amount_positive, hold_expires_after_create, unique_id,
  foreign_key, lock_organization, read_remaining, debit_hold, insert_hold, lookup_hold, lock_hold,
  settle_hold, apply_settlement, reclaim_holds, debit_usage, select_expired, ◌>>=◌, ◌>>◌, pure,
  fail, ask, gets, require, row, modify, transact,
}

pub record Hold : Type 0 where
  pub id : Str
  pub amount_micros : ℤ
  pub max_tokens : ℤ
  pub organization_id : Str
  pub remaining_before_micros : ℤ
  pub remaining_after_micros : ℤ

-- The function that sizes a hold from what remains: an amount and a number of tokens.
abbrev pub HoldPlanner : Type 0
HoldPlanner = ℤ → Result Error (ℤ × ℤ)

pub record SettleResult : Type 0 where
  pub found : Bool
  pub applied : Bool
  pub organization_id : Str
  pub amount_micros : ℤ
  pub actual_micros : ℤ
  pub refund_micros : ℤ
  pub remaining_before_micros : ℤ
  pub remaining_after_micros : ℤ

-- `SettleResult{}`
abbrev pub no_settlement : SettleResult
no_settlement = record {
  found = false;
  applied = false;
  organization_id = [];
  amount_micros = pos 0;
  actual_micros = pos 0;
  refund_micros = pos 0;
  remaining_before_micros = pos 0;
  remaining_after_micros = pos 0;
}

-- `settled_at IS NULL`
abbrev pub is_open : CreditHold → Bool
is_open h = elim h.settled_at [ none ↦ true | some t ↦ false ]

abbrev pub close_at : ℕ → CreditHold → CreditHold
close_at now h = record h { settled_at = some now }

abbrev pub is_expired : Str → ℕ → CreditHold → Bool
is_expired org now h = str_eq h.organization_id org && (is_open h && ltb h.expires_at now)

abbrev pub set_credits : ℤ → ℤ → ℤ → Organization → Organization
set_credits granted used remaining o = record o {
  credits_granted_micros = granted;
  credits_used_micros = used;
  credits_remaining_micros = remaining;
}

-- UPDATE organizations SET its three credit columns WHERE id = org: no row, no change. The columns
-- are BIGINT, and the row is checked against its constraint.
unfoldable pub write_credits : Organization → ℤ → ℤ → ℤ → Tx (Unit {0})
write_credits o granted used remaining =
    let o' = set_credits granted used remaining o in
    do
      require (in_range granted && in_range used && in_range remaining) out_of_range
      require (credits_allowed o') (violates credits_non_negative)
      modify (λ d. record d {
        organizations = update org_key o.id (set_credits granted used remaining) d.organizations;
      })

-- The sum and the number of an organization's expired holds, and the holds with these settled.
unfoldable pub expired_sum : Str → ℕ → List CreditHold → ℤ
expired_sum org now [] = pos 0
expired_sum org now (h ∷ hs) =
    let rest = expired_sum org now hs in
    if is_expired org now h then h.amount_micros +ℤ rest else rest

unfoldable pub expired_count : Str → ℕ → List CreditHold → ℕ
expired_count org now [] = 0
expired_count org now (h ∷ hs) =
    let rest = expired_count org now hs in if is_expired org now h then suc rest else rest

unfoldable pub settle_expired : Str → ℕ → List CreditHold → List CreditHold
settle_expired org now [] = []
settle_expired org now (h ∷ hs) =
    (if is_expired org now h then close_at now h else h) ∷ settle_expired org now hs

-- The statement of reclaimExpiredHoldsTxCount. An organization that is missing gives no row to scan.
unfoldable pub reclaim_expired_holds_tx_count : Link → ℕ → Str → Tx ℕ
reclaim_expired_holds_tx_count link now org = do
  ask link (reclaim_holds org)
  o ← λ d. row (lookup org_key org d.organizations) (no_rows (reclaim_holds org)) d
  hs ← gets (λ d. d.holds)
  write_credits o o.credits_granted_micros o.credits_used_micros
      (o.credits_remaining_micros +ℤ expired_sum org now hs)
  modify (λ d. record d { holds = settle_expired org now d.holds })
  pure (expired_count org now hs)

unfoldable pub reclaim_expired_holds_tx : Link → ℕ → Str → Tx (Unit {0})
reclaim_expired_holds_tx link now org = do n ← reclaim_expired_holds_tx_count link now org; pure tt

-- `if ttl < time.Second { ttl = time.Minute }`, then whole seconds of the nanoseconds.
unfoldable pub hold_seconds : ℤ → ℕ
hold_seconds ttl = if ltb_ℤ ttl (pos 1000000000) then 60 else pos_part ttl / 1000000000

-- INSERT INTO credit_holds, with the table's constraints.
unfoldable pub insert_credit_hold : ℕ → Str → Str → ℤ → ℕ → Tx (Unit {0})
insert_credit_hold now hold_id org amount seconds = do
  require (ltb_ℤ (pos 0) amount) (violates hold_amount_positive)
  require (ltb now (now + seconds * 1000000)) (violates hold_expires_after_create)
  require (← gets (λ d. not (has hold_key hold_id d.holds))) (violates unique_id)
  require (← gets (λ d. has org_key org d.organizations)) (violates foreign_key)
  modify (λ d. record d {
    holds =
        d.holds
        ++ (record {
          id = hold_id;
          organization_id = org;
          amount_micros = amount;
          created_at = now;
          expires_at = now + seconds * 1000000;
          settled_at = none;
        })
          ∷ [];
  })

-- The debit meets the row only if the balance covers the amount and reaches the threshold.
unfoldable pub debit_hold_tx : Link → Organization → ℤ → ℤ → Tx (Unit {0})
debit_hold_tx link o amount threshold = do
  ask link debit_hold
  require (leb_ℤ amount o.credits_remaining_micros && leb_ℤ threshold o.credits_remaining_micros)
      insufficient_credits
  write_credits o o.credits_granted_micros o.credits_used_micros
      (o.credits_remaining_micros -ℤ amount)

-- From the planner's answer on: the debit and the row, whose id is the database's choice.
unfoldable pub place_sized : Link → ℕ → Str → Str → ℤ → ℤ → Organization → ℤ → ℤ → Tx Hold
place_sized link now hold_id org threshold ttl o amount max_tokens = do
  require (not (ltb_ℤ amount (pos 1) || ltb_ℤ max_tokens (pos 1))) insufficient_credits
  debit_hold_tx link o amount threshold
  ask link insert_hold
  insert_credit_hold now hold_id org amount (hold_seconds ttl)
  pure (record {
    id = hold_id;
    amount_micros = amount;
    max_tokens = max_tokens;
    organization_id = org;
    remaining_before_micros = o.credits_remaining_micros;
    remaining_after_micros = sub64 o.credits_remaining_micros amount;
  })

-- What remains after the reclaim is read again, and handed to the planner.
unfoldable pub size_hold : Link → ℕ → Str → Str → ℤ → ℤ → HoldPlanner → Tx Hold
size_hold link now hold_id org threshold ttl plan = do
  ask link read_remaining
  o ← λ d. row (lookup org_key org d.organizations) (no_rows read_remaining) d
  elim (plan o.credits_remaining_micros) [
    | ok p ↦ place_sized link now hold_id org threshold ttl o p.0 p.1
    | err e ↦ fail e
  ]

-- The statements of PlaceHold.
unfoldable pub place_hold_tx : Link → ℕ → Str → Str → ℤ → ℤ → HoldPlanner → Tx Hold
place_hold_tx link now hold_id org threshold ttl plan = do
  ask link lock_organization
  locked ← λ d. row (lookup org_key org d.organizations) insufficient_credits d
  reclaim_expired_holds_tx link now org
  size_hold link now hold_id org threshold ttl plan

unfoldable pub place_hold :
    Link → ℕ → Str → Str → ℤ → ℤ → Option HoldPlanner → Db → Result Error Hold × Db
place_hold link now hold_id org threshold ttl none d = (err required, d)
place_hold link now hold_id org threshold ttl (some plan) d =
    if is_empty org
    then (err required, d)
    else transact link (place_hold_tx link now hold_id org threshold ttl plan) d

-- UPDATE credit_holds SET settled_at = now() WHERE id = … AND settled_at IS NULL: the rows it met.
unfoldable pub mark_settled : ℕ → Str → Tx ℕ
mark_settled now hold_id = do
  h ← gets (λ d. lookup hold_key hold_id d.holds)
  modify (λ d. record d {
    holds = update hold_key hold_id (λ r. if is_open r then close_at now r else r) d.holds;
  })
  pure (elim h [ none ↦ 0 | some r ↦ if is_open r then 1 else 0 ])

-- remaining += amount - actual, used += actual
unfoldable pub apply_settlement_tx : Link → Organization → ℤ → ℤ → Tx (Unit {0})
apply_settlement_tx link o amount actual = do
  ask link apply_settlement
  require (in_range (o.credits_remaining_micros +ℤ amount)) out_of_range
  write_credits o o.credits_granted_micros (o.credits_used_micros +ℤ actual)
      (o.credits_remaining_micros +ℤ amount -ℤ actual)

-- The answer about a hold that was found, before anything is applied.
abbrev pub seen : Organization → CreditHold → ℤ → SettleResult
seen o h actual = record {
  found = true;
  applied = false;
  organization_id = h.organization_id;
  amount_micros = h.amount_micros;
  actual_micros = actual;
  refund_micros = pos 0;
  remaining_before_micros = o.credits_remaining_micros;
  remaining_after_micros = pos 0;
}

-- The answer about a hold that this call has settled.
abbrev pub settled : Organization → CreditHold → ℤ → SettleResult
settled o h actual = record (seen o h actual) {
  applied = true;
  refund_micros = sub64 h.amount_micros actual;
  remaining_after_micros = sub64 (add64 o.credits_remaining_micros h.amount_micros) actual;
}

-- From the lock on the hold on: a hold that is settled already is left alone.
unfoldable pub settle_locked : Link → ℕ → Organization → CreditHold → ℤ → Tx SettleResult
settle_locked link now o h actual =
    let apply : Tx SettleResult = do
      apply_settlement_tx link o h.amount_micros actual
      pure (settled o h actual)
    in let mark : Tx SettleResult = do
      ask link settle_hold
      updated ← mark_settled now h.id
      if updated == 0 then pure (seen o h actual) else apply
      in if is_open h then mark else pure (seen o h actual)

unfoldable pub settle_found : Link → ℕ → CreditHold → ℤ → Tx SettleResult
settle_found link now h actual = do
  ask link lock_organization
  o ← λ d. row (lookup org_key h.organization_id d.organizations) organization_missing d
  ask link lock_hold
  again ← gets (λ d. lookup hold_key h.id d.holds)
  elim again [ none ↦ pure no_settlement | some h' ↦ settle_locked link now o h' actual ]

unfoldable pub settle_hold_tx : Link → ℕ → Str → ℤ → Tx SettleResult
settle_hold_tx link now hold_id actual = if is_empty hold_id then pure no_settlement else do
  ask link lookup_hold
  found ← gets (λ d. lookup hold_key hold_id d.holds)
  elim found [
    | none ↦ pure no_settlement
    | some h ↦ settle_found link now h (if ltb_ℤ actual (pos 0) then pos 0 else actual)
  ]
