-- ===== src/Billing/Holds/Steps.antt =====
-- What the transactions of internal/repositories/billing/hold.go write when they go through.
use orbit_api.Common.{
  ℕ, ◌≡◌, refl, ◌⊎◌, inl, inr, ap, true, false, none, some, ◌∷◌, [], arith, if◌then◌else◌,
  Option-cases,
}
use orbit_api.Common.Int.{ℤ, pos, ◌+ℤ◌, ◌-ℤ◌, ◌≤ℤ◌, ltb_ℤ}
use orbit_api.Common.Word.{in_range}
use orbit_api.Common.Str.{Str}
use orbit_api.Common.Table.{lookup, update, lookup_key}
use orbit_api.Common.Result.{ok}
use orbit_api.Store.{Organization, CreditHold, Db, org_key, hold_key}
use orbit_api.Store.Tx.{Link}
use orbit_api.Billing.Holds.{
  SettleResult, no_settlement, is_open, close_at, set_credits, write_credits, mark_settled,
  apply_settlement_tx, seen, settled, settle_locked, settle_found, settle_hold_tx,
}

-- The database with new credits on one organization's row.
abbrev pub with_credits : Organization → ℤ → ℤ → ℤ → Db → Db
with_credits o granted used remaining d = record d {
  organizations = update org_key o.id (set_credits granted used remaining) d.organizations;
}

pub write_credits-ok :
    (o : Organization) (g u r : ℤ) (d : Db) {x : Unit {0}} {d' : Db}
    → write_credits o g u r d ≡ ok (x, d')
    → (d' ≡ with_credits o g u r d) × (in_range r ≡ true) × (pos 0 ≤ℤ u)
unfolding write_credits
write_credits-ok o g u r d h = ground arith

-- The database with a hold settled and its actual spend applied.
abbrev pub with_settlement : ℕ → Organization → CreditHold → ℤ → Db → Db
with_settlement now o h actual d =
    record (with_credits o o.credits_granted_micros (o.credits_used_micros +ℤ actual)
      (o.credits_remaining_micros +ℤ h.amount_micros -ℤ actual) d) {
        holds = update hold_key h.id (λ r. if is_open r then close_at now r else r) d.holds;
      }

settle_locked-ok :
    (link : Link) (now : ℕ) (o : Organization) (h : CreditHold) (actual : ℤ) (d : Db)
    {s : SettleResult} {d' : Db}
    → lookup hold_key h.id d.holds ≡ some h
    → settle_locked link now o h actual d ≡ ok (s, d')
    → ((is_open h ≡ false) × (s ≡ seen o h actual) × (d' ≡ d))
      ⊎ ((is_open h ≡ true) × (s ≡ settled o h actual) × (d' ≡ with_settlement now o h actual d))
unfolding settle_locked mark_settled apply_settlement_tx write_credits
settle_locked-ok link now o h actual d here e = ground arith

-- The spend that a settlement applies: a negative one counts as nothing.
abbrev pub spend : ℤ → ℤ
spend actual = if ltb_ℤ actual (pos 0) then pos 0 else actual

-- A settlement found an open hold of an organization, and has written `with_settlement`.
pub record Settles (now : ℕ) (hold_id : Str) (actual : ℤ) (d : Db) (s : SettleResult) (d' : Db)
    : Type 0 where
  pub org : Organization
  pub hold : CreditHold
  pub hold_found : lookup hold_key hold_id d.holds ≡ some hold
  pub org_found : lookup org_key hold.organization_id d.organizations ≡ some org
  pub was_open : is_open hold ≡ true
  pub answer : s ≡ settled org hold (spend actual)
  pub written : d' ≡ with_settlement now org hold (spend actual) d

-- A settlement left the database alone: the hold is missing, or was settled before.
pub record Leaves (hold_id : Str) (d : Db) (s : SettleResult) (d' : Db) : Type 0 where
  pub not_applied : s.applied ≡ false
  pub unchanged : d' ≡ d
  pub missing_or_settled :
      (hold_id ≡ [])
      ⊎ ((lookup hold_key hold_id d.holds ≡ none) × (s ≡ no_settlement))
      ⊎ ((h : CreditHold) × (lookup hold_key hold_id d.holds ≡ some h)
          × (is_open h ≡ false)
          × (s.found ≡ true)
          × (s.organization_id ≡ h.organization_id))

settle_found-ok :
    (link : Link) (now : ℕ) (h : CreditHold) (actual : ℤ) (d : Db) {s : SettleResult} {d' : Db}
    → lookup hold_key h.id d.holds ≡ some h
    → settle_found link now h actual d ≡ ok (s, d')
    → (o : Organization) × (lookup org_key h.organization_id d.organizations ≡ some o)
      × (settle_locked link now o h actual d ≡ ok (s, d'))
unfolding settle_found
settle_found-ok link now h actual d here e =
    elim (Option-cases (lookup org_key h.organization_id d.organizations)) [
      | inl missing ↦ ground arith
      | inr (o, found) ↦ (o, found, ground arith)
    ]

settle_some-ok :
    (link : Link) (now : ℕ) (hold_id : Str) (h : CreditHold) (actual : ℤ) (d : Db)
    {s : SettleResult} {d' : Db}
    → lookup hold_key hold_id d.holds ≡ some h
    → settle_found link now h (spend actual) d ≡ ok (s, d')
    → Settles now hold_id actual d s d' ⊎ Leaves hold_id d s d'
settle_some-ok link now hold_id h actual d {s} {d'} found e =
    let same : h.id ≡ hold_id = lookup_key hold_key hold_id d.holds found in
    let here : lookup hold_key h.id d.holds ≡ some h = cc in
    let (o, org_found, step) = settle_found-ok link now h (spend actual) d here e in
    elim (settle_locked-ok link now o h (spend actual) d here step) [
      | inl (shut, is_seen, kept) ↦ inr (record {
        not_applied = ap (λ (r : SettleResult). r.applied) is_seen;
        unchanged = kept;
        missing_or_settled = inr (
            inr (
              h,
              found,
              shut,
              ap (λ (r : SettleResult). r.found) is_seen,
              ap (λ (r : SettleResult). r.organization_id) is_seen,
            ));
      })
      | inr (opened, is_settled, changed) ↦ inl (record {
        org = o;
        hold = h;
        hold_found = found;
        org_found = org_found;
        was_open = opened;
        answer = is_settled;
        written = changed;
      })
    ]

pub settle_hold_tx-ok :
    (link : Link) (now : ℕ) (hold_id : Str) (actual : ℤ) (d : Db) {s : SettleResult} {d' : Db}
    → settle_hold_tx link now hold_id actual d ≡ ok (s, d')
    → Settles now hold_id actual d s d' ⊎ Leaves hold_id d s d'
unfolding settle_hold_tx
settle_hold_tx-ok link now [] actual d e =
    inr (record {
      not_applied = ground arith;
      unchanged = ground arith;
      missing_or_settled = inl refl;
    })
settle_hold_tx-ok link now (c ∷ cs) actual d e =
    elim (Option-cases (lookup hold_key (c ∷ cs) d.holds)) [
      | inl missing ↦ inr (record {
        not_applied = ground arith;
        unchanged = ground arith;
        missing_or_settled = inr (inl (missing, ground arith));
      })
      | inr (h, found) ↦ settle_some-ok link now (c ∷ cs) h actual d found (ground arith)
    ]
