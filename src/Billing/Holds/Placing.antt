-- ===== src/Billing/Holds/Placing.antt =====
-- internal/repositories/billing/hold.go: what the reclaim of an organization and PlaceHold do when they go
-- through.
use orbit_api.Common.{
  ℕ, ◌≡◌, inl, inr, true, false, none, some, ◌∷◌, [], ◌++◌, ◌+◌, ◌*◌, arith, Option-cases,
}
use orbit_api.Common.Int.{ℤ, pos, ◌+ℤ◌, ◌-ℤ◌, ◌≤ℤ◌}
use orbit_api.Common.Word.{in_range, sub64}
use orbit_api.Common.Str.{Str}
use orbit_api.Common.Table.{lookup, has}
use orbit_api.Common.Result.{ok, Result-cases}
use orbit_api.Store.{Organization, Db, org_key, hold_key, credits_allowed}
use orbit_api.Store.Tx.{Link}
use orbit_api.Billing.Holds.Steps.{with_credits}
use orbit_api.Billing.Holds.{
  Hold, HoldPlanner, write_credits, expired_sum, expired_count, settle_expired,
  reclaim_expired_holds_tx_count, hold_seconds, insert_credit_hold, debit_hold_tx,
  reclaim_expired_holds_tx, place_sized, size_hold, place_hold_tx,
}

-- The database with an organization's expired holds settled and their freezes given back.
abbrev pub with_reclaim : ℕ → Str → Organization → Db → Db
with_reclaim now org o d =
    record (with_credits o o.credits_granted_micros o.credits_used_micros
      (o.credits_remaining_micros +ℤ expired_sum org now d.holds) d) {
        holds = settle_expired org now d.holds;
      }

-- A reclaim that goes through has found its organization, and counts the holds that it settled.
pub record Reclaims (now : ℕ) (org : Str) (d : Db) (n : ℕ) (d' : Db) : Type 0 where
  pub owner : Organization
  pub owner_found : lookup org_key org d.organizations ≡ some owner
  pub counted : n ≡ expired_count org now d.holds
  pub fits : in_range (owner.credits_remaining_micros +ℤ expired_sum org now d.holds) ≡ true
  pub written : d' ≡ with_reclaim now org owner d

pub reclaim-ok :
    (link : Link) (now : ℕ) (org : Str) (d : Db) {n : ℕ} {d' : Db}
    → reclaim_expired_holds_tx_count link now org d ≡ ok (n, d')
    → Reclaims now org d n d'
unfolding reclaim_expired_holds_tx_count write_credits
reclaim-ok link now org d e = elim (Option-cases (lookup org_key org d.organizations)) [
  | inl missing ↦ ground arith
  | inr (o, found) ↦ record {
    owner = o;
    owner_found = found;
    counted = ground arith;
    fits = ground arith;
    written = ground arith;
  }
]

-- The database with a hold's amount taken from an organization, and the hold's row.
abbrev pub with_hold : ℕ → Str → Str → Organization → ℤ → ℕ → Db → Db
with_hold now hold_id org o amount seconds d =
    record (with_credits o o.credits_granted_micros o.credits_used_micros
      (o.credits_remaining_micros -ℤ amount) d) {
        holds =
            d.holds
            ++ (record {
              id = hold_id;
              organization_id = org;
              amount_micros = amount;
              created_at = now;
              expires_at = now + seconds * 1000000;
              settled_at = none;
            })
              ∷ [];
      }

-- A hold that the planner has sized from an organization's balance, and its row written.
pub record Sized (now : ℕ) (hold_id org : Str) (threshold ttl : ℤ) (o : Organization)
    (amount tokens : ℤ) (d : Db) (h : Hold) (d' : Db) : Type 0 where
  pub amount_positive : pos 1 ≤ℤ amount
  pub tokens_positive : pos 1 ≤ℤ tokens
  pub covered : amount ≤ℤ o.credits_remaining_micros
  pub reaches : threshold ≤ℤ o.credits_remaining_micros
  pub fresh : has hold_key hold_id d.holds ≡ false
  pub answer : h ≡ (record {
    id = hold_id;
    amount_micros = amount;
    max_tokens = tokens;
    organization_id = org;
    remaining_before_micros = o.credits_remaining_micros;
    remaining_after_micros = sub64 o.credits_remaining_micros amount;
  })
  pub fits : in_range (o.credits_remaining_micros -ℤ amount) ≡ true
  pub granted_fits : in_range o.credits_granted_micros ≡ true
  pub used_fits : in_range o.credits_used_micros ≡ true
  pub allowed : credits_allowed o ≡ true
  pub written : d' ≡ with_hold now hold_id org o amount (hold_seconds ttl) d

place_sized-ok :
    (link : Link) (now : ℕ) (hold_id org : Str) (threshold ttl : ℤ) (o : Organization)
    (amount tokens : ℤ) (d : Db) {h : Hold} {d' : Db}
    → place_sized link now hold_id org threshold ttl o amount tokens d ≡ ok (h, d')
    → Sized now hold_id org threshold ttl o amount tokens d h d'
unfolding place_sized debit_hold_tx write_credits insert_credit_hold
place_sized-ok link now hold_id org threshold ttl o amount tokens d e = record {
  amount_positive = ground arith;
  tokens_positive = ground arith;
  covered = ground arith;
  reaches = ground arith;
  fresh = ground arith;
  answer = ground arith;
  fits = ground arith;
  granted_fits = ground arith;
  used_fits = ground arith;
  allowed = ground arith;
  written = ground arith;
}

-- A hold that was placed: expired holds were reclaimed first, then the planner sized it from what
-- remained.
pub record Places (now : ℕ) (hold_id org : Str) (threshold ttl : ℤ) (plan : HoldPlanner) (d : Db)
    (h : Hold) (d' : Db) : Type 0 where
  pub reclaimed : Db
  pub count : ℕ
  pub reclaims : Reclaims now org d count reclaimed
  pub owner : Organization
  pub owner_found : lookup org_key org reclaimed.organizations ≡ some owner
  pub amount : ℤ
  pub tokens : ℤ
  pub planned : plan owner.credits_remaining_micros ≡ ok (amount, tokens)
  pub sized : Sized now hold_id org threshold ttl owner amount tokens reclaimed h d'

size_hold-ok :
    (link : Link) (now : ℕ) (hold_id org : Str) (threshold ttl : ℤ) (plan : HoldPlanner) (d : Db)
    {h : Hold} {d' : Db}
    → size_hold link now hold_id org threshold ttl plan d ≡ ok (h, d')
    → (o : Organization) × (amount : ℤ) × (tokens : ℤ) × (lookup org_key org d.organizations
        ≡ some o)
      × (plan o.credits_remaining_micros ≡ ok (amount, tokens))
      × (place_sized link now hold_id org threshold ttl o amount tokens d ≡ ok (h, d'))
unfolding size_hold
size_hold-ok link now hold_id org threshold ttl plan d e =
    elim (Option-cases (lookup org_key org d.organizations)) [
      | inl missing ↦ ground arith
      | inr (o, found) ↦ elim (Result-cases (plan o.credits_remaining_micros)) [
        | inl (p, planned) ↦ (o, p.0, p.1, found, planned, ground arith)
        | inr (x, refused) ↦ ground arith
      ]
    ]

reclaim_tx-ok :
    (link : Link) (now : ℕ) (org : Str) (d : Db) {x : Unit {0}} {d' : Db}
    → reclaim_expired_holds_tx link now org d ≡ ok (x, d')
    → (n : ℕ) × (reclaim_expired_holds_tx_count link now org d ≡ ok (n, d'))
unfolding reclaim_expired_holds_tx
reclaim_tx-ok link now org d e =
    elim (Result-cases (reclaim_expired_holds_tx_count link now org d)) [
      | inl (p, counted) ↦ (p.0, ground arith)
      | inr (x, refused) ↦ ground arith
    ]

place_hold_tx-parts :
    (link : Link) (now : ℕ) (hold_id org : Str) (threshold ttl : ℤ) (plan : HoldPlanner) (d : Db)
    {h : Hold} {d' : Db}
    → place_hold_tx link now hold_id org threshold ttl plan d ≡ ok (h, d')
    → (d1 : Db) × (reclaim_expired_holds_tx link now org d ≡ ok (tt, d1))
      × (size_hold link now hold_id org threshold ttl plan d1 ≡ ok (h, d'))
unfolding place_hold_tx
place_hold_tx-parts link now hold_id org threshold ttl plan d e =
    elim (Result-cases (reclaim_expired_holds_tx link now org d)) [
      | inl (p, done) ↦ (p.1, ground arith, ground arith)
      | inr (x, refused) ↦ ground arith
    ]

pub place_hold_tx-ok :
    (link : Link) (now : ℕ) (hold_id org : Str) (threshold ttl : ℤ) (plan : HoldPlanner) (d : Db)
    {h : Hold} {d' : Db}
    → place_hold_tx link now hold_id org threshold ttl plan d ≡ ok (h, d')
    → Places now hold_id org threshold ttl plan d h d'
place_hold_tx-ok link now hold_id org threshold ttl plan d e =
    let (d1, reclaim, size) = place_hold_tx-parts link now hold_id org threshold ttl plan d e in
    let (n, counted) = reclaim_tx-ok link now org d reclaim in
    let (o, amount, tokens, found, planned, placed) =
      size_hold-ok link now hold_id org threshold ttl plan d1 size in
    record {
      reclaimed = d1;
      count = n;
      reclaims = reclaim-ok link now org d counted;
      owner = o;
      owner_found = found;
      amount = amount;
      tokens = tokens;
      planned = planned;
      sized = place_sized-ok link now hold_id org threshold ttl o amount tokens d1 placed;
    }
