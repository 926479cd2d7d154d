-- ===== src/Webhook/Grants/Once.antt =====
-- internal/services/webhook/dodo.go: a period's credits are granted once, however often and by
-- whichever of its events a subscription is reported.
use orbit_api.Common.{
  ℕ, ◌≡◌, refl, ap, ◌∙◌, ◌⊎◌, inl, inr, Bool, true, false, List, ◌++◌, ◌&&◌, not, arith, Bool-cases,
  if◌then◌else◌,
}
use orbit_api.Common.Int.{pos, ltb_ℤ}
use orbit_api.Common.Str.{Str, codes, str_eq, str_eq_refl, is_empty}
use orbit_api.Common.Table.{has, has-append}
use orbit_api.Common.Result.{ok, Result-cases}
use orbit_api.Store.{Db, CreditLedgerEntry, entry_key}
use orbit_api.Store.Tx.{Link, transact-eq-ok, transact_kept}
use orbit_api.Billing.Ledger.{GrantParams, grant_credits, grant_on, grant_row}
use orbit_api.Billing.Ledger.Steps.{grant_on-ok}
use orbit_api.Webhook.Text.{trim_space}
use orbit_api.Webhook.Subscription.{subscription_grant_key}
use orbit_api.Webhook.Grants.{
  GrantEvent, legacy_key, legacy_granted, has_idempotency_key, grant_params, grant_period,
}

-- A grant whose key is in the ledger writes nothing.
pub grant_credits_taken :
    (link : Link) (now : ℕ) (p : GrantParams) (d : Db)
    → has entry_key p.idempotency_key d.ledger ≡ true
    → (grant_credits link now p d).1 ≡ d
unfolding grant_credits
grant_credits_taken link now p d taken = transact_kept link (grant_on link now p) d (λ x d' e.
    elim (grant_on-ok link now p d e) [
      | inl (kept, t) ↦ kept
      | inr (o, found, fresh, positive, written) ↦ cc (taken, fresh)
    ])

-- A grant that goes through leaves its key in the ledger.
pub grant_credits-has :
    (link : Link) (now : ℕ) (p : GrantParams) (d : Db) {x : Unit {0}} {d' : Db}
    → grant_credits link now p d ≡ (ok x, d')
    → has entry_key p.idempotency_key d'.ledger ≡ true
unfolding grant_credits
grant_credits-has link now p d {x} {d'} e =
    elim (grant_on-ok link now p d (transact-eq-ok link (grant_on link now p) d e)) [
      | inl (kept, taken) ↦ rw kept taken
      | inr (o, found, fresh, positive, written) ↦ rw written (
          has-append entry_key p.idempotency_key (grant_row now p) d.ledger
          ∙ (ground (arith, str_eq_refl p.idempotency_key)))
    ]

abbrev pub plan_key : GrantEvent → Str
plan_key v =
    codes "dodo_period:" ++ v.subscription_id ++ codes ":" ++ v.plan_slug ++ codes ":" ++ v.period

-- The two keys that a named subscription's period may have.
grant_key_of :
    (v : GrantEvent) (current : Str) (legacy : Bool)
    → is_empty v.subscription_id ≡ false
    → is_empty v.plan_slug ≡ false
    → (grant_params v current legacy).idempotency_key
      ≡ (if str_eq v.plan_slug current && legacy then legacy_key v else plan_key v)
unfolding subscription_grant_key
grant_key_of v current legacy named planned = ground (arith, named, planned)

has-choice :
    (c : Bool) (j k : Str) (es : List CreditLedgerEntry)
    → has entry_key (if c then j else k) es ≡ (if c then has entry_key j es else has entry_key k es)
has-choice true j k es = refl
has-choice false j k es = refl

-- The answer about the legacy key is the ledger's.
legacy_granted-has :
    (link : Link) (v : GrantEvent) (d : Db) {b : Bool}
    → legacy_granted link v d ≡ ok b
    → is_empty v.subscription_id ≡ false
    → trim_space (legacy_key v) ≡ legacy_key v
    → b ≡ has entry_key (legacy_key v) d.ledger
unfolding legacy_granted has_idempotency_key
legacy_granted-has link v d {b} e named trimmed =
    let blank : is_empty (trim_space (legacy_key v)) ≡ false = ap is_empty trimmed in
    let there : has entry_key (trim_space (legacy_key v)) d.ledger
        ≡ has entry_key (legacy_key v) d.ledger =
      ap (λ (k : Str). has entry_key k d.ledger) trimmed in
    ground (arith, e, named, blank, there)

abbrev of_type : Str → GrantEvent → GrantEvent
of_type t v = record v { event_type = t }

-- A call that goes through had nothing to grant, or has put its key into the ledger.
grant_period-ok :
    (link : Link) (now : ℕ) (v : GrantEvent) (current : Str) (d : Db) {x : Unit {0}} {d' : Db}
    → grant_period link now v current d ≡ (ok x, d')
    → ((ltb_ℤ (pos 0) v.credits_micros && not (is_empty v.plan_slug)) ≡ false)
      ⊎ ((is_empty v.plan_slug ≡ false)
          × (b : Bool) × (legacy_granted link v d ≡ ok b)
          × (has entry_key (grant_params v current b).idempotency_key d'.ledger ≡ true))
unfolding grant_period
grant_period-ok link now v current d {x} {d'} e =
    elim (Bool-cases (ltb_ℤ (pos 0) v.credits_micros && not (is_empty v.plan_slug))) [
      | inr nothing ↦ inl nothing
      | inl due ↦ elim (Result-cases (legacy_granted link v d)) [
        | inl (b, went) ↦ inr (
          ground (arith, due),
          b,
          went,
          grant_credits-has link now (grant_params v current b) d {x = x} {d' = d'}
              (ground (arith, e, due, went)),
        )
        | inr (y, failed) ↦ ground (arith, e, due, failed)
      ]
    ]

grant_period_idle :
    (link : Link) (now : ℕ) (v : GrantEvent) (current : Str) (d : Db)
    → (ltb_ℤ (pos 0) v.credits_micros && not (is_empty v.plan_slug)) ≡ false
    → (grant_period link now v current d).1 ≡ d
unfolding grant_period
grant_period_idle link now v current d nothing = ground (arith, nothing)

-- A call whose key, whatever the ledger says about the legacy key, is in the ledger.
grant_period_taken :
    (link : Link) (now : ℕ) (v : GrantEvent) (current : Str) (d : Db)
    → ((b : Bool)
        → legacy_granted link v d ≡ ok b
        → has entry_key (grant_params v current b).idempotency_key d.ledger ≡ true)
    → (grant_period link now v current d).1 ≡ d
unfolding grant_period
grant_period_taken link now v current d taken = elim (Result-cases (legacy_granted link v d)) [
  | inl (b, went) ↦
      let kept = grant_credits_taken link now (grant_params v current b) d (taken b went) in
      ground (arith, went, kept)
  | inr (y, failed) ↦ ground (arith, failed)
]

-- The second key, where the first is in the ledger.
second_key :
    (v : GrantEvent) (t current current' : Str) (b b' : Bool) (d : Db)
    → is_empty v.subscription_id ≡ false
    → is_empty v.plan_slug ≡ false
    → has entry_key (grant_params v current b).idempotency_key d.ledger ≡ true
    → b' ≡ has entry_key (legacy_key v) d.ledger
    → (str_eq v.plan_slug current' ≡ true) ⊎ (b ≡ false)
    → has entry_key (grant_params (of_type t v) current' b').idempotency_key d.ledger ≡ true
second_key v t current current' b b' d named planned first legacy attached =
    let there = λ (k : Str). has entry_key k d.ledger in
    let one =
      ap there (grant_key_of v current b named planned)
      ∙ has-choice (str_eq v.plan_slug current && b) (legacy_key v) (plan_key v) d.ledger in
    let two =
      ap there (grant_key_of (of_type t v) current' b' named planned)
      ∙ has-choice (str_eq v.plan_slug current' && b') (legacy_key v) (plan_key v) d.ledger in
    two ∙ elim (Bool-cases (str_eq v.plan_slug current' && b')) [
      | inl old ↦ ground (arith, old, legacy)
      | inr new ↦ elim (Bool-cases (str_eq v.plan_slug current && b)) [
        | inl was_old ↦ ground (arith, one, first, new, was_old, legacy, attached)
        | inr was_new ↦ ground (arith, one, first, new, was_new)
      ]
    ]

-- With no grant under the key without a plan, a call that had something to grant leaves the key with
-- the plan.
pub grant_period_leaves :
    (link : Link) (now : ℕ) (v : GrantEvent) (current : Str) (d : Db) {x : Unit {0}} {d' : Db}
    → grant_period link now v current d ≡ (ok x, d')
    → (ltb_ℤ (pos 0) v.credits_micros && not (is_empty v.plan_slug)) ≡ true
    → is_empty v.subscription_id ≡ false
    → trim_space (legacy_key v) ≡ legacy_key v
    → has entry_key (legacy_key v) d.ledger ≡ false
    → has entry_key (plan_key v) d'.ledger ≡ true
grant_period_leaves link now v current d {x} {d'} e due named trimmed absent =
    elim (grant_period-ok link now v current d e) [
      | inl nothing ↦ cc (due, nothing)
      | inr (planned, b, asked, there) ↦
          let fresh : b ≡ false = legacy_granted-has link v d asked named trimmed ∙ absent in
          let key = grant_key_of v current b named planned in
          let same =
            ap (λ (k : Str). has entry_key k d'.ledger) key
            ∙ has-choice (str_eq v.plan_slug current && b) (legacy_key v) (plan_key v) d'.ledger in
          ground (arith, fresh, same, there)
    ]

-- While the key with the plan is in the ledger, no call writes.
pub grant_period_again :
    (link : Link) (now : ℕ) (v : GrantEvent) (current : Str) (d : Db)
    → is_empty v.subscription_id ≡ false
    → trim_space (legacy_key v) ≡ legacy_key v
    → has entry_key (plan_key v) d.ledger ≡ true
    → (grant_period link now v current d).1 ≡ d
grant_period_again link now v current d named trimmed there =
    elim (Bool-cases (ltb_ℤ (pos 0) v.credits_micros && not (is_empty v.plan_slug))) [
      | inr nothing ↦ grant_period_idle link now v current d nothing
      | inl due ↦ grant_period_taken link now v current d (λ b asked.
          let planned : is_empty v.plan_slug ≡ false = ground (arith, due) in
          let old = legacy_granted-has link v d asked named trimmed in
          let same =
            ap (λ (k : Str). has entry_key k d.ledger) (grant_key_of v current b named planned)
            ∙ has-choice (str_eq v.plan_slug current && b) (legacy_key v) (plan_key v) d.ledger in
          ground (arith, same, old, there))
    ]

-- A period's credits are granted once: after a grant for a named subscription has gone through, the
-- same report leaves the database as it is when it comes again, as an event of any type, if by then
-- the organization has the plan, or if before there was no grant under the key without a plan. (The
-- key has no space around it.)
pub grant_period_once :
    (link link' : Link) (now now' : ℕ) (v : GrantEvent) (t current current' : Str) (d : Db)
    {x : Unit {0}} {d' : Db}
    → grant_period link now v current d ≡ (ok x, d')
    → is_empty v.subscription_id ≡ false
    → trim_space (legacy_key v) ≡ legacy_key v
    → (str_eq v.plan_slug current' ≡ true) ⊎ (has entry_key (legacy_key v) d.ledger ≡ false)
    → (grant_period link' now' (record v { event_type = t }) current' d').1 ≡ d'
grant_period_once link link' now now' v t current current' d {x} {d'} e named trimmed attached =
    elim (grant_period-ok link now v current d e) [
      | inl nothing ↦ grant_period_idle link' now' (of_type t v) current' d' nothing
      | inr (planned, b, asked, there) ↦
          let was = legacy_granted-has link v d asked named trimmed in
          grant_period_taken link' now' (of_type t v) current' d' (λ b' asked'.
            second_key v t current current' b b' d' named planned there
              (legacy_granted-has link' (of_type t v) d' asked' named trimmed)
              (elim attached [ inl a ↦ inl a | inr f ↦ inr (was ∙ f) ]))
    ]
