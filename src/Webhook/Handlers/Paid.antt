-- ===== src/Webhook/Handlers/Paid.antt =====
-- handlePaymentSucceeded of internal/services/webhook/dodo.go, when its event is delivered twice.
use orbit_api.Common.{◌≡◌, ap, ◌⊎◌, inl, inr, Bool-cases, true, false, arith, [], ◌∷◌, ◌||◌}
use orbit_api.Common.Int.{pos, leb_ℤ}
use orbit_api.Common.Str.{is_empty}
use orbit_api.Common.Table.{has}
use orbit_api.Common.Result.{Result, ok}
use orbit_api.Store.{Db, entry_key}
use orbit_api.Store.Tx.{Error, payment_id_missing}
use orbit_api.Billing.Ledger.{grant_credits}
use orbit_api.Webhook.Text.{first_non_empty}
use orbit_api.Webhook.Grants.Once.{grant_credits_taken, grant_credits-has}
use orbit_api.Webhook.Object.{DodoObject}
use orbit_api.Webhook.Resolve.{Grant, resolve_grant}
use orbit_api.Webhook.Act.{Env, World, choose}
use orbit_api.Webhook.Act.Keeps.{
  Keeps, kept_ok, choose_then-Keeps, query_then-Keeps, then-Keeps, both-Keeps, fail-Keeps,
  run-Keeps,
}
use orbit_api.Webhook.Act.Inverse.{query_inverse, run_inverse}
use orbit_api.Webhook.Handlers.{
  payment_grant, grant_payment, handle_one_time_payment, payment_as, handle_payment_succeeded,
}
use orbit_api.Webhook.Invoicing.Frame.{record_invoice-Keeps}
use orbit_api.Webhook.Handlers.Frame.{Blind, attach_plan_keeps, handle_subscription_payment-Keeps}
use orbit_api.Webhook.Handlers.Accounts.{SameAccounts, unchanged_accounts, SameAccounts-Blind}

-- The credits of a payment are granted where it is no subscription's, and where there are an
-- organization, credits and the payment's id.
abbrev Due : DodoObject → Grant → Type 0
Due obj g =
    (is_empty (first_non_empty (obj.subscription_id ∷ [])) ≡ true)
    × ((is_empty g.organization_id || leb_ℤ g.credits_micros (pos 0)) ≡ false)
    × (is_empty (first_non_empty (obj.payment_id ∷ obj.id ∷ [])) ≡ false)

module _ (P : Db → Type 0) (blind : Blind P) (env : Env) (obj : DodoObject) where
  -- What keeps `P` but for the grant.
  grant_payment-Keeps :
      (g : Grant)
      → ((d : Db) → P d → P (grant_credits env.link env.now (payment_grant obj g) d).1)
      → Keeps P (grant_payment env obj g)
  unfolding grant_payment
  grant_payment-Keeps g grants = then-Keeps (run-Keeps _ grants) (
      both-Keeps (record_invoice-Keeps P blind.invoices env _ _ obj)
        (run-Keeps _ (attach_plan_keeps P blind env.link _ _)))

  pub payment_as-Keeps :
      (g : Grant)
      → (Due obj g → (d : Db) → P d → P (grant_credits env.link env.now (payment_grant obj g) d).1)
      → Keeps P (payment_as env obj g)
  unfolding payment_as handle_one_time_payment
  payment_as-Keeps g grants =
      choose_then-Keeps _
        (λ alone.
          choose_then-Keeps _ (λ idle. record_invoice-Keeps P blind.invoices env _ _ obj)
            (λ due.
              choose_then-Keeps _ (λ unnamed. fail-Keeps payment_id_missing)
                (λ named. grant_payment-Keeps g (grants (alone, due, named)))))
        (λ subscribed. handle_subscription_payment-Keeps P blind env obj g)

  pub handle_payment-Keeps :
      ((g : Grant) (d : Db)
        → P d
        → resolve_grant env obj d ≡ ok g
        → Due obj g
        → (d' : Db) → P d'
        → P (grant_credits env.link env.now (payment_grant obj g) d').1)
      → Keeps P (handle_payment_succeeded env obj)
  unfolding handle_payment_succeeded
  handle_payment-Keeps grants =
      query_then-Keeps (resolve_grant env obj) (λ g d p e. payment_as-Keeps g (grants g d p e))

-- The payment's key is in the ledger.
abbrev Credited : DodoObject → Grant → Db → Type 0
Credited obj g d = has entry_key (payment_grant obj g).idempotency_key d.ledger ≡ true

Credited-Blind : (obj : DodoObject) (g : Grant) → Blind (Credited obj g)
Credited-Blind obj g = record {
  invoices = λ d is s. s;
  plan = λ d org slug s. s;
  subscription = λ d org id s. s;
}

-- A payment that is due and was handled to the end is in the ledger.
first_credits :
    (env : Env) (obj : DodoObject) (g : Grant) (w : World) {x : Unit {0}} {w' : World}
    → Due obj g
    → payment_as env obj g w ≡ (ok x, w')
    → Credited obj g w'.db
unfolding payment_as handle_one_time_payment grant_payment choose
first_credits env obj g w {x} {w'} (alone, due, named) e =
    let granted : grant_payment env obj g w ≡ (ok x, w') = ground (arith, alone, due, named, e) in
    let p = payment_grant obj g in
    let (went, rest) = run_inverse (grant_credits env.link env.now p) _ w granted in
    let d1 = (grant_credits env.link env.now p w.db).1 in
    let whole = ap (λ (r : Result Error (Unit {0})). (r, d1)) went in
    kept_ok _
      (both-Keeps (record_invoice-Keeps _ (Credited-Blind obj g).invoices env _ _ obj)
        (run-Keeps _ (attach_plan_keeps _ (Credited-Blind obj g) env.link _ _)))
      (grant_credits-has env.link env.now p w.db {x = tt} {d' = d1} whole) rest

-- A payment that is handled to the end is in the ledger, or no credits have moved.
first_delivery :
    (env : Env) (obj : DodoObject) (g : Grant) (w : World) {x : Unit {0}} {w' : World}
    → payment_as env obj g w ≡ (ok x, w')
    → SameAccounts w.db w'.db ⊎ Credited obj g w'.db
first_delivery env obj g w {x} {w'} e =
    let idle = is_empty g.organization_id || leb_ℤ g.credits_micros (pos 0) in
    let undue : (Due obj g → ⊥) → SameAccounts w.db w'.db = λ none.
      kept_ok w
        (payment_as-Keeps (SameAccounts w.db) (SameAccounts-Blind w.db) env obj g
          (λ due. absurd (none due)))
        (unchanged_accounts w.db) e in
    elim (Bool-cases (is_empty (first_non_empty (obj.subscription_id ∷ [])))) [
      | inr subscribed ↦ inl (undue (λ due. cc (subscribed, due.0)))
      | inl alone ↦ elim (Bool-cases idle) [
        | inl spare ↦ inl (undue (λ due. cc (spare, due.1)))
        | inr owing ↦
            elim (Bool-cases (is_empty (first_non_empty (obj.payment_id ∷ obj.id ∷ [])))) [
              | inl unnamed ↦ inl (undue (λ due. cc (unnamed, due.2)))
              | inr named ↦
                  inr (first_credits env obj g w {x = x} {w' = w'} (alone, owing, named) e)
            ]
      ]
    ]

-- A payment is credited once: when its event has been handled to the end and is handled again, one of
-- the two runs leaves all credits, holds, requests, ledger entries and plans as they are, whatever the
-- provider and the database answer the second time, and at whatever time that is.
pub handle_payment_succeeded_once :
    (env env' : Env) (obj : DodoObject) (w : World) {x : Unit {0}} {w' : World}
    → handle_payment_succeeded env obj w ≡ (ok x, w')
    → SameAccounts w.db w'.db ⊎ SameAccounts w'.db (handle_payment_succeeded env' obj w').1.db
unfolding handle_payment_succeeded
handle_payment_succeeded_once env env' obj w {x} {w'} e =
    let (g, resolved, e1) = query_inverse (resolve_grant env obj) _ w e in
    elim (first_delivery env obj g w {x = x} {w' = w'} e1) [
      | inl same ↦ inl same
      | inr there ↦ inr (
          (handle_payment-Keeps (SameAccounts w'.db) (SameAccounts-Blind w'.db) env' obj
              (λ g' d p r due d' p'.
                rw
                  (grant_credits_taken env'.link env'.now (payment_grant obj g') d'
                    (rw p'.ledger there))
                  p')).kept
            w' (unchanged_accounts w'.db))
    ]
