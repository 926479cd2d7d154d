-- ===== src/Invoices.antt =====
-- internal/repositories/invoice/repository.go: the invoices of organizations, one for each payment.
pub mod Merge
use orbit_api.Common.{
  ℕ, ◌+◌, ◌-◌, Bool, true, false, Option, none, some, List, [], ◌∷◌, ◌++◌, ◌&&◌, not, ltb, ◌==◌,
  if◌then◌else◌,
}
use orbit_api.Common.Int.{ℤ, pos, ltb_ℤ}
use orbit_api.Common.Str.{Str, codes, str_eq, is_empty}
use orbit_api.Common.Table.{lookup, update, has}
use orbit_api.Common.Result.{Result, ok, err}
use orbit_api.Store.{Invoice, Db, org_key, invoice_key}
use orbit_api.Store.Tx.{
  Link, Error, required, not_answered, out_of_range, violates, foreign_key, upsert_invoice,
  select_invoices, select_invoice, update_refund,
}
use orbit_api.Billing.Ledger.{fits_integer}
use orbit_api.Webhook.Text.{trim_space, to_upper}

-- A time that is not given is the zero time.
pub record UpsertParams : Type 0 where
  pub organization_id : Str
  pub payment_id : Str
  pub invoice_id : Str
  pub plan_slug : Str
  pub amount : ℤ
  pub currency : Str
  pub status : Str
  pub refund_status : Str
  pub subscription_id : Str
  pub paid_at : Option ℕ

-- COALESCE(NULLIF(new, ''), old) and CASE WHEN new <> '' THEN new ELSE old END
abbrev pub or_else : Str → Str → Str
or_else new old = if is_empty new then old else new

-- The row of VALUES.
unfoldable pub excluded : ℕ → UpsertParams → Invoice
excluded now p = record {
  organization_id = p.organization_id;
  payment_id = trim_space p.payment_id;
  invoice_id = trim_space p.invoice_id;
  plan_slug = trim_space p.plan_slug;
  amount = p.amount;
  currency = or_else (to_upper (trim_space p.currency)) (codes "USD");
  status = or_else (trim_space p.status) (codes "succeeded");
  refund_status = trim_space p.refund_status;
  subscription_id = trim_space p.subscription_id;
  paid_at = elim p.paid_at [ none ↦ now | some t ↦ t ];
}

-- ON CONFLICT (payment_id) DO UPDATE
unfoldable pub merge_invoice : Invoice → Invoice → Invoice
merge_invoice new old = record old {
  invoice_id = or_else new.invoice_id old.invoice_id;
  plan_slug = or_else new.plan_slug old.plan_slug;
  amount = if ltb_ℤ (pos 0) new.amount then new.amount else old.amount;
  currency = or_else new.currency old.currency;
  status = or_else new.status old.status;
  refund_status = or_else new.refund_status old.refund_status;
  subscription_id = or_else new.subscription_id old.subscription_id;
}

unfoldable pub write_invoice : Invoice → Db → Result Error (Unit {0}) × Db
write_invoice row d =
    if not (fits_integer row.amount)
    then (err out_of_range, d)
    else if not (has org_key row.organization_id d.organizations)
    then (err (violates foreign_key), d)
    else (
      ok tt,
      record d {
        invoices =
            if has invoice_key row.payment_id d.invoices
            then update invoice_key row.payment_id (merge_invoice row) d.invoices
            else d.invoices ++ row ∷ [];
      },
    )

unfoldable pub upsert : Link → ℕ → UpsertParams → Db → Result Error (Unit {0}) × Db
upsert link now p d =
    if is_empty (trim_space p.organization_id)
    then (err required, d)
    else if is_empty (trim_space p.payment_id)
    then (err required, d)
    else if link upsert_invoice
    then (err (not_answered upsert_invoice), d)
    else write_invoice (excluded now p) d

unfoldable pub get_by_payment : Link → Str → Db → Result Error (Option Invoice)
get_by_payment link payment_id d =
    if link select_invoice
    then err (not_answered select_invoice)
    else ok (lookup invoice_key payment_id d.invoices)

abbrev pub set_refund : Str → Invoice → Invoice
set_refund status i = record i { refund_status = status }

unfoldable pub update_refund_status : Link → Str → Str → Db → Result Error Bool × Db
update_refund_status link payment_id refund_status d =
    let id = trim_space payment_id in
    let status = trim_space refund_status in
    if is_empty id
    then (ok false, d)
    else if is_empty status
    then (ok false, d)
    else if link update_refund
    then (err (not_answered update_refund), d)
    else (
      ok (has invoice_key id d.invoices),
      record d { invoices = update invoice_key id (set_refund status) d.invoices },
    )

pub record SubscriptionRef : Type 0 where
  pub id : Str
  pub plan_slug : Str

-- ORDER BY subscription_id, by code points.
unfoldable pub before : Str → Str → Bool
before [] [] = false
before [] (y ∷ ys) = true
before (x ∷ xs) [] = false
before (x ∷ xs) (y ∷ ys) = if x == y then before xs ys else ltb x y

-- DISTINCT ON (subscription_id) … ORDER BY subscription_id, paid_at DESC: the latest invoice of each
-- subscription.
unfoldable pub insert_latest : Invoice → List Invoice → List Invoice
insert_latest i [] = i ∷ []
insert_latest i (j ∷ js) =
    let rest = insert_latest i js in
    if str_eq i.subscription_id j.subscription_id
    then (if ltb j.paid_at i.paid_at then i else j) ∷ js
    else if before i.subscription_id j.subscription_id
    then i ∷ j ∷ js
    else j ∷ rest

unfoldable pub latest_each : Str → List Invoice → List Invoice
latest_each org [] = []
latest_each org (i ∷ is) =
    let rest = latest_each org is in
    if str_eq i.organization_id org && not (is_empty i.subscription_id)
    then insert_latest i rest
    else rest

-- The rows as they are scanned, without those whose id is blank.
unfoldable pub scan_refs : List Invoice → List SubscriptionRef
scan_refs [] = []
scan_refs (i ∷ is) =
    let rest = scan_refs is in
    if is_empty (trim_space i.subscription_id)
    then rest
    else (record { id = trim_space i.subscription_id; plan_slug = trim_space i.plan_slug }) ∷ rest

unfoldable pub subscriptions_for_org : Link → Str → Db → Result Error (List SubscriptionRef)
subscriptions_for_org link org d =
    if is_empty (trim_space org)
    then ok []
    else if link select_invoices
    then err (not_answered select_invoices)
    else ok (scan_refs (latest_each (trim_space org) d.invoices))
