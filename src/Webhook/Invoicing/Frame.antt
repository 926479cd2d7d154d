-- ===== src/Webhook/Invoicing/Frame.antt =====
-- What keeps a property of the database that does not look at invoices: the calls of
-- internal/repositories/invoice/repository.go, and the functions of
-- internal/services/webhook/dodo.go that record an invoice.
use orbit_api.Common.{ℕ, List, not}
use orbit_api.Common.Str.{Str, is_empty}
use orbit_api.Common.Table.{has}
use orbit_api.Common.Branches.{if_either}
use orbit_api.Common.Result.{Result}
use orbit_api.Store.{Invoice, Db, org_key}
use orbit_api.Store.Tx.{Link, Error, upsert_invoice, update_refund}
use orbit_api.Billing.Ledger.{fits_integer}
use orbit_api.Invoices.{UpsertParams, excluded, write_invoice, upsert, update_refund_status}
use orbit_api.Webhook.Text.{trim_space}
use orbit_api.Webhook.Object.{DodoObject}
use orbit_api.Webhook.Invoicing.{record_invoice, record_latest, record_subscription_invoice}
use orbit_api.Webhook.Act.{Env}
use orbit_api.Webhook.Act.Inverse.{Quiet, choose-Quiet, when_some-Quiet, pure-Quiet, run-Quiet}
use orbit_api.Webhook.Act.Keeps.{Keeps, pure-Keeps, choose-Keeps, when_some-Keeps, run-Keeps}

module _ (P : Db → Type 0)
    (blind : (d : Db) (is : List Invoice) → P d → P (record d { invoices = is })) where
  abbrev At : {A : Type 0} → Result Error A × Db → Type 0
  At r = P r.1

  pub upsert_keeps :
      (link : Link) (now : ℕ) (p : UpsertParams) (d : Db) → P d → P (upsert link now p d).1
  unfolding upsert write_invoice
  upsert_keeps link now p d h = if_either At (is_empty (trim_space p.organization_id)) h (
      if_either At (is_empty (trim_space p.payment_id)) h (
        if_either At (link upsert_invoice) h (
          if_either At (not (fits_integer (excluded now p).amount)) h (
            if_either At (not (has org_key (excluded now p).organization_id d.organizations)) h
              (blind d _ h)))))

  pub update_refund_status_keeps :
      (link : Link) (payment_id status : Str) (d : Db)
      → P d
      → P (update_refund_status link payment_id status d).1
  unfolding update_refund_status
  update_refund_status_keeps link payment_id status d h =
      if_either At (is_empty (trim_space payment_id)) h (
        if_either At (is_empty (trim_space status)) h
          (if_either At (link update_refund) h (blind d _ h)))

  pub record_invoice-Keeps :
      (env : Env) (org plan : Str) (obj : DodoObject) → Keeps P (record_invoice env org plan obj)
  unfolding record_invoice
  record_invoice-Keeps env org plan obj =
      choose-Keeps _ (pure-Keeps tt)
        (choose-Keeps _ (pure-Keeps tt) (run-Keeps _ (upsert_keeps env.link env.now _)))

  pub record_subscription_invoice-Keeps :
      (env : Env) (org plan : Str) (obj : DodoObject)
      → Keeps P (record_subscription_invoice env org plan obj)
  unfolding record_subscription_invoice record_latest
  record_subscription_invoice-Keeps env org plan obj =
      choose-Keeps _
        (choose-Keeps _ (pure-Keeps tt)
          (when_some-Keeps _ (λ v. record_invoice-Keeps env _ plan _) (pure-Keeps tt)))
        (record_invoice-Keeps env org plan obj)

pub record_invoice-Quiet :
    (env : Env) (org plan : Str) (obj : DodoObject) → Quiet (record_invoice env org plan obj)
unfolding record_invoice
record_invoice-Quiet env org plan obj =
    choose-Quiet _ (pure-Quiet tt) (choose-Quiet _ (pure-Quiet tt) (run-Quiet _))

pub record_subscription_invoice-Quiet :
    (env : Env) (org plan : Str) (obj : DodoObject)
    → Quiet (record_subscription_invoice env org plan obj)
unfolding record_subscription_invoice record_latest
record_subscription_invoice-Quiet env org plan obj =
    choose-Quiet _
      (choose-Quiet _ (pure-Quiet tt)
        (when_some-Quiet _ (λ v. record_invoice-Quiet env _ plan _) (pure-Quiet tt)))
      (record_invoice-Quiet env org plan obj)
