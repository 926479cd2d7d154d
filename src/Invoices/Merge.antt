-- ===== src/Invoices/Merge.antt =====
-- Upsert of internal/repositories/invoice/repository.go, called again.
use orbit_api.Common.{
  ℕ, ◌≡◌, refl, ap, ◌∙◌, inl, inr, true, arith, List, [], ◌∷◌, ◌++◌, not, Bool-cases, if◌then◌else◌,
}
use orbit_api.Common.Str.{Str, is_empty, str_eq_refl}
use orbit_api.Common.Table.{has, update, has-update, has-append, update_twice, update-append_same}
use orbit_api.Common.Branches.{if_either}
use orbit_api.Common.Result.{Result, ok}
use orbit_api.Store.{Invoice, Db, org_key, invoice_key}
use orbit_api.Store.Tx.{Link, Error, upsert_invoice}
use orbit_api.Billing.Ledger.{fits_integer}
use orbit_api.Invoices.{UpsertParams, or_else, excluded, merge_invoice, write_invoice, upsert}
use orbit_api.Webhook.Text.{trim_space}

or_else_twice : (new old : Str) → or_else new (or_else new old) ≡ or_else new old
or_else_twice new old = ground arith

or_else_self : (s : Str) → or_else s s ≡ s
or_else_self s = ground arith

-- Merging the same values again changes nothing, at whatever time.
merge_twice :
    (now now' : ℕ) (p : UpsertParams) (old : Invoice)
    → merge_invoice (excluded now' p) (merge_invoice (excluded now p) old)
      ≡ merge_invoice (excluded now p) old
unfolding merge_invoice excluded
merge_twice now now' p old = ground arith

merge_self :
    (now now' : ℕ) (p : UpsertParams)
    → merge_invoice (excluded now' p) (excluded now p) ≡ excluded now p
unfolding merge_invoice excluded
merge_self now now' p = ground arith

-- The rows after a write.
abbrev rows_with : ℕ → UpsertParams → List Invoice → List Invoice
rows_with now p is =
    if has invoice_key (trim_space p.payment_id) is
    then update invoice_key (trim_space p.payment_id) (merge_invoice (excluded now p)) is
    else is ++ excluded now p ∷ []

rows_twice :
    (now now' : ℕ) (p : UpsertParams) (is : List Invoice)
    → rows_with now' p (rows_with now p is) ≡ rows_with now p is
unfolding excluded merge_invoice
rows_twice now now' p is =
    let k = trim_space p.payment_id in
    let f = merge_invoice (excluded now p) in
    elim (Bool-cases (has invoice_key k is)) [
      | inl there ↦
          let again = has-update invoice_key k k f is (λ r. refl) in
          let same =
            update_twice invoice_key k f (merge_invoice (excluded now' p)) is (λ r. refl)
              (merge_twice now now' p) in
          rw there (rw again (rw there same))
      | inr fresh ↦
          let now_there : has invoice_key k (is ++ excluded now p ∷ []) ≡ true =
            has-append invoice_key k (excluded now p) is ∙ (ground (arith, fresh, str_eq_refl k)) in
          let same =
            update-append_same invoice_key k (merge_invoice (excluded now' p)) (excluded now p) is
              fresh (merge_self now now' p) in
          rw fresh (rw now_there same)
    ]

-- An upsert is idempotent: after it has gone through, the same values again, with no other write between
-- the two, leave the database as it is, whatever the time is then and whether or not the second goes
-- through.
pub upsert_once :
    (link link' : Link) (now now' : ℕ) (p : UpsertParams) (d : Db) {x : Unit {0}} {d' : Db}
    → upsert link now p d ≡ (ok x, d')
    → (upsert link' now' p d').1 ≡ d'
unfolding upsert write_invoice excluded
upsert_once link link' now now' p d {x} {d'} e =
    let written : d' ≡ record d { invoices = rows_with now p d.invoices } = ground (arith, e) in
    let twice : rows_with now' p d'.invoices ≡ d'.invoices =
      rw written (rows_twice now now' p d.invoices) in
    let same : record d' { invoices = rows_with now' p d'.invoices } ≡ d' =
      ap (λ (is : List Invoice). record d' { invoices = is }) twice in
    if_either Kept (is_empty (trim_space p.organization_id)) refl (
      if_either Kept (is_empty (trim_space p.payment_id)) refl (
        if_either Kept (link' upsert_invoice) refl (
          if_either Kept (not (fits_integer p.amount)) refl
            (if_either Kept (not (has org_key p.organization_id d'.organizations)) refl same))))
  where
    Kept : Result Error (Unit {0}) × Db → Type 0
    Kept r = r.1 ≡ d'
