-- ===== src/Webhook/Handlers/Refunds.antt =====
-- handleRefundSucceeded of internal/services/webhook/dodo.go on a payment whose invoice is stored.
use orbit_api.Common.{
  ap, ◌∙◌, ◌≡◌, refl, sym, inl, inr, Bool, true, false, Option, none, some, [], Bool-cases,
  if◌then◌else◌,
}
use orbit_api.Common.Str.{codes, Str, str_eq, str_eq-eq, is_empty}
use orbit_api.Common.Table.{lookup, lookup-update_self}
use orbit_api.Common.Result.{Result, ok}
use orbit_api.Store.{Invoice, Db, invoice_key}
use orbit_api.Store.Tx.{Link, Error, select_invoice, update_refund}
use orbit_api.Webhook.Text.{
  to_lower, to_lower_point, trim_space, trim_left, trim_right, is_space, equal_fold,
}
use orbit_api.Invoices.{get_by_payment, set_refund, update_refund_status}
use orbit_api.Webhook.Text.Trim.{trim_space_twice}
use orbit_api.Webhook.Provider.{Payment}
use orbit_api.Webhook.Refund.{merge_refund_status}
use orbit_api.Webhook.Refund.Merge.{
  Extent, part, whole, or_flag, most, reading, word_of, normalize_reading, merge_reading,
}
use orbit_api.Webhook.Act.{Env, World, choose, pure, when_some}
use orbit_api.Webhook.Act.Inverse.{query_step, run_step}
use orbit_api.Webhook.Handlers.{
  RefundPayload, refund_status_of, fetched, refund_known, refund_payment, handle_refund_succeeded,
}

-- How much the event says is refunded, and with it the payment, where the provider has it.
abbrev pub said_refunded : RefundPayload → Extent
said_refunded refund =
    or_flag (if refund.is_partial then true else equal_fold refund.refund_type (codes "partial"))
      none

abbrev pub refunded : RefundPayload → Option Payment → Extent
refunded refund none = said_refunded refund
refunded refund (some v) = most (said_refunded refund) (reading v.refund_status)

word_trimmed : (x : Extent) → (trim_space (word_of x) ≡ word_of x) × (is_empty (word_of x) ≡ false)
unfolding trim_space trim_left trim_right is_space
word_trimmed whole = (refl, refl)
word_trimmed part = (refl, refl)

nothing_read : reading [] ≡ none
unfolding trim_space trim_left trim_right is_space to_lower to_lower_point str_eq
nothing_read = refl

own_refunded :
    (refund : RefundPayload) → refund_status_of refund none ≡ word_of (said_refunded refund)
own_refunded refund =
    let flag =
      if refund.is_partial then true else equal_fold refund.refund_type (codes "partial") in
    normalize_reading [] flag ∙ ap (λ (r : Option Extent). word_of (or_flag flag r)) nothing_read

refund_status_of-refunded :
    (refund : RefundPayload) (payment : Option Payment)
    → refund_status_of refund payment ≡ word_of (refunded refund payment)
refund_status_of-refunded refund none = own_refunded refund
refund_status_of-refunded refund (some v) =
    ap (λ (s : Str). merge_refund_status s v.refund_status) (own_refunded refund)
    ∙ merge_reading (said_refunded refund) v.refund_status

-- The status that the invoice has in the end.
abbrev pub settled_status : Invoice → Extent → Str
settled_status i x = if str_eq i.refund_status (codes "full") then codes "full" else word_of x

-- The update of the row that is there.
update_settles :
    (link : Link) (payment_id : Str) (x : Extent) (d : Db) {i : Invoice}
    → link update_refund ≡ false
    → trim_space payment_id ≡ payment_id
    → is_empty payment_id ≡ false
    → lookup invoice_key payment_id d.invoices ≡ some i
    → ((b : Bool) × ((update_refund_status link payment_id (word_of x) d).0 ≡ ok b))
      × (lookup invoice_key payment_id
            (update_refund_status link payment_id (word_of x) d).1.invoices
          ≡ some (set_refund (word_of x) i))
unfolding update_refund_status
update_settles link payment_id x d {i} answered trimmed named found =
    let (same, there) = word_trimmed x in
    rw trimmed (
      rw named (
        rw same (
          rw there (
            rw answered (
              (_, refl),
              lookup-update_self invoice_key payment_id (set_refund (word_of x)) d.invoices found
                  refl,
            )))))

-- Where a refund of a stored invoice ends.
abbrev pub Settles : Str → Extent → Invoice → Result Error (Unit {0}) × World → Type 0
Settles payment_id x i r =
    (r.0 ≡ ok tt)
    × (lookup invoice_key payment_id r.1.db.invoices ≡ some (set_refund (settled_status i x) i))

stored_refund :
    (env : Env) (payment_id : Str) (x : Extent) (i : Invoice) (w : World)
    → env.link update_refund ≡ false
    → trim_space payment_id ≡ payment_id
    → is_empty payment_id ≡ false
    → lookup invoice_key payment_id w.db.invoices ≡ some i
    → Settles payment_id x i (refund_known env payment_id (word_of x) i w)
unfolding refund_known choose pure
stored_refund env payment_id x i w answered trimmed named found =
    elim (Bool-cases (str_eq i.refund_status (codes "full"))) [
      | inl done ↦
          let same : codes "full" ≡ i.refund_status =
            sym (str_eq-eq i.refund_status (codes "full") done) in
          rw done (refl, rw same found)
      | inr rest ↦
          let ((b, went), there) =
            update_settles env.link payment_id x w.db answered trimmed named found in
          let steps =
            run_step (update_refund_status env.link payment_id (word_of x)) (λ met. pure tt) w
              went in
          rw rest (rw steps (refl, there))
    ]

-- The stored invoice is found.
got :
    (link : Link) (id : Str) (d : Db) {i : Invoice}
    → link select_invoice ≡ false
    → lookup invoice_key id d.invoices ≡ some i
    → get_by_payment link id d ≡ ok (some i)
unfolding get_by_payment
got link id d {i} reads found = rw reads (rw found refl)

-- A refund of a payment whose invoice is stored: where the database answers, the handler goes
-- through, and the invoice is as it was but for its status. That stays `full` if it is exactly that; else
-- it becomes `full` or `partial`, the larger of what the event and the payment say. (An event is
-- partial if it is flagged so or its type is "partial", and else full. A payment says "full" or
-- "refunded", or "partial" or "partially_refunded"; one that says nothing of these, or that the provider
-- does not give, does not count.)
pub handle_refund_succeeded-Settles :
    (env : Env) (refund : RefundPayload) (w : World) (i : Invoice)
    → env.link select_invoice ≡ false
    → env.link update_refund ≡ false
    → is_empty (trim_space refund.payment_id) ≡ false
    → lookup invoice_key (trim_space refund.payment_id) w.db.invoices ≡ some i
    → Settles
        (trim_space refund.payment_id)
        (refunded refund (fetched env (trim_space refund.payment_id)))
        i
        (handle_refund_succeeded env refund w)
unfolding handle_refund_succeeded refund_payment choose when_some
handle_refund_succeeded-Settles env refund w i reads writes named found =
    let id = trim_space refund.payment_id in
    let payment = fetched env id in
    let x = refunded refund payment in
    let steps : refund_payment env id refund w
        ≡ refund_known env id (refund_status_of refund payment) i w =
      query_step _ _ w (got env.link id w.db reads found) in
    rw named (
      rw (steps, refund_status_of-refunded refund payment)
        (stored_refund env id x i w writes (trim_space_twice refund.payment_id) named found))
