-- ===== src/Webhook/Mandates/Exact.antt =====
-- Which subscriptions the two functions of internal/services/webhook/dodo.go select: exactly those
-- that an independent description names, each once.
use orbit_api.Common.{
  ◌≡◌, refl, ap, inl, inr, Bool, true, false, List, [], ◌∷◌, ◌&&◌, ◌||◌, not, arith, Bool-cases,
}
use orbit_api.Common.Int.{ℤ, ltb_ℤ}
use orbit_api.Common.Str.{Str, str_eq, str_eq_refl, str_eq-eq, is_empty}
use orbit_api.Webhook.Text.{trim_space}
use orbit_api.Webhook.Mandates.{
  InvoiceSubRef, member, seen_first, stale_loop, stale_invoice_ids, add_each,
  merge_prior_subscription_ids,
}

-- No id stands in the list twice.
unfoldable pub all_distinct : List Str → Bool
all_distinct [] = true
all_distinct (x ∷ xs) = not (member x xs) && all_distinct xs

-- One of the ids is `x`, but for the space around it.
unfoldable pub named : Str → List Str → Bool
named x [] = false
named x (y ∷ ys) = str_eq x (trim_space y) || named x ys

-- One of the invoices of subscription `x` is for a known plan below the current one.
unfoldable pub lower_invoice : Str → ℤ → List InvoiceSubRef → Bool
lower_invoice x current_order [] = false
lower_invoice x current_order (r ∷ refs) =
    (str_eq x (trim_space r.id) && (r.known && ltb_ℤ r.order current_order))
    || lower_invoice x current_order refs

-- An equal string may stand for `x` in any test.
member-eq : (x y : Str) (seen : List Str) → str_eq x y ≡ true → member x seen ≡ member y seen
member-eq x y seen e = ap (λ (z : Str). member z seen) (str_eq-eq x y e)

is_empty_same : (x y : Str) → str_eq x y ≡ true → is_empty x ≡ is_empty y
is_empty_same x y e = ap is_empty (str_eq-eq x y e)

member-add_each :
    (x : Str) (seen ids : List Str)
    → member x (add_each seen ids) ≡ (not (is_empty x) && (not (member x seen) && named x ids))
unfolding member add_each named
member-add_each x seen [] = ground arith
member-add_each x seen (y ∷ ys) = elim (Bool-cases (str_eq x (trim_space y))) [
  | inl e ↦ ground (
    arith,
    e,
    member-eq x (trim_space y) seen e,
    is_empty_same x (trim_space y) e,
    member-add_each x seen ys,
    member-add_each x (trim_space y ∷ seen) ys,
  )
  | inr ne ↦
      ground (arith, ne, member-add_each x seen ys, member-add_each x (trim_space y ∷ seen) ys)
]

all_distinct-add_each : (seen ids : List Str) → all_distinct (add_each seen ids) ≡ true
unfolding add_each all_distinct member
all_distinct-add_each seen [] = refl
all_distinct-add_each seen (y ∷ ys) =
    let id = trim_space y in
    ground (
      arith,
      str_eq_refl id,
      member-add_each id (id ∷ seen) ys,
      all_distinct-add_each seen ys,
      all_distinct-add_each (id ∷ seen) ys,
    )

member-stale_loop :
    (x : Str) (current_order : ℤ) (seen : List Str) (refs : List InvoiceSubRef)
    → member x (stale_loop current_order seen refs)
      ≡ (not (is_empty x) && (not (member x seen) && lower_invoice x current_order refs))
unfolding member stale_loop lower_invoice
member-stale_loop x current_order seen [] = ground arith
member-stale_loop x current_order seen (r ∷ refs) = elim (Bool-cases (str_eq x (trim_space r.id))) [
  | inl e ↦ ground (
    arith,
    e,
    member-eq x (trim_space r.id) seen e,
    is_empty_same x (trim_space r.id) e,
    member-stale_loop x current_order seen refs,
    member-stale_loop x current_order (trim_space r.id ∷ seen) refs,
  )
  | inr ne ↦ ground (
    arith,
    ne,
    member-stale_loop x current_order seen refs,
    member-stale_loop x current_order (trim_space r.id ∷ seen) refs,
  )
]

all_distinct-stale_loop :
    (current_order : ℤ) (seen : List Str) (refs : List InvoiceSubRef)
    → all_distinct (stale_loop current_order seen refs) ≡ true
unfolding stale_loop all_distinct member
all_distinct-stale_loop current_order seen [] = refl
all_distinct-stale_loop current_order seen (r ∷ refs) =
    let id = trim_space r.id in
    ground (
      arith,
      str_eq_refl id,
      member-stale_loop id current_order (id ∷ seen) refs,
      all_distinct-stale_loop current_order seen refs,
      all_distinct-stale_loop current_order (id ∷ seen) refs,
    )

-- When a subscription is adopted, the ids to cancel are, each once, those among the stored one and
-- the invoices' (without the space around them) that are not empty and are not the adopted one's.
pub merge_prior_subscription_ids-exact :
    (x stored incoming : Str) (invoice_ids : List Str)
    → (member x (merge_prior_subscription_ids stored incoming invoice_ids) ≡ (
        not (is_empty x)
        && (not (str_eq x (trim_space incoming)) && named x (stored ∷ invoice_ids))))
      × (all_distinct (merge_prior_subscription_ids stored incoming invoice_ids) ≡ true)
unfolding merge_prior_subscription_ids member
merge_prior_subscription_ids-exact x stored incoming invoice_ids =
    let seen = seen_first (trim_space incoming) in
    (
      elim (Bool-cases (str_eq x (trim_space incoming))) [
        | inl e ↦ ground (
          arith,
          e,
          is_empty_same x (trim_space incoming) e,
          member-add_each x seen (stored ∷ invoice_ids),
        )
        | inr ne ↦ ground (arith, ne, member-add_each x seen (stored ∷ invoice_ids))
      ],
      all_distinct-add_each seen (stored ∷ invoice_ids),
    )

-- When a subscription is kept, the invoices' subscriptions to cancel are, each once, those that are
-- not the kept one and have an invoice for a known plan below the current plan; they are none
-- where the current plan is not known.
pub stale_invoice_ids-exact :
    (x incoming : Str) (current_order : ℤ) (current_known : Bool) (refs : List InvoiceSubRef)
    → (member x (stale_invoice_ids incoming current_order current_known refs) ≡ (
        current_known
        && (not (is_empty x)
            && (not (str_eq x (trim_space incoming)) && lower_invoice x current_order refs))))
      × (all_distinct (stale_invoice_ids incoming current_order current_known refs) ≡ true)
unfolding stale_invoice_ids member all_distinct
stale_invoice_ids-exact x incoming current_order false refs = (refl, refl)
stale_invoice_ids-exact x incoming current_order true refs =
    let seen = seen_first (trim_space incoming) in
    (
      elim (Bool-cases (str_eq x (trim_space incoming))) [
        | inl e ↦ ground (
          arith,
          e,
          is_empty_same x (trim_space incoming) e,
          member-stale_loop x current_order seen refs,
        )
        | inr ne ↦ ground (arith, ne, member-stale_loop x current_order seen refs)
      ],
      all_distinct-stale_loop current_order seen refs,
    )
