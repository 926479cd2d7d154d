-- ===== src/Webhook/Provider.antt =====
-- internal/infra/dodo: the payment provider's client, over the answers of its HTTP interface.
use orbit_api.Common.{
  ℕ, Bool, true, false, Option, none, some, List, [], ◌∷◌, ◌&&◌, ◌||◌, ltb, if◌then◌else◌,
}
use orbit_api.Common.Int.{ℤ}
use orbit_api.Common.Str.{Str, codes, is_empty}
use orbit_api.Common.Result.{Result, ok, err}
use orbit_api.Store.Tx.{Error, required, provider_failed}
use orbit_api.Webhook.Json.{Json}
use orbit_api.Webhook.Text.{trim_space, to_lower, contains}

-- The zero time is no time.
pub record Payment : Type 0 where
  pub payment_id : Str
  pub invoice_id : Str
  pub total_amount : ℤ
  pub currency : Str
  pub status : Str
  pub refund_status : Str
  pub subscription_id : Str
  pub product_id : Str
  pub created_at : Option ℕ
  pub metadata : List (Str × Json)

-- The answers to GET /payments/<id>, to GET /payments?subscription_id=<id>, where `none` is an
-- error, and the text of the error, if there is one, of PATCH /subscriptions/<id>.
pub record Provider : Type 0 where
  pub payment_at : Str → Option Payment
  pub payments_of : Str → Option (List Payment)
  pub patch_error : Str → Option Str

unfoldable pub get_payment : Provider → Str → Result Error Payment
get_payment v payment_id =
    if is_empty payment_id
    then err required
    else elim (v.payment_at payment_id) [ none ↦ err provider_failed | some p ↦ ok p ]

-- Time.After
abbrev pub is_after : Option ℕ → Option ℕ → Bool
is_after none u = false
is_after (some t) none = true
is_after (some t) (some u) = ltb u t

unfoldable pub latest : Option Payment → List Payment → Option Payment
latest best [] = best
latest best (p ∷ ps) =
    latest
      (if is_empty p.payment_id then best else elim best [
        | none ↦ some p
        | some q ↦ if is_after p.created_at q.created_at then some p else some q
      ])
      ps

unfoldable pub latest_subscription_payment : Provider → Str → Result Error (Option Payment)
latest_subscription_payment v subscription_id =
    let id = trim_space subscription_id in
    if is_empty id
    then err required
    else elim (v.payments_of id) [ none ↦ err provider_failed | some ps ↦ ok (latest none ps) ]

unfoldable pub is_already_cancelled : Str → Bool
is_already_cancelled text =
    let msg = to_lower text in
    let cancelled = contains msg (codes "cancelled") || contains msg (codes "canceled") in
    let inactive = contains msg (codes "inactive") in
    if contains msg (codes "(404)") || contains msg (codes "not found")
    then true
    else if contains msg (codes "(422)")
    then cancelled || inactive
    else cancelled && (contains msg (codes "already") || inactive)

unfoldable pub cancel_subscription : Provider → Str → Result Error (Unit {0})
cancel_subscription v subscription_id =
    if is_empty (trim_space subscription_id)
    then err required
    else elim (v.patch_error (trim_space subscription_id)) [
      | none ↦ ok tt
      | some text ↦ if is_already_cancelled text then ok tt else err provider_failed
    ]
