-- ===== src/Billing/Holds/Sums.antt =====
-- The credits that an organization's open holds have frozen, through each write to the holds of
-- internal/repositories/billing/hold.go.
use orbit_api.Common.{
  ℕ, ◌≡◌, refl, Bool, true, false, ◌&&◌, List, [], ◌∷◌, ◌++◌, some, arith, if◌then◌else◌,
}
use orbit_api.Common.Int.{ℤ, pos, ◌+ℤ◌, int_laws}
use orbit_api.Common.Str.{Str, str_eq, str_eq-eq}
use orbit_api.Common.Table.{lookup, update}
use orbit_api.Store.{CreditHold, hold_key}
use orbit_api.Billing.Holds.{is_open, close_at, expired_sum, settle_expired}

abbrev pub is_frozen_by : Str → CreditHold → Bool
is_frozen_by org h = is_open h && str_eq h.organization_id org

unfoldable pub open_sum : Str → List CreditHold → ℤ
open_sum org [] = pos 0
open_sum org (h ∷ hs) =
    let rest = open_sum org hs in if is_frozen_by org h then h.amount_micros +ℤ rest else rest

abbrev pub close_open : ℕ → CreditHold → CreditHold
close_open now r = if is_open r then close_at now r else r

pub open_sum-close :
    (now : ℕ) (org id : Str) (hs : List CreditHold) {h : CreditHold}
    → lookup hold_key id hs ≡ some h
    → is_open h ≡ true
    → open_sum org (update hold_key id (λ r. close_open now r) hs)
        +ℤ (if str_eq h.organization_id org then h.amount_micros else pos 0)
      ≡ open_sum org hs
unfolding open_sum lookup update
open_sum-close now org id [] e o = cc
open_sum-close now org id (x ∷ hs) {h} e o = grind (int_laws, open_sum-close now org id hs {h = h})

pub open_sum-append :
    (org : Str) (h : CreditHold) (hs : List CreditHold)
    → open_sum org (hs ++ h ∷ [])
      ≡ open_sum org hs +ℤ (if is_frozen_by org h then h.amount_micros else pos 0)
unfolding open_sum
open_sum-append org h [] = grind int_laws
open_sum-append org h (x ∷ hs) = grind (int_laws, open_sum-append org h hs)

pub open_sum-settle_expired :
    (now : ℕ) (org : Str) (hs : List CreditHold)
    → open_sum org (settle_expired org now hs) +ℤ expired_sum org now hs ≡ open_sum org hs
unfolding open_sum settle_expired expired_sum
open_sum-settle_expired now org [] = grind int_laws
open_sum-settle_expired now org (h ∷ hs) = grind (int_laws, open_sum-settle_expired now org hs)

-- The holds of other organizations stay as they are.
pub open_sum-settle_expired_ne :
    (now : ℕ) (org other : Str) (hs : List CreditHold)
    → str_eq org other ≡ false
    → open_sum other (settle_expired org now hs) ≡ open_sum other hs
unfolding open_sum settle_expired
open_sum-settle_expired_ne now org other [] ne = refl
open_sum-settle_expired_ne now org other (h ∷ hs) ne =
    ground (arith, open_sum-settle_expired_ne now org other hs, str_eq-eq h.organization_id org)
