-- ===== src/Webhook/Refund/Merge.antt =====
-- internal/services/webhook/dodo.go: what becomes of a refund's two statuses.
use orbit_api.Common.{
  ◌≡◌, refl, ap, ◌∙◌, Bool, true, false, Option, none, some, List, [], ◌∷◌, arith, if◌then◌else◌,
  not, ◌||◌,
}
use orbit_api.Common.Str.{Str, codes, str_eq, is_empty}
use orbit_api.Webhook.Text.{trim_space, trim_left, trim_right, is_space, to_lower, to_lower_point}
use orbit_api.Webhook.Refund.{known_refund_status, normalize_refund_status, merge_refund_status}

-- How much of a payment is refunded.
pub data Extent : Type 0 where
  part whole : Extent

-- The words that say it, in any case of letters and with space around them.
abbrev pub words : List (Str × Extent)
words =
    (codes "full", whole)
    ∷ (codes "refunded", whole)
    ∷ (codes "partial", part)
    ∷ (codes "partially_refunded", part)
    ∷ []

abbrev pub find : Str → List (Str × Extent) → Option Extent
find word [] = none
find word (p ∷ ps) = if str_eq word p.0 then some p.1 else find word ps

abbrev pub reading : Str → Option Extent
reading value = find (to_lower (trim_space value)) words

-- A value that says nothing leaves it to a flag.
abbrev pub or_flag : Bool → Option Extent → Extent
or_flag is_partial (some x) = x
or_flag true none = part
or_flag false none = whole

-- The larger of two refunds, of which the second may be unknown.
abbrev pub most : Extent → Option Extent → Extent
most whole y = whole
most part none = part
most part (some y) = y

abbrev pub word_of : Extent → Str
word_of whole = codes "full"
word_of part = codes "partial"

abbrev word_or_nothing : Option Extent → Str
word_or_nothing none = []
word_or_nothing (some x) = word_of x

known_reading : (value : Str) → known_refund_status value ≡ word_or_nothing (reading value)
unfolding known_refund_status
known_reading value = ground arith

says :
    (r : Option Extent) (is_partial : Bool)
    → (if not (is_empty (word_or_nothing r))
        then word_or_nothing r
        else if is_partial
        then codes "partial"
        else codes "full")
      ≡ word_of (or_flag is_partial r)
says none true = refl
says none false = refl
says (some whole) is_partial = refl
says (some part) is_partial = refl

pub normalize_reading :
    (value : Str) (is_partial : Bool)
    → normalize_refund_status value is_partial ≡ word_of (or_flag is_partial (reading value))
unfolding normalize_refund_status
normalize_reading value is_partial = rw (known_reading value) (says (reading value) is_partial)

pub merge_reading :
    (x : Extent) (payment : Str)
    → merge_refund_status (word_of x) payment ≡ word_of (most x (reading payment))
unfolding merge_refund_status str_eq
merge_reading x payment = rw (known_reading payment) (merged x (reading payment))
  where
    merged :
        (x : Extent) (r : Option Extent)
        → (if str_eq (word_of x) (codes "full") || str_eq (word_or_nothing r) (codes "full")
            then codes "full"
            else if str_eq (word_of x) (codes "partial")
                || str_eq (word_or_nothing r) (codes "partial")
            then codes "partial"
            else if not (is_empty (word_of x))
            then word_of x
            else codes "full")
          ≡ word_of (most x r)
    merged whole none = refl
    merged whole (some y) = refl
    merged part none = refl
    merged part (some whole) = refl
    merged part (some part) = refl

pub known_word : (x : Extent) → known_refund_status (word_of x) ≡ word_of x
unfolding known_refund_status trim_space trim_left trim_right is_space to_lower to_lower_point
    str_eq
known_word whole = refl
known_word part = refl

-- The status of a refund is the larger of what its event says and what its payment says: `full` where
-- either has one of the words "full" and "refunded", and `partial` where neither has and one has
-- "partial" or "partially_refunded", in any case of letters and with space around them; an
-- event that says nothing is partial or full as it is flagged, and a payment that says nothing does not
-- count. The status that results keeps itself when it is read again.
pub merge_refund_status-larger :
    (value payment : Str) (is_partial : Bool)
    → let status = merge_refund_status (normalize_refund_status value is_partial) payment in
      (status ≡ word_of (most (or_flag is_partial (reading value)) (reading payment)))
      × (known_refund_status status ≡ status)
merge_refund_status-larger value payment is_partial =
    let x = or_flag is_partial (reading value) in
    let same =
      ap (λ (s : Str). merge_refund_status s payment) (normalize_reading value is_partial)
      ∙ merge_reading x payment in
    (same, rw same (known_word (most x (reading payment))))
