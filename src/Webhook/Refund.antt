-- ===== src/Webhook/Refund.antt =====
-- internal/services/webhook/dodo.go: the status of a refund.
pub mod Merge
use orbit_api.Common.{Bool, true, false, [], ◌||◌, not, if◌then◌else◌}
use orbit_api.Common.Str.{Str, codes, str_eq, is_empty}
use orbit_api.Webhook.Text.{trim_space, to_lower}

abbrev pub full : Str
full = codes "full"

abbrev pub partial : Str
partial = codes "partial"

unfoldable pub known_refund_status : Str → Str
known_refund_status value =
    let word = to_lower (trim_space value) in
    if str_eq word full || str_eq word (codes "refunded")
    then full
    else if str_eq word partial || str_eq word (codes "partially_refunded")
    then partial
    else []

unfoldable pub normalize_refund_status : Str → Bool → Str
normalize_refund_status value is_partial =
    if not (is_empty (known_refund_status value))
    then known_refund_status value
    else if is_partial
    then partial
    else full

unfoldable pub merge_refund_status : Str → Str → Str
merge_refund_status webhook_status payment_status =
    if str_eq webhook_status full || str_eq (known_refund_status payment_status) full
    then full
    else if str_eq webhook_status partial || str_eq (known_refund_status payment_status) partial
    then partial
    else if not (is_empty webhook_status)
    then webhook_status
    else full
