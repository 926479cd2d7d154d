-- ===== src/Webhook/Object.antt =====
-- internal/services/webhook/dodo.go: the payload of an event, as encoding/json decodes it.
use orbit_api.Common.{
  ℕ, zero, suc, ◌+◌, ◌*◌, ◌-◌, ◌/◌, ◌%◌, Bool, true, false, Option, none, some, List, [], ◌∷◌, ◌++◌,
  ltb, ◌==◌, if◌then◌else◌,
}
use orbit_api.Common.Int.{ℤ, pos, negsuc, ltb_ℤ, sub_ℕ}
use orbit_api.Common.Str.{Str, codes, is_empty}
use orbit_api.Common.Dict.{Dict, put, get}
use orbit_api.Common.Word.{in_range}
use orbit_api.Webhook.Json.{Json, text, number, null, other}
use orbit_api.Webhook.Text.{trim_space, equal_fold, between}

-- Metadata that are absent or no object are `none`.
abbrev pub Metadata : Type 0
Metadata = Option (List (Str × Json))

-- dodoObject. An item is the product of its price, and a price may be missing.
pub record DodoObject : Type 0 where
  pub payload_type : Str
  pub payment_id : Str
  pub subscription_id : Str
  pub id : Str
  pub product_id : Str
  pub invoice_id : Str
  pub total_amount : ℤ
  pub amount : ℤ
  pub currency : Str
  pub status : Str
  pub refund_status : Str
  pub created_at : Option ℕ
  pub metadata : Metadata
  pub customer : Option Metadata
  pub items : List (Option Str)

-- `dodoObject{}`
abbrev pub empty_object : DodoObject
empty_object = record {
  payload_type = [];
  payment_id = [];
  subscription_id = [];
  id = [];
  product_id = [];
  invoice_id = [];
  total_amount = pos 0;
  amount = pos 0;
  currency = [];
  status = [];
  refund_status = [];
  created_at = none;
  metadata = none;
  customer = none;
  items = [];
}

unfoldable pub payment_id_of : DodoObject → Str
payment_id_of obj =
    if is_empty (trim_space obj.payment_id)
    then (if equal_fold obj.payload_type (codes "payment") then trim_space obj.id else [])
    else trim_space obj.payment_id

unfoldable pub amount_of : DodoObject → ℤ
amount_of obj = if ltb_ℤ (pos 0) obj.total_amount then obj.total_amount else obj.amount

-- strconv.FormatInt, base 10: the digits of a number, on as much fuel as the number is large.
unfoldable pub digits : ℕ → ℕ → Str
digits zero n = []
digits (suc fuel) n = elim (ltb n 10) [
  | true ↦ (48 + n) ∷ []
  | false ↦ digits fuel (n / 10) ++ (48 + n % 10) ∷ []
]

unfoldable pub format_int : ℤ → Str
format_int (pos n) = digits (suc n) n
format_int (negsuc n) = 45 ∷ digits (suc (suc n)) (suc n)

unfoldable pub put_json : Str → Json → Dict → Dict
put_json k (text s) m = put k s m
put_json k (number n shown) m = put k (format_int n) m
put_json k null m = m
put_json k (other s) m = put k s m

unfoldable pub merge_entries : List (Str × Json) → Dict → Dict
merge_entries [] m = m
merge_entries ((k, j) ∷ rest) m = merge_entries rest (put_json k j m)

unfoldable pub merge_metadata : Metadata → Dict
merge_metadata none = []
merge_metadata (some entries) = merge_entries entries []

-- The customer's metadata, where the object's have none.
unfoldable pub fill_missing : Dict → Dict → Dict
fill_missing [] m = m
fill_missing ((k, v) ∷ more) m = fill_missing more (if is_empty (get k m) then put k v m else m)

unfoldable pub metadata_of : DodoObject → Dict
metadata_of obj = elim obj.customer [
  | none ↦ merge_metadata obj.metadata
  | some c ↦ fill_missing (merge_metadata c) (merge_metadata obj.metadata)
]

-- strconv.ParseInt of a number without its sign, which `none` is not.
unfoldable pub parse_digits : ℕ → Str → Option ℕ
parse_digits n [] = some n
parse_digits n (c ∷ cs) =
    let rest = parse_digits (n * 10 + (c - 48)) cs in if between 48 57 c then rest else none

-- A sign is followed by a digit at least, and the number has 64 bits.
unfoldable pub signed : Bool → Str → ℤ
signed negative s = if is_empty s then pos 0 else elim (parse_digits 0 s) [
  | none ↦ pos 0
  | some n ↦
      let value : ℤ = if negative then sub_ℕ 0 n else pos n in
      if in_range value then value else pos 0
]

unfoldable pub parse_sign : Str → ℤ
parse_sign [] = pos 0
parse_sign (c ∷ cs) =
    if c == 45 then signed true cs else if c == 43 then signed false cs else signed false (c ∷ cs)

unfoldable pub parse_int64 : Str → ℤ
parse_int64 value = parse_sign (trim_space value)
