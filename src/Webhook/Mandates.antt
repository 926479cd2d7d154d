-- ===== src/Webhook/Mandates.antt =====
-- internal/services/webhook/dodo.go: the subscriptions that are cancelled when another is adopted
-- or kept.
pub mod Exact
use orbit_api.Common.{Bool, true, false, List, [], ◌∷◌, ◌||◌, not, if◌then◌else◌}
use orbit_api.Common.Int.{ℤ, leb_ℤ}
use orbit_api.Common.Str.{Str, str_eq, is_empty}
use orbit_api.Webhook.Text.{trim_space}

pub record InvoiceSubRef : Type 0 where
  pub id : Str
  pub order : ℤ
  pub known : Bool

-- The map `seen` of both functions, as the list of its keys.
unfoldable pub member : Str → List Str → Bool
member x [] = false
member x (y ∷ ys) = str_eq x y || member x ys

abbrev pub seen_first : Str → List Str
seen_first incoming = if is_empty incoming then [] else incoming ∷ []

-- The loop of staleInvoiceIDs, whose answer is built from its end.
unfoldable pub stale_loop : ℤ → List Str → List InvoiceSubRef → List Str
stale_loop current_order seen [] = []
stale_loop current_order seen (r ∷ refs) =
    let id = trim_space r.id in
    let skipped = stale_loop current_order seen refs in
    let taken = stale_loop current_order (id ∷ seen) refs in
    if is_empty id
    then skipped
    else if member id seen
    then skipped
    else if not r.known || leb_ℤ current_order r.order
    then skipped
    else id ∷ taken

unfoldable pub stale_invoice_ids : Str → ℤ → Bool → List InvoiceSubRef → List Str
stale_invoice_ids incoming current_order current_known refs =
    if not current_known
    then []
    else stale_loop current_order (seen_first (trim_space incoming)) refs

-- The calls of `add`, one for each id.
unfoldable pub add_each : List Str → List Str → List Str
add_each seen [] = []
add_each seen (x ∷ xs) =
    let id = trim_space x in
    let skipped = add_each seen xs in
    let taken = add_each (id ∷ seen) xs in
    if is_empty id then skipped else if member id seen then skipped else id ∷ taken

unfoldable pub merge_prior_subscription_ids : Str → Str → List Str → List Str
merge_prior_subscription_ids stored incoming invoice_ids =
    add_each (seen_first (trim_space incoming)) (stored ∷ invoice_ids)
