-- ===== src/Billing/Invariants.antt =====
-- The invariants of the accounts, and how a write to one organization's credits keeps them.
use orbit_api.Common.{◌≡◌, refl, Bool, false, ◌&&◌, List, [], ◌∷◌, ◌++◌, some, if◌then◌else◌}
use orbit_api.Common.Int.{ℤ, pos, ◌+ℤ◌, int_laws}
use orbit_api.Common.Str.{Str, str_eq}
use orbit_api.Common.Table.{lookup, rows-update}
use orbit_api.Store.{Organization, CreditLedgerEntry, Db, org_key}
use orbit_api.Billing.Holds.{set_credits}
use orbit_api.Billing.Holds.Steps.{with_credits}
use orbit_api.Billing.Ledger.{usage, grant}

abbrev pub is_entry : Str → Str → CreditLedgerEntry → Bool
is_entry kind org e = str_eq e.entry_type kind && str_eq e.organization_id org

-- The sum of an organization's ledger entries of one kind.
unfoldable pub entry_sum : Str → Str → List CreditLedgerEntry → ℤ
entry_sum kind org [] = pos 0
entry_sum kind org (e ∷ es) =
    let rest = entry_sum kind org es in
    if is_entry kind org e then e.amount_micros +ℤ rest else rest

pub entry_sum-append :
    (kind org : Str) (e : CreditLedgerEntry) (es : List CreditLedgerEntry)
    → entry_sum kind org (es ++ e ∷ [])
      ≡ entry_sum kind org es +ℤ (if is_entry kind org e then e.amount_micros else pos 0)
unfolding entry_sum
entry_sum-append kind org e [] = grind int_laws
entry_sum-append kind org e (x ∷ es) = grind (int_laws, entry_sum-append kind org e es)

-- A property of every organization's row.
abbrev pub Every : (Str → Organization → Type 0) → Db → Type 0
Every P d = (id : Str) (o : Organization) → lookup org_key id d.organizations ≡ some o → P id o

-- What was granted is the sum of the ledger's grants.
abbrev pub Granted : Db → Str → Organization → Type 0
Granted d id o = o.credits_granted_micros ≡ entry_sum grant id d.ledger

-- What was used is the sum of the ledger's usage.
abbrev pub Used : Db → Str → Organization → Type 0
Used d id o = o.credits_used_micros ≡ entry_sum usage id d.ledger

abbrev pub IsGranted : Db → Type 0
IsGranted d = Every (Granted d) d

abbrev pub IsUsed : Db → Type 0
IsUsed d = Every (Used d) d

-- New credits on one row, in a database whose organizations are `d`'s with that change.
pub recredit :
    (P Q : Str → Organization → Type 0) (d d' : Db) (id : Str) (o : Organization) (g u r : ℤ)
    → lookup org_key id d.organizations ≡ some o
    → d'.organizations ≡ (with_credits o g u r d).organizations
    → o.id ≡ id
    → Every P d
    → Q id (set_credits g u r o)
    → ((j : Str) (x : Organization) → str_eq id j ≡ false → P j x → Q j x)
    → Every Q d'
recredit P Q d d' id o g u r found written same all new others j x found' =
    rows-update org_key P Q id (set_credits g u r) d.organizations found (λ y. refl) all new others
      j x (cc)
