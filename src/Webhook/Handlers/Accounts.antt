-- ===== src/Webhook/Handlers/Accounts.antt =====
-- What the handlers of internal/services/webhook/dodo.go leave alone when they grant nothing.
use orbit_api.Common.{◌≡◌, refl, ◌∙◌, List, [], ◌∷◌, arith}
use orbit_api.Common.Int.{ℤ}
use orbit_api.Common.Str.{Str}
use orbit_api.Common.Table.{update}
use orbit_api.Store.{Organization, Db, org_key}
use orbit_api.Organization.Plans.{set_plan}
use orbit_api.Webhook.Handlers.Frame.{Blind}

abbrev pub credits_of : Organization → Str × ℤ × ℤ × ℤ
credits_of o = (o.id, o.credits_granted_micros, o.credits_used_micros, o.credits_remaining_micros)

-- The credits of every organization.
unfoldable pub credit_rows : List Organization → List (Str × ℤ × ℤ × ℤ)
credit_rows [] = []
credit_rows (o ∷ os) = credits_of o ∷ credit_rows os

credit_rows-update :
    (k : Str) (f : Organization → Organization) (os : List Organization)
    → ((o : Organization) → credits_of (f o) ≡ credits_of o)
    → credit_rows (update org_key k f os) ≡ credit_rows os
unfolding credit_rows update
credit_rows-update k f [] same = refl
credit_rows-update k f (o ∷ os) same = ground (arith, same o, credit_rows-update k f os same)

-- Nothing was granted, spent, frozen or released, and the plans on sale are the same.
pub record SameAccounts (d d' : Db) : Type 0 where
  pub credits : credit_rows d'.organizations ≡ credit_rows d.organizations
  pub holds : d'.holds ≡ d.holds
  pub ledger : d'.ledger ≡ d.ledger
  pub requests : d'.requests ≡ d.requests
  pub plans : d'.plans ≡ d.plans

pub unchanged_accounts : (d : Db) → SameAccounts d d
unchanged_accounts d = record {
  credits = refl;
  holds = refl;
  ledger = refl;
  requests = refl;
  plans = refl;
}

with_rows :
    (d0 d : Db) (os : List Organization)
    → credit_rows os ≡ credit_rows d.organizations
    → SameAccounts d0 d
    → SameAccounts d0 (record d { organizations = os })
with_rows d0 d os same s = record {
  credits = same ∙ s.credits;
  holds = s.holds;
  ledger = s.ledger;
  requests = s.requests;
  plans = s.plans;
}

pub SameAccounts-Blind : (d0 : Db) → Blind (SameAccounts d0)
SameAccounts-Blind d0 = record {
  invoices = λ d is s. record {
    credits = s.credits;
    holds = s.holds;
    ledger = s.ledger;
    requests = s.requests;
    plans = s.plans;
  };
  plan = λ d org slug s.
      with_rows d0 d _ (credit_rows-update org (set_plan slug) d.organizations (λ o. refl)) s;
  subscription =
      λ d org id s. with_rows d0 d _ (credit_rows-update org _ d.organizations (λ o. refl)) s;
}
