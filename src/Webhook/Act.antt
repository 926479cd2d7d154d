-- ===== src/Webhook/Act.antt =====
-- The handlers of internal/services/webhook/dodo.go as chains of calls: of the repositories, each of
-- which writes at once, and of the payment provider.
pub mod Keeps
pub mod Inverse
use orbit_api.Common.{ℕ, Bool, true, false, Option, none, some, List, [], ◌∷◌, ◌++◌, if◌then◌else◌}
use orbit_api.Common.Str.{Str, is_empty}
use orbit_api.Common.Result.{Result, ok, err}
use orbit_api.Store.{Db}
use orbit_api.Store.Tx.{Link, Error}
use orbit_api.Webhook.Text.{trim_space}
use orbit_api.Webhook.Provider.{Provider, cancel_subscription}

-- What a handler runs in: the database's answers, its time, the month, and the provider.
pub record Env : Type 0 where
  pub link : Link
  pub now : ℕ
  pub period : Str
  pub provider : Provider

-- The database, and the subscriptions that the provider was asked to cancel, in their order.
pub record World : Type 0 where
  pub db : Db
  pub cancelled : List Str

abbrev pub Act : Type 0 → Type 0
Act A = World → Result Error A × World

infixl 5 ◌>>=◌ ◌>>◌
unfoldable pub ◌>>=◌ : {A B : Type 0} → Act A → (A → Act B) → Act B
◌>>=◌ m f w = let (r, w') = m w in elim r [ ok a ↦ f a w' | err e ↦ (err e, w') ]

unfoldable pub ◌>>◌ : {B : Type 0} → Act (Unit {0}) → Act B → Act B
◌>>◌ m k w = let (r, w') = m w in elim r [ ok a ↦ k w' | err e ↦ (err e, w') ]

unfoldable pub pure : {A : Type 0} → A → Act A
pure a w = (ok a, w)

unfoldable pub fail : {A : Type 0} → Error → Act A
fail e w = (err e, w)

-- A call of a repository that writes, and one that reads.
unfoldable pub run : {A : Type 0} → (Db → Result Error A × Db) → Act A
run f w = let (r, d) = f w.db in (r, record w { db = d })

unfoldable pub query : {A : Type 0} → (Db → Result Error A) → Act A
query f w = (f w.db, w)

unfoldable pub cancel : Env → Str → Act (Unit {0})
cancel env id w = (
  cancel_subscription env.provider id,
  record w {
    cancelled = if is_empty (trim_space id) then w.cancelled else w.cancelled ++ trim_space id ∷ [];
  },
)

-- Both calls are made, whatever the first answers; its error comes first.
unfoldable pub both : Act (Unit {0}) → Act (Unit {0}) → Act (Unit {0})
both m k w = let (r, w1) = m w in let (s, w2) = k w1 in (elim r [ ok u ↦ s | err e ↦ err e ], w2)

-- Branches.
unfoldable pub choose : {A : Type 0} → Bool → Act A → Act A → Act A
choose true m k = m
choose false m k = k

unfoldable pub when_some :
    {A : Type 0} → Option A → (A → Act (Unit {0})) → Act (Unit {0}) → Act (Unit {0})
when_some none f k = k
when_some (some a) f k = f a
