-- ===== src/Webhook/Act/Keeps.antt =====
-- What a chain of calls keeps, whether or not it goes through.
use orbit_api.Common.{◌≡◌, refl, sym, ap, inl, inr, Bool, true, false, Option, none, some}
use orbit_api.Common.Str.{Str}
use orbit_api.Common.Result.{Result, ok, err, Result-cases}
use orbit_api.Store.{Db}
use orbit_api.Store.Tx.{Error}
use orbit_api.Webhook.Act.{
  Env, World, Act, ◌>>=◌, ◌>>◌, pure, fail, run, query, cancel, both, choose, when_some,
}

-- `m` keeps `P` of the database.
pub record Keeps (P : Db → Type 0) {A : Type 0} (m : Act A) : Type 0 where
  pub kept : (w : World) → P w.db → P (m w).1.db

module _ {P : Db → Type 0} where
  after_bind :
      {A B : Type 0} (f : A → Act B)
      → ((a : A) → Keeps P (f a))
      → (r : Result Error A) (w : World) → P w.db
      → P (
          (let goes : Result Error B × World = elim r [ ok a ↦ f a w | err e ↦ (err e, w) ] in
            goes).1.db)
  after_bind f keeps (ok a) w p = (keeps a).kept w p
  after_bind f keeps (err e) w p = p

  pub bind-Keeps :
      {A B : Type 0} {m : Act A} {f : A → Act B}
      → Keeps P m
      → ((a : A) → Keeps P (f a))
      → Keeps P (m >>= f)
  unfolding ◌>>=◌
  bind-Keeps {m} {f} first rest = record {
    kept = λ w p. after_bind f rest (m w).0 (m w).1 (first.kept w p);
  }

  pub then-Keeps :
      {B : Type 0} {m : Act (Unit {0})} {k : Act B} → Keeps P m → Keeps P k → Keeps P (m >> k)
  unfolding ◌>>◌
  then-Keeps {m} {k} first rest = record {
    kept = λ w p. after_bind (λ x. k) (λ x. rest) (m w).0 (m w).1 (first.kept w p);
  }

  pub both-Keeps : {m k : Act (Unit {0})} → Keeps P m → Keeps P k → Keeps P (both m k)
  unfolding both
  both-Keeps {m} {k} first second = record { kept = λ w p. second.kept (m w).1 (first.kept w p) }

  pub run-Keeps :
      {A : Type 0} (f : Db → Result Error A × Db) → ((d : Db) → P d → P (f d).1) → Keeps P (run f)
  unfolding run
  run-Keeps f keeps = record { kept = λ w p. keeps w.db p }

  pub query-Keeps : {A : Type 0} (f : Db → Result Error A) → Keeps P (query f)
  unfolding query
  query-Keeps f = record { kept = λ w p. p }

  -- The rest of a block may use what was read.
  pub query_then-Keeps :
      {A B : Type 0} (f : Db → Result Error A) {k : A → Act B}
      → ((a : A) (d : Db) → P d → f d ≡ ok a → Keeps P (k a))
      → Keeps P (query f >>= k)
  unfolding ◌>>=◌ query
  query_then-Keeps f {k} rest = record {
    kept = λ w p. elim (Result-cases (f w.db)) [
      | inl (a, went) ↦ rw went ((rest a w.db p went).kept w p)
      | inr (x, failed) ↦ rw failed p
    ];
  }

  pub cancel-Keeps : (env : Env) (id : Str) → Keeps P (cancel env id)
  unfolding cancel
  cancel-Keeps env id = record { kept = λ w p. p }

  pub pure-Keeps : {A : Type 0} (a : A) → Keeps P (pure a)
  unfolding pure
  pure-Keeps a = record { kept = λ w p. p }

  pub fail-Keeps : {A : Type 0} (e : Error) → Keeps P (fail {A = A} e)
  unfolding fail
  fail-Keeps e = record { kept = λ w p. p }

  pub choose-Keeps :
      {A : Type 0} (b : Bool) {m k : Act A} → Keeps P m → Keeps P k → Keeps P (choose b m k)
  unfolding choose
  choose-Keeps true keeps_m keeps_k = keeps_m
  choose-Keeps false keeps_m keeps_k = keeps_k

  -- A branch may use the test.
  pub choose_then-Keeps :
      {A : Type 0} (b : Bool) {m k : Act A}
      → (b ≡ true → Keeps P m)
      → (b ≡ false → Keeps P k)
      → Keeps P (choose b m k)
  unfolding choose
  choose_then-Keeps true keeps_m keeps_k = keeps_m refl
  choose_then-Keeps false keeps_m keeps_k = keeps_k refl

  pub when_some-Keeps :
      {A : Type 0} (o : Option A) {f : A → Act (Unit {0})} {k : Act (Unit {0})}
      → ((a : A) → Keeps P (f a))
      → Keeps P k
      → Keeps P (when_some o f k)
  unfolding when_some
  when_some-Keeps none keeps_f keeps_k = keeps_k
  when_some-Keeps (some a) keeps_f keeps_k = keeps_f a

-- What a chain that went through has kept.
pub kept_ok :
    {A : Type 0} {P : Db → Type 0} {m : Act A} (w : World) {x : A} {w' : World}
    → Keeps P m
    → P w.db
    → m w ≡ (ok x, w')
    → P w'.db
kept_ok w keeps p e = rw (sym (ap (λ r. r.1.db) e)) (keeps.kept w p)

pub ruleset keeps_rules = (
  bind-Keeps, then-Keeps, both-Keeps, query-Keeps, cancel-Keeps, pure-Keeps, fail-Keeps,
  choose-Keeps, when_some-Keeps,
)
