-- ===== src/Webhook/Act/Inverse.antt =====
-- What a chain of calls that went through has done.
use orbit_api.Common.{◌≡◌, refl, ap, inl, inr, arith, Bool, true, false, Option, none, some}
use orbit_api.Common.Result.{Result, ok, err, Result-cases}
use orbit_api.Common.Branches.{result_either}
use orbit_api.Store.{Db}
use orbit_api.Store.Tx.{Error}
use orbit_api.Webhook.Act.{World, Act, ◌>>=◌, ◌>>◌, run, query, choose, pure, when_some}

pub query_inverse :
    {A B : Type 0} (f : Db → Result Error A) (k : A → Act B) (w : World) {b : B} {w' : World}
    → (query f >>= k) w ≡ (ok b, w')
    → (a : A) × (f w.db ≡ ok a) × (k a w ≡ (ok b, w'))
unfolding ◌>>=◌ query
query_inverse f k w {b} {w'} e = elim (Result-cases (f w.db)) [
  | inl (a, went) ↦ (a, went, ground (arith, e, went))
  | inr (x, failed) ↦ ground (arith, e, failed)
]

pub run_inverse :
    {B : Type 0} (f : Db → Result Error (Unit {0}) × Db) (k : Act B) (w : World) {b : B}
    {w' : World}
    → (run f >> k) w ≡ (ok b, w')
    → ((f w.db).0 ≡ ok tt) × (k (record w { db = (f w.db).1 }) ≡ (ok b, w'))
unfolding ◌>>◌ run
run_inverse f k w {b} {w'} e = elim (Result-cases (f w.db).0) [
  | inl (tt, went) ↦ (went, ground (arith, e, went))
  | inr (x, failed) ↦ ground (arith, e, failed)
]

-- What was read is what the rest goes on with.
pub query_step :
    {A B : Type 0} (f : Db → Result Error A) (k : A → Act B) (w : World) {a : A}
    → f w.db ≡ ok a
    → (query f >>= k) w ≡ k a w
unfolding ◌>>=◌ query
query_step f k w {a} went = rw went refl

pub run_step :
    {A B : Type 0} (f : Db → Result Error A × Db) (k : A → Act B) (w : World) {a : A}
    → (f w.db).0 ≡ ok a
    → (run f >>= k) w ≡ k a (record w { db = (f w.db).1 })
unfolding ◌>>=◌ run
run_step {A} {B} f k w {a} went =
    let w' = record w { db = (f w.db).1 } in
    let goes : Result Error A → Result Error B × World =
      λ r. elim r [ ok x ↦ k x w' | err e ↦ (err e, w') ] in
    ap goes went

-- A call that asks the provider to cancel nothing.
pub record Quiet {A : Type 0} (m : Act A) : Type 0 where
  pub quiet : (w : World) → (m w).1.cancelled ≡ w.cancelled

pub choose-Quiet : {A : Type 0} (b : Bool) {m k : Act A} → Quiet m → Quiet k → Quiet (choose b m k)
unfolding choose
choose-Quiet true q r = q
choose-Quiet false q r = r

pub when_some-Quiet :
    {A : Type 0} (o : Option A) {f : A → Act (Unit {0})} {k : Act (Unit {0})}
    → ((a : A) → Quiet (f a))
    → Quiet k
    → Quiet (when_some o f k)
unfolding when_some
when_some-Quiet none q r = r
when_some-Quiet (some a) q r = q a

pub pure-Quiet : {A : Type 0} (a : A) → Quiet (pure a)
unfolding pure
pure-Quiet a = record { quiet = λ w. refl }

pub run-Quiet : {A : Type 0} (f : Db → Result Error A × Db) → Quiet (run f)
unfolding run
run-Quiet f = record { quiet = λ w. refl }

-- A property of where two calls end, whether or not the first goes through.
pub then_either :
    {B : Type 0} (Q : World → Type 0) (m : Act (Unit {0})) (k : Act B) (w : World)
    → Q (k (m w).1).1
    → Q (m w).1
    → Q ((m >> k) w).1
unfolding ◌>>◌
then_either {B} Q m k w went failed =
    result_either (λ (r : Result Error B × World). Q r.1) (m w).0 (λ a. went) (λ e. failed)
