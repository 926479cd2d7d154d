-- ===== src/Common/Branches.antt =====
-- A property of what a branching term gives, from the branches.
use mathlib.Core.Path.{◌≡◌, refl}
use mathlib.Core.Bool.{Bool, true, false}
use mathlib.Core.Option.{Option, none, some}
use orbit_api.Common.Tests.{if◌then◌else◌}
use orbit_api.Common.Result.{Result, ok, err}

-- A property of what either branch of a test gives.
pub if_either :
    {A : Type 0} (Q : A → Type 0) (b : Bool) {x y : A} → Q x → Q y → Q (if b then x else y)
if_either Q true p q = p
if_either Q false p q = q

pub option_either :
    {A B : Type 0} (Q : B → Type 0) (o : Option A) {x : B} {f : A → B}
    → Q x
    → ((a : A) → Q (f a))
    → Q (elim o [ none ↦ x | some a ↦ f a ])
option_either Q none q qs = q
option_either Q (some a) q qs = qs a

pub result_either :
    {E A B : Type 0} (Q : B → Type 0) (r : Result E A) {f : A → B} {g : E → B}
    → ((a : A) → Q (f a))
    → ((e : E) → Q (g e))
    → Q (elim r [ ok a ↦ f a | err e ↦ g e ])
result_either Q (ok a) qs q = qs a
result_either Q (err e) qs q = q e

-- The same, where each branch knows which one it is.
pub if_known :
    {A : Type 0} (Q : A → Type 0) (b : Bool) {x y : A}
    → (b ≡ true → Q x)
    → (b ≡ false → Q y)
    → Q (if b then x else y)
if_known Q true p q = p refl
if_known Q false p q = q refl

pub option_known :
    {A B : Type 0} (Q : B → Type 0) (o : Option A) {x : B} {f : A → B}
    → (o ≡ none → Q x)
    → ((a : A) → o ≡ some a → Q (f a))
    → Q (elim o [ none ↦ x | some a ↦ f a ])
option_known Q none q qs = q refl
option_known Q (some a) q qs = qs a refl

pub result_known :
    {E A B : Type 0} (Q : B → Type 0) (r : Result E A) {f : A → B} {g : E → B}
    → ((a : A) → r ≡ ok a → Q (f a))
    → ((e : E) → r ≡ err e → Q (g e))
    → Q (elim r [ ok a ↦ f a | err e ↦ g e ])
result_known Q (ok a) qs q = qs a refl
result_known Q (err e) qs q = q e refl
