-- ===== src/Common/Table.antt =====
-- A table of the database: its rows, found by a text key that is its primary key or a unique column,
-- so that an update by key meets at most one row.
use mathlib.Core.Path.{◌≡◌, refl, sym, ap, ◌∙◌, subst₂}
use mathlib.Core.Logic.{inl, inr}
use mathlib.Core.Bool.{Bool, true, false}
use mathlib.Core.Option.{Option, none, some}
use mathlib.Core.List.{List, [], ◌∷◌, ◌++◌}
use native.Mathlib.Omega.{arith}
use orbit_api.Common.Tests.{if◌then◌else◌, Bool-cases, Option-cases}
use orbit_api.Common.Str.{Str, str_eq, str_eq-eq, str_eq_refl}

abbrev map_option {ℓ} : {A : Type ℓ} → (A → A) → Option A → Option A
map_option f none = none
map_option f (some a) = some (f a)

module _ {A : Type 0} (key : A → Str) where
  -- SELECT … WHERE key = k
  unfoldable pub lookup : Str → List A → Option A
  lookup k [] = none
  lookup k (r ∷ rs) = if str_eq (key r) k then some r else lookup k rs

  -- UPDATE … SET … WHERE key = k
  unfoldable pub update : Str → (A → A) → List A → List A
  update k f [] = []
  update k f (r ∷ rs) = if str_eq (key r) k then f r ∷ rs else r ∷ update k f rs

  -- SELECT EXISTS (… WHERE key = k)
  unfoldable pub has : Str → List A → Bool
  has k [] = false
  has k (r ∷ rs) = if str_eq (key r) k then true else has k rs

  pub lookup_key : (k : Str) (rs : List A) {r : A} → lookup k rs ≡ some r → key r ≡ k
  unfolding lookup
  lookup_key k [] h = cc
  lookup_key k (x ∷ rs) {r} h = ground (arith, str_eq-eq (key x) k, lookup_key k rs {r = r})

  pub has-lookup : (k : Str) (rs : List A) → has k rs ≡ false → lookup k rs ≡ none
  unfolding has lookup
  has-lookup k [] h = refl
  has-lookup k (x ∷ rs) h = ground (arith, has-lookup k rs)

  -- A row that keeps its key is found where it was.
  pub lookup-update_self :
      (k : Str) (f : A → A) (rs : List A) {r : A}
      → lookup k rs ≡ some r
      → key (f r) ≡ key r
      → lookup k (update k f rs) ≡ some (f r)
  unfolding lookup update
  lookup-update_self k f [] h e = cc
  lookup-update_self k f (x ∷ rs) {r} h e =
      ground (arith, lookup-update_self k f rs {r = r}, str_eq-eq (key x) k, str_eq_refl k)

  pub lookup-update_ne :
      (j k : Str) (f : A → A) (rs : List A)
      → str_eq k j ≡ false
      → ((r : A) → key (f r) ≡ key r)
      → lookup j (update k f rs) ≡ lookup j rs
  unfolding lookup update
  lookup-update_ne j k f [] h e = refl
  lookup-update_ne j k f (x ∷ rs) h e =
      ground (arith, lookup-update_ne j k f rs h e, e x, str_eq-eq (key x) k)

  pub update_absent : (k : Str) (f : A → A) (rs : List A) → lookup k rs ≡ none → update k f rs ≡ rs
  unfolding lookup update
  update_absent k f [] h = refl
  update_absent k f (x ∷ rs) h = ground (arith, update_absent k f rs)

  -- A new row is found by its own key.
  pub lookup-append_self :
      (r : A) (rs : List A) → lookup (key r) rs ≡ none → lookup (key r) (rs ++ r ∷ []) ≡ some r
  unfolding lookup
  lookup-append_self r [] h = ground (arith, str_eq_refl (key r))
  lookup-append_self r (x ∷ rs) h = ground (arith, lookup-append_self r rs)

  pub has-append :
      (k : Str) (r : A) (rs : List A)
      → has k (rs ++ r ∷ []) ≡ (if has k rs then true else str_eq (key r) k)
  unfolding has
  has-append k r [] = ground arith
  has-append k r (x ∷ rs) = ground (arith, has-append k r rs)

  pub has-found : (k : Str) (rs : List A) → has k rs ≡ true → (r : A) × (lookup k rs ≡ some r)
  unfolding has lookup
  has-found k [] h = cc
  has-found k (x ∷ rs) h = elim (Bool-cases (str_eq (key x) k)) [
    | inl here ↦ (x, rw here)
    | inr later ↦ let (r, found) = has-found k rs (ground arith) in (r, rw later found)
  ]

  -- A property of every row, through an update of one row.
  pub rows-update :
      (P Q : Str → A → Type 0) (k : Str) (f : A → A) (rs : List A) {r : A}
      → lookup k rs ≡ some r
      → ((x : A) → key (f x) ≡ key x)
      → ((j : Str) (x : A) → lookup j rs ≡ some x → P j x)
      → Q k (f r)
      → ((j : Str) (x : A) → str_eq k j ≡ false → P j x → Q j x)
      → (j : Str) (x : A) → lookup j (update k f rs) ≡ some x
      → Q j x
  rows-update P Q k f rs {r} found keeps all new others j x found' =
      elim (Bool-cases (str_eq k j)) [
        | inl e ↦
            let same : k ≡ j = str_eq-eq k j e in
            let here : lookup k (update k f rs) ≡ some (f r) =
              lookup-update_self k f rs found (keeps r) in
            let row : f r ≡ x = cc in subst₂ Q same row new
        | inr ne ↦ others j x ne (all j x (sym (lookup-update_ne j k f rs ne keeps) ∙ found'))
      ]

  pub has-missing : (k : Str) (rs : List A) → lookup k rs ≡ none → has k rs ≡ false
  unfolding has lookup
  has-missing k [] h = refl
  has-missing k (x ∷ rs) h = ground (arith, has-missing k rs)

  -- A property that an update of any row keeps.
  pub rows_kept :
      (P : Str → A → Type 0) (k : Str) (f : A → A) (rs : List A)
      → ((x : A) → key (f x) ≡ key x)
      → ((j : Str) (x : A) → P j x → P j (f x))
      → ((j : Str) (x : A) → lookup j rs ≡ some x → P j x)
      → (j : Str) (x : A) → lookup j (update k f rs) ≡ some x
      → P j x
  rows_kept P k f rs keeps through all j x found = elim (Option-cases (lookup k rs)) [
    | inl missing ↦
        all j x (ap (λ (os : List A). lookup j os) (sym (update_absent k f rs missing)) ∙ found)
    | inr (r, here) ↦
        rows-update P P k f rs here keeps all (through k r (all k r here)) (λ i y ne p. p) j x found
  ]

  pub update_same :
      (k : Str) (f : A → A) (rs : List A) {r : A}
      → lookup k rs ≡ some r
      → f r ≡ r
      → update k f rs ≡ rs
  unfolding lookup update
  update_same k f [] h e = refl
  update_same k f (x ∷ rs) {r} h e = ground (arith, update_same k f rs {r = r})

  pub has-update :
      (j k : Str) (f : A → A) (rs : List A)
      → ((r : A) → key (f r) ≡ key r)
      → has j (update k f rs) ≡ has j rs
  unfolding has update
  has-update j k f [] e = refl
  has-update j k f (x ∷ rs) e = ground (arith, has-update j k f rs e, e x)

  -- A new row with its key, and a change that it stands.
  pub update-append_same :
      (k : Str) (f : A → A) (r : A) (rs : List A)
      → has k rs ≡ false
      → f r ≡ r
      → update k f (rs ++ r ∷ []) ≡ rs ++ r ∷ []
  unfolding has update
  update-append_same k f r [] h e = ground (arith, e)
  update-append_same k f r (x ∷ rs) h e = ground (arith, update-append_same k f r rs, e)

  pub update_twice :
      (k : Str) (f g : A → A) (rs : List A)
      → ((r : A) → key (f r) ≡ key r)
      → ((r : A) → g (f r) ≡ f r)
      → update k g (update k f rs) ≡ update k f rs
  unfolding update
  update_twice k f g [] keeps e = refl
  update_twice k f g (x ∷ rs) keeps e = ground (arith, keeps x, e x, update_twice k f g rs keeps e)

  pub lookup-append_ne :
      (j : Str) (r : A) (rs : List A)
      → str_eq (key r) j ≡ false
      → lookup j (rs ++ r ∷ []) ≡ lookup j rs
  unfolding lookup
  lookup-append_ne j r [] other = ground (arith, other)
  lookup-append_ne j r (x ∷ rs) other = ground (arith, lookup-append_ne j r rs other)

  -- A row that is there stays the one that is found.
  pub lookup-append_found :
      (k : Str) (r : A) (rs : List A) {x : A}
      → lookup k rs ≡ some x
      → lookup k (rs ++ r ∷ []) ≡ some x
  unfolding lookup
  lookup-append_found k r [] found = cc
  lookup-append_found k r (y ∷ rs) {x} found = ground (arith, lookup-append_found k r rs {x = x})
