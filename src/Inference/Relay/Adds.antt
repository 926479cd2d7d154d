-- ===== src/Inference/Relay/Adds.antt =====
-- A step of a sink that is taken, and what it adds to the text that is shown.
use orbit_api.Common.{◌≡◌, refl, sym, ap, ◌∙◌, true, [], ◌∷◌, ◌++◌, arith, append_nil}
use orbit_api.Common.Str.{Str, is_empty}
use orbit_api.Common.Result.{Result, ok}
use orbit_api.Inference.Payload.{WriteError}

module _ {S : Type 0} (shown : S → Str) where
  pub record Adds (text : Str) (s : S) (r : Result WriteError (Unit {0}) × S) : Type 0 where
    pub taken : r.0 ≡ ok tt
    pub shows : shown r.1 ≡ shown s ++ text

  pub idle : (s : S) → Adds [] s (ok tt, s)
  idle s = record { taken = refl; shows = sym (append_nil (shown s)) }

  -- A change of the sink that is not shown, before the step.
  pub again :
      {text : Str} (s s' : S) {r : Result WriteError (Unit {0}) × S}
      → shown s' ≡ shown s
      → Adds text s' r
      → Adds text s r
  again {text} s s' same a = record {
    taken = a.taken;
    shows = a.shows ∙ ap (λ (t : Str). t ++ text) same;
  }

pub empty_text : (text : Str) → is_empty text ≡ true → text ≡ []
empty_text [] blank = refl
empty_text (c ∷ cs) blank = ground arith
