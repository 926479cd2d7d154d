-- ===== src/Compat/Content/Turns.antt =====
-- internal/services/compat: when the messages of a translated request are a conversation that Converse
-- takes, and the blocks that are in them.
use orbit_api.Common.Branches.{if_known}
use orbit_api.Common.Str.{codes, str_eq, Str}
use orbit_api.Common.{
  ◌≡◌, refl, sym, ap, ◌∙◌, arith, Bool, true, false, List, [], ◌∷◌, ◌++◌, ◌||◌, not, All,
  append_nil, append_assoc,
}
use orbit_api.Inference.Request.{ConverseRequest, ContentBlock, ConverseMessage}
use orbit_api.Inference.Converse.{converse_is_valid, messages_valid, no_content, no_messages}
use orbit_api.Compat.Content.{known_role, say}

abbrev pub is_known : Str → Bool
is_known role = str_eq role (codes "user") || str_eq role (codes "assistant")

pub known_role-is_known : (role : Str) → is_known (known_role role) ≡ true
unfolding str_eq
known_role-is_known role =
    if_known (λ (x : Str). is_known x ≡ true) (is_known role) {x = role} {y = codes "user"} (λ h. h)
      (λ h. refl)

module _ {J : Type 0} where
  -- The blocks of the messages, in their order.
  abbrev pub contents : List (ConverseMessage J) → List (ContentBlock J)
  contents [] = []
  contents (m ∷ ms) = m.content ++ contents ms

  pub contents-say :
      (role : Str) (bs : List (ContentBlock J)) (ms : List (ConverseMessage J))
      → contents (say role bs ms) ≡ contents ms ++ bs
  contents-say role [] ms = sym (append_nil (contents ms))
  contents-say role (b ∷ bs) [] = append_nil (b ∷ bs)
  contents-say role (b ∷ bs) (m ∷ ms) =
      ap (λ (xs : List (ContentBlock J)). m.content ++ xs) (contents-say role (b ∷ bs) ms)
      ∙ sym (append_assoc m.content (contents ms) (b ∷ bs))

  -- A message that isValid lets through, with a property of its role and of its blocks.
  pub record IsTurn (P : Str → List (ContentBlock J) → Type 0) (m : ConverseMessage J)
      : Type 0 where
    pub known : is_known m.role ≡ true
    pub says : no_content m.content ≡ false
    pub kept : P m.role m.content

  module _ (P : Str → List (ContentBlock J) → Type 0) where
    pub say-AreTurns :
        (role : Str) (bs : List (ContentBlock J)) (ms : List (ConverseMessage J))
        → is_known role ≡ true
        → P role bs
        → All (IsTurn P) ms
        → All (IsTurn P) (say role bs ms)
    say-AreTurns role [] ms known p turns = turns
    say-AreTurns role (b ∷ bs) [] known p turns =
        (record { known = known; says = refl; kept = p }, tt)
    say-AreTurns role (b ∷ bs) (m ∷ ms) known p turns =
        (turns.0, say-AreTurns role (b ∷ bs) ms known p turns.1)

    turns-messages_valid :
        (ms : List (ConverseMessage J)) → All (IsTurn P) ms → messages_valid ms ≡ true
    unfolding messages_valid
    turns-messages_valid [] turns = refl
    turns-messages_valid (m ∷ ms) turns =
        rw (turns.0.known, turns.0.says) (turns-messages_valid ms turns.1)

    turns-no_messages :
        (ms : List (ConverseMessage J))
        → All (IsTurn P) ms
        → no_messages ms ≡ no_content (contents ms)
    turns-no_messages [] turns = refl
    turns-no_messages (m ∷ ms) turns = begins m.content turns.0.says
      where
        begins :
            (bs : List (ContentBlock J))
            → no_content bs ≡ false
            → false ≡ no_content (bs ++ contents ms)
        begins [] says = cc
        begins (b ∷ bs) says = refl

    -- Such a request is refused only if nothing is said in it.
    pub turns-converse_is_valid :
        {F : Type 0} (r : ConverseRequest F J)
        → All (IsTurn P) r.messages
        → converse_is_valid r ≡ not (no_content (contents r.messages))
    unfolding converse_is_valid
    turns-converse_is_valid r turns =
        rw (turns-messages_valid r.messages turns, turns-no_messages r.messages turns)
          (ground arith)
