-- ===== src/Compat/Openai/Request/Said.antt =====
-- internal/services/compat/openai/request.go: what the messages of a request say, block by block, and that
-- the translation of one message says it.
use mathlib.Core.Path.{subst}
use orbit_api.Common.{
  ◌≡◌, ◌≢◌, ◌⊎◌, inl, inr, refl, ap, sym, ◌∙◌, Bool-cases, Option-cases, true, false, none, some,
  List, [], ◌∷◌, ◌++◌, map, arith, append_assoc, not, ◌&&◌, if◌then◌else◌,
}
use orbit_api.Common.Str.{Str, codes, str_eq, str_eq-eq, str_eq_refl, is_empty}
use orbit_api.Inference.Request.{nil, cons, no_result, result, block, ContentBlock}
use orbit_api.Inference.Bytes.{Bytes}
use orbit_api.Compat.Content.{text_block, join}
use orbit_api.Compat.Openai.Request.{
  unless_empty, is_system, spoken, RequestToolCall, content_text, tool_uses, RequestMessage, Part,
  parts_text, RequestDecoder,
}
use orbit_api.Compat.Content.Said.{spoken_texts, line_break}
use orbit_api.Webhook.Text.{trim_space}

abbrev pub typed_text : Part → Str × Str
typed_text p = (p.kind, p.text)

-- The loop over the parts is a join of their texts.
abbrev joined : List Str → Str → Str
joined ss [] = join ss line_break
joined ss (c ∷ cs) = join ((c ∷ cs) ∷ ss) line_break

join_more :
    (b t : Str) (ss : List Str)
    → join ((b ++ (line_break ++ t)) ∷ ss) line_break ≡ join (b ∷ t ∷ ss) line_break
unfolding join
join_more b t [] = refl
join_more b t (s ∷ ss) = append_assoc b (line_break ++ t) (line_break ++ join (s ∷ ss) line_break)

parts_text-joined :
    (ps : List Part) (b : Str) → parts_text ps b ≡ joined (spoken_texts (map typed_text ps)) b
unfolding parts_text join
parts_text-joined [] [] = refl
parts_text-joined [] (c ∷ cs) = refl
parts_text-joined (p ∷ ps) b =
    elim (Bool-cases (str_eq p.kind (codes "text") && not (is_empty p.text))) [
      | inr skipped ↦ rw skipped (parts_text-joined ps b)
      | inl spoken ↦ rw spoken (
          parts_text-joined ps (if is_empty b then p.text else b ++ (10 ∷ p.text))
          ∙ next p.text (ground (arith, spoken)) b)
    ]
  where
    next :
        (t : Str)
        → is_empty t ≡ false
        → (b : Str)
        → joined (spoken_texts (map typed_text ps)) (if is_empty b then t else b ++ (10 ∷ t))
          ≡ joined (t ∷ spoken_texts (map typed_text ps)) b
    next [] e b = cc
    next (x ∷ t) e [] = refl
    next (x ∷ t) e (c ∷ cs) = join_more (c ∷ cs) (x ∷ t) (spoken_texts (map typed_text ps))

parts_text-join :
    (ps : List Part) → parts_text ps [] ≡ join (spoken_texts (map typed_text ps)) line_break
parts_text-join ps = parts_text-joined ps []

abbrev pub IsSystem : RequestMessage → Type 0
IsSystem m = (trim_space m.role ≡ codes "system") ⊎ (trim_space m.role ≡ codes "developer")

pub role-IsSystem : (m : RequestMessage) → is_system (trim_space m.role) ≡ true → IsSystem m
role-IsSystem m e = elim (Bool-cases (str_eq (trim_space m.role) (codes "system"))) [
  | inl s ↦ inl (str_eq-eq (trim_space m.role) (codes "system") s)
  | inr rest ↦ inr (str_eq-eq (trim_space m.role) (codes "developer") (ground (arith, e, rest)))
]

pub other_role : (m : RequestMessage) → is_system (trim_space m.role) ≡ false → IsSystem m → ⊥
other_role m e (inl s) =
    ground (arith, e, ap (λ (x : Str). str_eq x (codes "system")) s, str_eq_refl (codes "system"))
other_role m e (inr s) =
    ground
      (arith, e, ap (λ (x : Str). str_eq x (codes "developer")) s, str_eq_refl (codes "developer"))

module _ {J : Type 0} (dec : RequestDecoder J) where
  -- What a content has as its text: it is a string, or has parts, or else it has none.
  pub data HasText (raw : Bytes) : Str → Type 0 where
    absent : raw ≡ [] → HasText raw []
    plain : (s : Str) → raw ≢ [] → dec.string raw ≡ some s → HasText raw s
    in_parts :
        (ps : List Part)
        → raw ≢ []
        → dec.string raw ≡ none
        → dec.parts raw ≡ some ps
        → HasText raw (join (spoken_texts (map typed_text ps)) line_break)
    unread : raw ≢ [] → dec.string raw ≡ none → dec.parts raw ≡ none → HasText raw []

  pub content_text-HasText : (raw : Bytes) → HasText raw (content_text dec raw)
  unfolding content_text
  content_text-HasText [] = absent refl
  content_text-HasText (b ∷ bs) = elim (Option-cases (dec.string (b ∷ bs))) [
    | inr (s, there) ↦ rw there (plain s (λ e. cc) there)
    | inl other ↦ elim (Option-cases (dec.parts (b ∷ bs))) [
      | inr (ps, there) ↦
          rw (other, there)
            (subst (HasText (b ∷ bs)) (sym (parts_text-join ps))
              (in_parts ps (λ e. cc) other there))
      | inl missing ↦ rw (other, missing) (unread (λ e. cc) other missing)
    ]
  ]

  -- A call of a tool, as a block.
  abbrev pub called : RequestToolCall → ContentBlock J
  called c =
      block []
        (some (record { tool_use_id = c.id; name = c.name; input = dec.arguments c.arguments }))
        no_result

  abbrev pub text_first : Str → List (ContentBlock J) → List (ContentBlock J)
  text_first [] bs = bs
  text_first (c ∷ cs) bs = block (c ∷ cs) none no_result ∷ bs

  -- What a message says in the conversation: nothing, if it is the system's; the result of a tool; or a
  -- text, if there is one, and calls of tools.
  pub data Says (m : RequestMessage) : List (ContentBlock J) → Type 0 where
    of_system : IsSystem m → Says m []
    of_tool :
        (t : Str)
        → trim_space m.role ≡ codes "tool"
        → HasText m.content t
        → Says m (block [] none (result m.tool_call_id (cons (block t none no_result) nil) []) ∷ [])
    of_turn :
        (t : Str)
        → (IsSystem m → ⊥)
        → trim_space m.role ≢ codes "tool"
        → HasText m.content t
        → Says m (text_first t (map called m.tool_calls))

  pub data SaidAll : List RequestMessage → List (ContentBlock J) → Type 0 where
    nobody : SaidAll [] []
    and_then :
        (m : RequestMessage) (ms : List RequestMessage) (bs cs : List (ContentBlock J))
        → Says m bs
        → SaidAll ms cs
        → SaidAll (m ∷ ms) (bs ++ cs)

  -- What it tells the system: its text, if it is the system's and there is one.
  pub data Tells (m : RequestMessage) : List Str → Type 0 where
    a_text : (t : Str) → IsSystem m → HasText m.content t → t ≢ [] → Tells m (t ∷ [])
    no_text : IsSystem m → HasText m.content [] → Tells m []
    not_system : (IsSystem m → ⊥) → Tells m []

  pub data ToldAll : List RequestMessage → List Str → Type 0 where
    untold : ToldAll [] []
    and_told :
        (m : RequestMessage) (ms : List RequestMessage) (ss ts : List Str)
        → Tells m ss
        → ToldAll ms ts
        → ToldAll (m ∷ ms) (ss ++ ts)

  tool_uses-map : (cs : List RequestToolCall) → tool_uses dec cs ≡ map called cs
  unfolding tool_uses
  tool_uses-map [] = refl
  tool_uses-map (c ∷ cs) = ap (λ (bs : List (ContentBlock J)). called c ∷ bs) (tool_uses-map cs)

  pub spoken-text_first :
      (m : RequestMessage)
      → spoken dec m ≡ text_first (content_text dec m.content) (map called m.tool_calls)
  spoken-text_first m =
      starts (content_text dec m.content)
      ∙ ap (text_first (content_text dec m.content)) (tool_uses-map m.tool_calls)
    where
      starts :
          (t : Str)
          → unless_empty t (text_block t) ++ tool_uses dec m.tool_calls
            ≡ text_first t (tool_uses dec m.tool_calls)
      starts [] = refl
      starts (c ∷ cs) = refl
