-- ===== src/Compat/Anthropic/Request/Said.antt =====
-- internal/services/compat/anthropic/request.go: what the messages of a request say, block by block, and
-- that the translation of one message says it.
use mathlib.Core.Path.{subst}
use orbit_api.Common.{
  ◌∙◌, ◌≡◌, ◌≢◌, refl, ap, Bool-cases, Option-cases, Bool, false, none, some, inl, inr, List, [],
  ◌∷◌, ◌++◌, map, arith, if◌then◌else◌, sym,
}
use orbit_api.Common.Str.{Str, codes, str_eq, str_eq-eq, str_eq_refl, is_empty}
use orbit_api.Inference.Bytes.{Bytes}
use orbit_api.Inference.Request.{ContentBlock, block, no_result, result, nil, cons}
use orbit_api.Compat.Content.{join}
use orbit_api.Compat.Content.Said.{spoken_texts, line_break}
use orbit_api.Compat.Anthropic.Request.{
  RequestDecoder, RequestMessage, RequestContentBlock, texts_of, parse_content_blocks, blocks_text,
  translate_block, translate_blocks,
}

differ : (s t : Str) → str_eq s t ≡ false → s ≢ t
differ s t e same = ground (arith, e, ap (λ (x : Str). str_eq x t) same, str_eq_refl t)

module _ {J : Type 0} (dec : RequestDecoder J) where
  abbrev pub typed_text : RequestContentBlock J → Str × Str
  typed_text b = (b.kind, b.text)

  texts_of-spoken :
      (bs : List (RequestContentBlock J)) → texts_of bs ≡ spoken_texts (map typed_text bs)
  unfolding texts_of
  texts_of-spoken [] = refl
  texts_of-spoken (b ∷ bs) = rw (texts_of-spoken bs) refl

  -- What a content has as its text: it is a string, or has blocks.
  pub data HasText (raw : Bytes) : Str → Type 0 where
    absent : raw ≡ [] → HasText raw []
    plain : (s : Str) → raw ≢ [] → dec.string raw ≡ some s → HasText raw s
    in_blocks :
        raw ≢ []
        → dec.string raw ≡ none
        → HasText raw (join (spoken_texts (map typed_text (dec.blocks raw))) line_break)

  pub blocks_text-HasText : (raw : Bytes) → HasText raw (blocks_text dec raw)
  unfolding blocks_text parse_content_blocks
  blocks_text-HasText [] = absent refl
  blocks_text-HasText (b ∷ bs) = elim (Option-cases (dec.string (b ∷ bs))) [
    | inr (s, there) ↦ rw there (plain s (λ e. cc) there)
    | inl other ↦
        let parsed : parse_content_blocks dec (b ∷ bs) ≡ dec.blocks (b ∷ bs) = rw other refl in
        rw other (
          subst (λ (ts : List Str). HasText (b ∷ bs) (join ts line_break))
            (sym (ap texts_of parsed ∙ texts_of-spoken (dec.blocks (b ∷ bs))))
            (in_blocks (λ e. cc) other))
  ]

  -- What becomes of a block. One of another type, and an empty text, are left out.
  pub data Becomes (b : RequestContentBlock J) : List (ContentBlock J) → Type 0 where
    a_text : b.kind ≡ codes "text" → b.text ≢ [] → Becomes b (block b.text none no_result ∷ [])
    no_text : b.kind ≡ codes "text" → b.text ≡ [] → Becomes b []
    a_use :
        b.kind ≡ codes "tool_use"
        → Becomes b (
            block []
              (some (record { tool_use_id = b.id; name = b.name; input = b.input }))
              no_result
            ∷ [])
    a_result :
        (t : Str)
        → b.kind ≡ codes "tool_result"
        → HasText b.content t
        → Becomes b (
            block [] none (
              result b.tool_use_id
                (cons (block t none no_result) nil)
                (if b.is_error then codes "error" else codes "success"))
            ∷ [])
    ignored :
        b.kind ≢ codes "text"
        → b.kind ≢ codes "tool_use"
        → b.kind ≢ codes "tool_result"
        → Becomes b []

  pub data BecomeAll : List (RequestContentBlock J) → List (ContentBlock J) → Type 0 where
    no_blocks : BecomeAll [] []
    and_blocks :
        (b : RequestContentBlock J) (bs : List (RequestContentBlock J))
        (cs ds : List (ContentBlock J))
        → Becomes b cs
        → BecomeAll bs ds
        → BecomeAll (b ∷ bs) (cs ++ ds)

  -- What a message says: nothing, a text, or blocks.
  pub data Says (m : RequestMessage) : List (ContentBlock J) → Type 0 where
    absent : m.content ≡ [] → Says m []
    a_string :
        (s : Str)
        → m.content ≢ []
        → dec.string m.content ≡ some s
        → s ≢ []
        → Says m (block s none no_result ∷ [])
    empty_string : m.content ≢ [] → dec.string m.content ≡ some [] → Says m []
    in_blocks :
        (cs : List (ContentBlock J))
        → m.content ≢ []
        → dec.string m.content ≡ none
        → BecomeAll (dec.blocks m.content) cs
        → Says m cs

  pub data SaidAll : List RequestMessage → List (ContentBlock J) → Type 0 where
    nobody : SaidAll [] []
    and_then :
        (m : RequestMessage) (ms : List RequestMessage) (bs cs : List (ContentBlock J))
        → Says m bs
        → SaidAll ms cs
        → SaidAll (m ∷ ms) (bs ++ cs)

  translate_block-Becomes : (b : RequestContentBlock J) → Becomes b (translate_block dec b)
  unfolding translate_block
  translate_block-Becomes b = elim (Bool-cases (str_eq b.kind (codes "text"))) [
    | inl k ↦ rw k (text_becomes b.text (str_eq-eq b.kind (codes "text") k) refl)
    | inr n1 ↦ elim (Bool-cases (str_eq b.kind (codes "tool_use"))) [
      | inl k ↦ rw (n1, k) (a_use (str_eq-eq b.kind (codes "tool_use") k))
      | inr n2 ↦ elim (Bool-cases (str_eq b.kind (codes "tool_result"))) [
        | inl k ↦
            rw (n1, n2, k)
              (a_result (blocks_text dec b.content) (str_eq-eq b.kind (codes "tool_result") k)
                (blocks_text-HasText b.content))
        | inr n3 ↦
            rw (n1, n2, n3)
              (ignored (differ b.kind (codes "text") n1) (differ b.kind (codes "tool_use") n2)
                (differ b.kind (codes "tool_result") n3))
      ]
    ]
  ]
    where
      text_becomes :
          (t : Str)
          → b.kind ≡ codes "text"
          → b.text ≡ t
          → Becomes b (if is_empty b.text then [] else block b.text none no_result ∷ [])
      text_becomes [] k same =
          subst (Becomes b)
            (ap (λ (e : Bool). if e then [] else block b.text none no_result ∷ [])
              (sym (ap is_empty same)))
            (no_text k same)
      text_becomes (c ∷ cs) k same =
          subst (Becomes b)
            (ap (λ (e : Bool). if e then [] else block b.text none no_result ∷ [])
              (sym (ap is_empty same)))
            (a_text k (λ e. cc))

  pub translate_blocks-BecomeAll :
      (bs : List (RequestContentBlock J)) → BecomeAll bs (translate_blocks dec bs)
  unfolding translate_blocks
  translate_blocks-BecomeAll [] = no_blocks
  translate_blocks-BecomeAll (b ∷ bs) =
      and_blocks b bs (translate_block dec b) (translate_blocks dec bs) (translate_block-Becomes b)
        (translate_blocks-BecomeAll bs)

  pub parsed-Says :
      (m : RequestMessage) → Says m (translate_blocks dec (parse_content_blocks dec m.content))
  unfolding parse_content_blocks translate_blocks translate_block str_eq
  parsed-Says m = says m.content refl
    where
      says :
          (raw : Bytes)
          → m.content ≡ raw
          → Says m (translate_blocks dec (parse_content_blocks dec raw))
      says [] same = absent same
      says (b ∷ bs) same = elim (Option-cases (dec.string (b ∷ bs))) [
        | inr ([], there) ↦ rw there (empty_string (λ e. cc) (ap dec.string same ∙ there))
        | inr (c ∷ cs, there) ↦
            rw there (a_string (c ∷ cs) (λ e. cc) (ap dec.string same ∙ there) (λ e. cc))
        | inl other ↦ rw other (
            in_blocks _ (λ e. cc) (ap dec.string same ∙ other)
              (subst
                (λ (r : Bytes).
                  BecomeAll (dec.blocks r) (translate_blocks dec (dec.blocks (b ∷ bs))))
                (sym same) (translate_blocks-BecomeAll (dec.blocks (b ∷ bs)))))
      ]
