-- ===== src/Compat/Anthropic/Request.antt =====
-- internal/services/compat/anthropic/request.go: a messages request and its translation.
pub mod Said
pub mod Order
use orbit_api.Common.{
  Bool, true, false, Option, none, some, List, [], ◌∷◌, ◌++◌, ◌&&◌, ◌||◌, not, if◌then◌else◌,
}
use orbit_api.Common.Int.{ℤ, pos, ltb_ℤ}
use orbit_api.Common.Str.{Str, codes, str_eq, is_empty}
use orbit_api.Inference.Bytes.{Bytes}
use orbit_api.Inference.Request.{
  utf8, truncate, ContentBlock, ConverseMessage, ToolSpec, ToolChoice, ConverseRequest,
}
use orbit_api.Compat.Content.{known_role, join, text_block, tool_use_block, tool_result_block, say}
use orbit_api.Webhook.Text.{trim_space}

-- requestContentBlock
pub record RequestContentBlock (J : Type 0) : Type 0 where
  pub kind : Str
  pub text : Str
  pub id : Str
  pub name : Str
  pub input : J
  pub tool_use_id : Str
  pub content : Bytes
  pub is_error : Bool

-- What encoding/json makes of a raw message as a string, and as blocks, where an error is ignored; and
-- the object of a block that has none.
pub record RequestDecoder (J : Type 0) : Type 0 where
  pub string : Bytes → Option Str
  pub blocks : Bytes → List (RequestContentBlock J)
  pub no_input : J

pub record RequestMessage : Type 0 where
  pub role : Str
  pub content : Bytes

pub record RequestToolChoice : Type 0 where
  pub kind : Str
  pub name : Str

-- requestTool has the fields of ToolSpec.
pub record MessagesRequest (F J : Type 0) : Type 0 where
  pub model : Str
  pub max_tokens : ℤ
  pub system : Bytes
  pub messages : List RequestMessage
  pub tools : List (ToolSpec J)
  pub tool_choice : Option RequestToolChoice
  pub temperature : Option F
  pub top_p : Option F
  pub stop_sequences : List Str
  pub stream : Bool

abbrev no_bytes : Bytes → Bool
no_bytes [] = true
no_bytes (b ∷ bs) = false

-- The texts of the blocks of text.
unfoldable pub texts_of : {J : Type 0} → List (RequestContentBlock J) → List Str
texts_of [] = []
texts_of (b ∷ bs) =
    if str_eq b.kind (codes "text") && not (is_empty b.text)
    then b.text ∷ texts_of bs
    else texts_of bs

-- IsValid
unfoldable pub request_is_valid : {F J : Type 0} → MessagesRequest F J → Bool
request_is_valid q =
    not (is_empty (trim_space q.model))
    && (ltb_ℤ (pos 0) q.max_tokens && (elim q.messages [ [] ↦ false | m ∷ ms ↦ true ]))

-- The choice of a tool, where there are tools and they are not dropped.
unfoldable pub choice_of : RequestToolChoice → ToolChoice
choice_of c =
    if str_eq c.kind (codes "any")
    then record { mode = codes "any"; tool_name = [] }
    else if str_eq c.kind (codes "tool")
    then record { mode = codes "tool"; tool_name = c.name }
    else record { mode = codes "auto"; tool_name = [] }

abbrev drops_tools : Option RequestToolChoice → Bool
drops_tools none = false
drops_tools (some c) = str_eq c.kind (codes "none")

module _ {J : Type 0} (dec : RequestDecoder J) where
  -- parseContentBlocks
  unfoldable pub parse_content_blocks : Bytes → List (RequestContentBlock J)
  parse_content_blocks raw = if no_bytes raw then [] else elim (dec.string raw) [
    | some s ↦
        if is_empty s
        then []
        else record {
          kind = codes "text";
          text = s;
          id = [];
          name = [];
          input = dec.no_input;
          tool_use_id = [];
          content = [];
          is_error = false;
        }
          ∷ []
    | none ↦ dec.blocks raw
  ]

  -- blocksText
  unfoldable pub blocks_text : Bytes → Str
  blocks_text raw = if no_bytes raw then [] else elim (dec.string raw) [
    | some s ↦ s
    | none ↦ join (texts_of (parse_content_blocks raw)) (10 ∷ [])
  ]

  -- What a block is translated to. A block of another type is left out.
  unfoldable pub translate_block : RequestContentBlock J → List (ContentBlock J)
  translate_block b =
      if str_eq b.kind (codes "text")
      then if is_empty b.text then [] else text_block b.text ∷ []
      else if str_eq b.kind (codes "tool_use")
      then tool_use_block b.id b.name b.input ∷ []
      else if str_eq b.kind (codes "tool_result")
      then tool_result_block b.tool_use_id (blocks_text b.content)
          (if b.is_error then codes "error" else codes "success")
        ∷ []
      else []

  unfoldable pub translate_blocks : List (RequestContentBlock J) → List (ContentBlock J)
  translate_blocks [] = []
  translate_blocks (b ∷ bs) = translate_block b ++ translate_blocks bs

  -- The loop over the messages, with those that are translated.
  unfoldable pub translate_messages :
      List RequestMessage → List (ConverseMessage J) → List (ConverseMessage J)
  translate_messages [] out = out
  translate_messages (m ∷ ms) out =
      translate_messages ms
        (say (known_role m.role) (translate_blocks (parse_content_blocks m.content)) out)

  -- Prompt, as bytes, from the last message of the user.
  unfoldable pub last_user_text : List RequestMessage → Option Str
  last_user_text [] = none
  last_user_text (m ∷ ms) = elim (last_user_text ms) [
    | some text ↦ some text
    | none ↦ if str_eq m.role (codes "user") then some (blocks_text m.content) else none
  ]

  unfoldable pub request_prompt : {F : Type 0} → MessagesRequest F J → Bytes
  request_prompt q = elim (last_user_text q.messages) [
    | none ↦ []
    | some text ↦ truncate (utf8 text) 4000
  ]

  -- ToConverse
  unfoldable pub to_converse : {F : Type 0} → MessagesRequest F J → ConverseRequest F J
  to_converse q =
      let drop_tools = drops_tools q.tool_choice in
      record {
        messages = translate_messages q.messages [];
        system = blocks_text q.system;
        tools = if drop_tools then [] else q.tools;
        tool_choice = elim q.tools [
          | [] ↦ none
          | t ∷ ts ↦
              if drop_tools
              then none
              else elim q.tool_choice [ none ↦ none | some c ↦ some (choice_of c) ]
        ];
        max_tokens = if ltb_ℤ (pos 0) q.max_tokens then some q.max_tokens else none;
        temperature = q.temperature;
        top_p = q.top_p;
        stop_sequences = q.stop_sequences;
        stream = q.stream;
      }
