-- ===== src/Compat/Openai/Request.antt =====
-- internal/services/compat/openai/request.go: a chat completion request and its translation.
pub mod Said
pub mod Apart
pub mod Order
use orbit_api.Common.{
  ℕ, Bool, true, false, Option, none, some, List, [], ◌∷◌, ◌++◌, ◌&&◌, ◌||◌, not, if◌then◌else◌,
}
use orbit_api.Common.Int.{ℤ}
use orbit_api.Common.Str.{Str, codes, str_eq, is_empty}
use orbit_api.Inference.Bytes.{Bytes}
use orbit_api.Inference.Request.{
  utf8, truncate, ContentBlock, ConverseMessage, ToolSpec, ToolChoice, ConverseRequest,
}
use orbit_api.Compat.Content.{known_role, join, text_block, tool_use_block, tool_result_block, say}
use orbit_api.Webhook.Text.{trim_space}

-- A part of a content that is a list.
pub record Part : Type 0 where
  pub kind : Str
  pub text : Str

-- What encoding/json makes of a raw message as a string, as parts, as strings and as the object of a
-- tool choice (its type and its function's name); and of a tool's arguments, where an error is ignored.
pub record RequestDecoder (J : Type 0) : Type 0 where
  pub string : Bytes → Option Str
  pub parts : Bytes → Option (List Part)
  pub strings : Bytes → Option (List Str)
  pub choice : Bytes → Option (Str × Str)
  pub arguments : Str → J

pub record RequestToolCall : Type 0 where
  pub id : Str
  pub name : Str
  pub arguments : Str

pub record RequestMessage : Type 0 where
  pub role : Str
  pub content : Bytes
  pub tool_calls : List RequestToolCall
  pub tool_call_id : Str

pub record RequestTool (J : Type 0) : Type 0 where
  pub kind : Str
  pub name : Str
  pub description : Str
  pub parameters : J

pub record ChatCompletionRequest (F J : Type 0) : Type 0 where
  pub model : Str
  pub messages : List RequestMessage
  pub tools : List (RequestTool J)
  pub tool_choice : Bytes
  pub max_tokens : Option ℤ
  pub max_completion_tokens : Option ℤ
  pub temperature : Option F
  pub top_p : Option F
  pub stop : Bytes
  pub stream : Bool
  pub include_usage : Option Bool

-- The loop over the parts, with what the builder holds.
unfoldable pub parts_text : List Part → Str → Str
parts_text [] b = b
parts_text (p ∷ ps) b =
    if str_eq p.kind (codes "text") && not (is_empty p.text)
    then parts_text ps (if is_empty b then p.text else b ++ (10 ∷ p.text))
    else parts_text ps b

abbrev no_bytes : Bytes → Bool
no_bytes [] = true
no_bytes (b ∷ bs) = false

-- IsValid
unfoldable pub request_is_valid : {F J : Type 0} → ChatCompletionRequest F J → Bool
request_is_valid q =
    not (is_empty (trim_space q.model)) && (elim q.messages [ [] ↦ false | m ∷ ms ↦ true ])

-- WantsUsage
unfoldable pub wants_usage : {F J : Type 0} → ChatCompletionRequest F J → Bool
wants_usage q = elim q.include_usage [ none ↦ false | some b ↦ b ]

-- The state of ToConverse's loop.
pub record Translation (J : Type 0) : Type 0 where
  pub system_parts : List Str
  pub messages : List (ConverseMessage J)
  pub pending_tool_results : List (ContentBlock J)

-- flushToolResults
unfoldable pub flush_tool_results : {J : Type 0} → Translation J → Translation J
flush_tool_results t = record t {
  messages = say (codes "user") t.pending_tool_results t.messages;
  pending_tool_results = [];
}

abbrev pub is_system : Str → Bool
is_system role = str_eq role (codes "system") || str_eq role (codes "developer")

-- `if text != "" { xs = append(xs, ...) }`
abbrev pub unless_empty : {A : Type 0} → Str → A → List A
unless_empty text x = if is_empty text then [] else x ∷ []

module _ {J : Type 0} (dec : RequestDecoder J) where
  -- contentText
  unfoldable pub content_text : Bytes → Str
  content_text raw = if no_bytes raw then [] else elim (dec.string raw) [
    | some s ↦ s
    | none ↦ elim (dec.parts raw) [ some ps ↦ parts_text ps [] | none ↦ [] ]
  ]

  -- stopSequences
  unfoldable pub stop_sequences : Bytes → List Str
  stop_sequences raw = if no_bytes raw then [] else elim (dec.string raw) [
    | some s ↦ unless_empty s s
    | none ↦ elim (dec.strings raw) [ some list ↦ list | none ↦ [] ]
  ]

  -- toolChoice, with whether the tools are dropped.
  unfoldable pub tool_choice : Bytes → Option ToolChoice × Bool
  tool_choice raw = if no_bytes raw then (none, false) else elim (dec.string raw) [
    | some s ↦
        if str_eq s (codes "none")
        then (none, true)
        else if str_eq s (codes "required")
        then (some (record { mode = codes "any"; tool_name = [] }), false)
        else (some (record { mode = codes "auto"; tool_name = [] }), false)
    | none ↦ elim (dec.choice raw) [
      | none ↦ (none, false)
      | some c ↦
          if str_eq c.0 (codes "function") && not (is_empty c.1)
          then (some (record { mode = codes "tool"; tool_name = c.1 }), false)
          else (none, false)
    ]
  ]

  unfoldable pub tool_uses : List RequestToolCall → List (ContentBlock J)
  tool_uses [] = []
  tool_uses (c ∷ cs) = tool_use_block c.id c.name (dec.arguments c.arguments) ∷ tool_uses cs

  -- The blocks of a message of the user or of the assistant: its text and its calls.
  abbrev pub spoken : RequestMessage → List (ContentBlock J)
  spoken m =
      unless_empty (content_text m.content) (text_block (content_text m.content))
      ++ tool_uses m.tool_calls

  -- The body of the loop.
  unfoldable pub translate_message : Translation J → RequestMessage → Translation J
  translate_message t m =
      let role = trim_space m.role in
      let text = content_text m.content in
      let flushed = flush_tool_results t in
      if is_system role
      then record t { system_parts = t.system_parts ++ unless_empty text text }
      else if str_eq role (codes "tool")
      then record t {
        pending_tool_results =
            t.pending_tool_results ++ tool_result_block m.tool_call_id text [] ∷ [];
      }
      else record flushed { messages = say (known_role role) (spoken m) flushed.messages }

  unfoldable pub translate_messages : List RequestMessage → Translation J → Translation J
  translate_messages [] t = flush_tool_results t
  translate_messages (m ∷ ms) t = translate_messages ms (translate_message t m)

  -- The tools that are functions.
  unfoldable pub functions : List (RequestTool J) → List (ToolSpec J)
  functions [] = []
  functions (t ∷ ts) =
      if not (is_empty t.kind) && not (str_eq t.kind (codes "function"))
      then functions ts
      else record { name = t.name; description = t.description; input_schema = t.parameters }
        ∷ functions ts

  -- Prompt, as bytes, from the last message of the user.
  unfoldable pub last_user_text : List RequestMessage → Option Str
  last_user_text [] = none
  last_user_text (m ∷ ms) = elim (last_user_text ms) [
    | some text ↦ some text
    | none ↦ if str_eq m.role (codes "user") then some (content_text m.content) else none
  ]

  unfoldable pub request_prompt : {F : Type 0} → ChatCompletionRequest F J → Bytes
  request_prompt q = elim (last_user_text q.messages) [
    | none ↦ []
    | some text ↦ truncate (utf8 text) 4000
  ]

  -- ToConverse
  unfoldable pub to_converse : {F : Type 0} → ChatCompletionRequest F J → ConverseRequest F J
  to_converse q =
      let t =
        translate_messages q.messages
          (record { system_parts = []; messages = []; pending_tool_results = [] }) in
      let (choice, drop_tools) = tool_choice q.tool_choice in
      record {
        messages = t.messages;
        system = join t.system_parts (10 ∷ 10 ∷ []);
        tools = if drop_tools then [] else functions q.tools;
        tool_choice = if drop_tools then none else elim q.tools [ [] ↦ none | u ∷ us ↦ choice ];
        max_tokens = elim q.max_completion_tokens [ some max ↦ some max | none ↦ q.max_tokens ];
        temperature = q.temperature;
        top_p = q.top_p;
        stop_sequences = stop_sequences q.stop;
        stream = q.stream;
      }
