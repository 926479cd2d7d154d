-- ===== src/Inference/Request.antt =====
-- internal/services/inference: request.go, the requests of converse.go, and the texts of tokens.go from
-- which their tokens are estimated. A JSON object (map[string]any) and a float64 are opaque.
use orbit_api.Common.{
  ℕ, zero, suc, ◌+◌, ◌/◌, ◌%◌, Bool, true, false, Option, none, some, List, [], ◌∷◌, ◌++◌, ◌&&◌,
  ◌||◌, not, ltb, leb, length, if◌then◌else◌,
}
use orbit_api.Common.Int.{ℤ}
use orbit_api.Common.Str.{Str, codes, str_eq, is_empty}
use orbit_api.Inference.Bytes.{Bytes}
use orbit_api.Webhook.Text.{trim_space}

pub record ChatMessage : Type 0 where
  pub role : Str
  pub content : Str

pub record ChatRequest (F : Type 0) : Type 0 where
  pub messages : List ChatMessage
  pub max_tokens : ℤ
  pub temperature : F
  pub stream : Option Bool

-- WantsStream
abbrev pub wants_stream : {F : Type 0} → ChatRequest F → Bool
wants_stream r = elim r.stream [ none ↦ false | some b ↦ b ]

-- The bytes of a code point, and of a text.
abbrev utf8_of : ℕ → Bytes
utf8_of c =
    if ltb c 128
    then c ∷ []
    else if ltb c 2048
    then (192 + c / 64) ∷ (128 + c % 64) ∷ []
    else if ltb c 65536
    then (224 + c / 4096) ∷ (128 + c / 64 % 64) ∷ (128 + c % 64) ∷ []
    else (240 + c / 262144) ∷ (128 + c / 4096 % 64) ∷ (128 + c / 64 % 64) ∷ (128 + c % 64) ∷ []

unfoldable pub utf8 : Str → Bytes
utf8 [] = []
utf8 (c ∷ cs) = utf8_of c ++ utf8 cs

unfoldable pub take : ℕ → Bytes → Bytes
take zero bs = []
take (suc n) [] = []
take (suc n) (b ∷ bs) = b ∷ take n bs

-- truncate, which cuts at a byte.
unfoldable pub truncate : Bytes → ℕ → Bytes
truncate value max = if leb (length value) max then value else take max value

-- The last message of the user, as Prompt finds it from behind.
unfoldable pub last_of_user : List ChatMessage → Option Str
last_of_user [] = none
last_of_user (m ∷ ms) = elim (last_of_user ms) [
  | some text ↦ some text
  | none ↦ if str_eq m.role (codes "user") then some m.content else none
]

-- Prompt, as bytes.
unfoldable pub prompt : {F : Type 0} → ChatRequest F → Bytes
prompt r = elim (last_of_user r.messages) [
  | none ↦ []
  | some text ↦ truncate (utf8 (trim_space text)) 4000
]

unfoldable pub is_valid_message : ChatMessage → Bool
is_valid_message m =
    (str_eq (trim_space m.role) (codes "user") || str_eq (trim_space m.role) (codes "assistant"))
    && not (is_empty (trim_space m.content))

unfoldable pub all_valid : List ChatMessage → Bool
all_valid [] = true
all_valid (m ∷ ms) = is_valid_message m && all_valid ms

abbrev no_messages : List ChatMessage → Bool
no_messages [] = true
no_messages (m ∷ ms) = false

-- isValid of ChatRequest
unfoldable pub chat_is_valid : {F : Type 0} → ChatRequest F → Bool
chat_is_valid r = not (no_messages r.messages) && all_valid r.messages

unfoldable pub messages_text : List ChatMessage → Str
messages_text [] = []
messages_text (m ∷ ms) = m.content ++ (10 ∷ messages_text ms)

-- chatInputText
unfoldable pub chat_input_text : {F : Type 0} → ChatRequest F → Str
chat_input_text r = messages_text r.messages

-- The request of converse.go, over the type of JSON objects.
pub record ToolUseBlock (J : Type 0) : Type 0 where
  pub tool_use_id : Str
  pub name : Str
  pub input : J

-- A block has its three fields at once; the source sets one of them. The content of a result is a list
-- of blocks.
mutual
  pub data ContentBlock (J : Type 0) : Type 0 where
    block : Str → Option (ToolUseBlock J) → ToolResult J → ContentBlock J

  pub data ToolResult (J : Type 0) : Type 0 where
    no_result : ToolResult J
    result : Str → Blocks J → Str → ToolResult J

  pub data Blocks (J : Type 0) : Type 0 where
    nil : Blocks J
    cons : ContentBlock J → Blocks J → Blocks J

pub record ConverseMessage (J : Type 0) : Type 0 where
  pub role : Str
  pub content : List (ContentBlock J)

pub record ToolSpec (J : Type 0) : Type 0 where
  pub name : Str
  pub description : Str
  pub input_schema : J

pub record ToolChoice : Type 0 where
  pub mode : Str
  pub tool_name : Str

pub record ConverseRequest (F J : Type 0) : Type 0 where
  pub messages : List (ConverseMessage J)
  pub system : Str
  pub tools : List (ToolSpec J)
  pub tool_choice : Option ToolChoice
  pub max_tokens : Option ℤ
  pub temperature : Option F
  pub top_p : Option F
  pub stop_sequences : List Str
  pub stream : Bool
