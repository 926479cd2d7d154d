-- ===== src/Tests/Translations.antt =====
-- Requests of the two dialects: what they are translated to, and one that is answered and charged.
use orbit_api.Compat.Openai.Request as OpenaiRequest
use orbit_api.Compat.Openai.Request.Order as OpenaiOrder
use orbit_api.Compat.Anthropic.Request as AnthropicRequest
use orbit_api.Compat.Anthropic.Request.Order as AnthropicOrder
use orbit_api.Common.Result.{Result, err}
use orbit_api.Common.{map, ℕ, ◌≡◌, refl, false, none, some, List, [], ◌∷◌, length}
use orbit_api.Common.Int.{pos}
use orbit_api.Common.Str.{Str, codes, str_eq}
use orbit_api.Store.{Organization}
use orbit_api.Inference.Dispatch.{ChatResult, ChatError, not_called}
use orbit_api.Inference.Converse.{
  tool_config_of, choice_wire, messages_valid, converse_is_valid, converse_input_text,
  converse_body, dispatch_converse, Beyond, converse, handle_converse,
}
use orbit_api.Inference.Request.{ConverseRequest, ConverseMessage}
use orbit_api.Compat.Content.{join}
use orbit_api.Compat.Routes.{chat_completions}
use orbit_api.Compat.Dialects.{dialects_translate}
use orbit_api.Tests.Chats.{chats, reporting, up, silent, setting, server}
use orbit_api.Tests.Limits.{whole}
use orbit_api.Tests.Queues.{one_job}
use orbit_api.Webhook.Text.{is_space, trim_right, trim_left, trim_space}

-- Content is read as the text that it is.
abbrev openai : OpenaiRequest.RequestDecoder (Unit {0})
openai = record {
  string = λ raw. some raw;
  parts = λ raw. none;
  strings = λ raw. none;
  choice = λ raw. none;
  arguments = λ raw. tt;
}

abbrev says : Str → Str → OpenaiRequest.RequestMessage
says role text = record { role = role; content = text; tool_calls = []; tool_call_id = [] }

-- Two tools were called at once, and both have answered.
abbrev with_tools : List OpenaiRequest.RequestMessage
with_tools =
    says (codes "system") (codes "be brief")
    ∷ says (codes "user") (codes "weather in two cities?")
    ∷ record (says (codes "assistant") []) {
      tool_calls =
          record { id = codes "c1"; name = codes "weather"; arguments = [] }
          ∷ record { id = codes "c2"; name = codes "weather"; arguments = [] }
          ∷ [];
    }
    ∷ record (says (codes "tool") (codes "rain")) { tool_call_id = codes "c1" }
    ∷ record (says (codes "tool") (codes "sun")) { tool_call_id = codes "c2" }
    ∷ says (codes "user") (codes "thanks")
    ∷ []

abbrev completion : OpenaiRequest.ChatCompletionRequest ℕ (Unit {0})
completion = record {
  model = codes "claude-sonnet";
  messages = with_tools;
  tools = [];
  tool_choice = [];
  max_tokens = none;
  max_completion_tokens = none;
  temperature = none;
  top_p = none;
  stop = [];
  stream = false;
  include_usage = none;
}

abbrev anthropic : AnthropicRequest.RequestDecoder (Unit {0})
anthropic = record { string = λ raw. some raw; blocks = λ raw. []; no_input = tt }

abbrev messages_request : AnthropicRequest.MessagesRequest ℕ (Unit {0})
messages_request = record {
  model = codes "claude-sonnet";
  max_tokens = pos 100;
  system = [];
  messages = record { role = codes "user"; content = codes "hello" } ∷ [];
  tools = [];
  tool_choice = none;
  temperature = none;
  top_p = none;
  stop_sequences = [];
  stream = false;
}

dialects_translate_example :
    OpenaiOrder.Translates openai completion (OpenaiRequest.to_converse openai completion)
    × AnthropicOrder.Translates anthropic messages_request
        (AnthropicRequest.to_converse anthropic messages_request)
dialects_translate_example = dialects_translate openai anthropic completion messages_request

-- The two results are in one message of the user.
grouped_runs :
    map
      (λ (m : ConverseMessage (Unit {0})). length m.content)
      (OpenaiRequest.to_converse openai completion).messages
    ≡ 1 ∷ 2 ∷ 2 ∷ 1 ∷ []
unfolding OpenaiRequest.to_converse OpenaiRequest.translate_messages OpenaiRequest.translate_message
    OpenaiRequest.flush_tool_results OpenaiRequest.tool_uses OpenaiRequest.content_text str_eq
    trim_space trim_left trim_right is_space
grouped_runs = refl

abbrev beyond : Beyond ℕ (Unit {0}) (Unit {0})
beyond = record {
  marshaller = record { marshal_input = λ x. none; marshal_tools = λ ts. none };
  encode = λ b. some (codes "{}");
  call_mantle = λ entry q s. (err not_called, s);
}

abbrev translated : ConverseRequest ℕ (Unit {0})
translated = OpenaiRequest.to_converse openai completion

abbrev answer : Result ChatError ChatResult
answer =
    (converse whole reporting up beyond silent setting (codes "claude-sonnet") translated server).0

-- The whole route: the tokens that the provider reports are charged.
route_runs :
    map
      (λ (o : Organization). o.credits_remaining_micros)
      (chat_completions whole reporting up beyond silent one_job setting openai completion
        server).db.organizations
    ≡ pos 998600 ∷ []
unfolding chats chat_completions handle_converse converse dispatch_converse converse_body
    converse_input_text converse_is_valid messages_valid choice_wire tool_config_of join
    OpenaiRequest.request_is_valid OpenaiRequest.request_prompt OpenaiRequest.last_user_text
    OpenaiRequest.to_converse OpenaiRequest.translate_messages OpenaiRequest.translate_message
    OpenaiRequest.flush_tool_results OpenaiRequest.tool_uses OpenaiRequest.content_text
    OpenaiRequest.tool_choice OpenaiRequest.functions OpenaiRequest.stop_sequences
route_runs = refl
