-- ===== src/Compat/Routes.antt =====
-- internal/controller/compat: the two routes, from a decoded request to its billing job.
use orbit_api.Compat.Openai.Request as OpenaiRequest
use orbit_api.Compat.Anthropic.Request as AnthropicRequest
use orbit_api.Common.{if◌then◌else◌}
use orbit_api.Billing.Queue.{JobCodec}
use orbit_api.Limiter.{Float64}
use orbit_api.Inference.Payload.{Decoder}
use orbit_api.Inference.Relay.{StreamSink}
use orbit_api.Inference.Dispatch.{Provider}
use orbit_api.Inference.Chat.{Setting, Server}
use orbit_api.Inference.Converse.{Beyond, handle_converse}

module _ {F J S : Type 0} (float : Float64 F) (dec : Decoder) (provider : Provider)
    (beyond : Beyond F J S) (sink : StreamSink S) (codec : JobCodec) (e : Setting) where
  -- ChatCompletions
  unfoldable pub chat_completions :
      OpenaiRequest.RequestDecoder J
      → OpenaiRequest.ChatCompletionRequest F J
      → Server float S
      → Server float S
  chat_completions requests q w =
      if OpenaiRequest.request_is_valid q
      then handle_converse float dec provider beyond sink codec e q.model
          (OpenaiRequest.request_prompt requests q) (OpenaiRequest.to_converse requests q) w
      else w

  -- Messages
  unfoldable pub messages :
      AnthropicRequest.RequestDecoder J
      → AnthropicRequest.MessagesRequest F J
      → Server float S
      → Server float S
  messages requests q w =
      if AnthropicRequest.request_is_valid q
      then handle_converse float dec provider beyond sink codec e q.model
          (AnthropicRequest.request_prompt requests q) (AnthropicRequest.to_converse requests q) w
      else w
