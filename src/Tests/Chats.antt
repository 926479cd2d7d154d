-- ===== src/Tests/Chats.antt =====
-- Whole chat requests: one that is answered and charged, and one that the provider does not answer.
use orbit_api.Billing.Processor
use orbit_api.Common.Result.{Result, err, ok}
use orbit_api.Common.{map, ℕ, ◌≡◌, refl, true, false, none, some, [], ◌∷◌}
use orbit_api.Common.Int.{pos}
use orbit_api.Common.Str.{codes}
use orbit_api.Store.{Organization}
use orbit_api.Billing.Queue.{publish, enqueue}
use orbit_api.Billing.Processor.{
  vendor_amount, process_job, Reserver, get_by_catalogue_id, load_pricing, planner, reserve,
}
use orbit_api.Limiter.{fresh, perform_all}
use orbit_api.Limiter.Sound.{inflight_of}
use orbit_api.Inference.Dispatch.{
  ChatResult, ChatError, ModelCatalogue, Provider, Reply, Outside, unreachable, not_called,
  chat_once, parse_bedrock_usage, bedrock_converse_body, dispatch_chat,
}
use orbit_api.Inference.Request.{
  utf8, truncate, last_of_user, prompt, messages_text, chat_input_text, is_valid_message, all_valid,
  chat_is_valid, ChatRequest,
}
use orbit_api.Inference.Chat.{
  is_2xx, usage_job, bill, fill_cancelled_input, get_by_identifier, resolve_model, place_hold_for,
  held_request, admitted_request, gated, Setting, Server, chat, handle_chat,
}
use orbit_api.Inference.Tokens.{estimate_tokens, estimate_input_tokens}
use orbit_api.Inference.Dispatch.Mantle.{
  cut_prefix, after_slash, profile_id, strip_first, strip_openai_cris_prefix, mantle_model_id,
  uses_mantle_responses,
}
use orbit_api.Inference.Payload.{Decoder}
use orbit_api.Inference.Relay.{StreamSink}
use orbit_api.Inference.Chat.Slots.{handle_chat_gives_back}
use orbit_api.Webhook.Text.{has_prefix, is_space, trim_right, trim_left, trim_space}
use orbit_api.Tests.Data.{runs, answers, acme, wallet}
use orbit_api.Tests.Limits.{counts, whole, limits}
use orbit_api.Tests.Records.{h1}
use orbit_api.Tests.Streams.{plain}
use orbit_api.Tests.Queues.{one_job}

abbrev pub sonnet_model : ModelCatalogue
sonnet_model = record {
  id = codes "sonnet";
  slug = codes "claude-sonnet";
  provider = codes "bedrock";
  model_id = codes "anthropic.claude-sonnet";
  is_active = true;
}

-- A body that reports 200 tokens of input and 100 of output.
abbrev pub reporting : Decoder
reporting = record plain {
  usage =
      λ p. some (record { input_tokens = pos 200; output_tokens = pos 100; latency_ms = pos 900 });
}

abbrev pub up : Provider
up = record {
  converse = λ id p. Reply.replied (pos 200) (some (codes "{}"));
  converse_stream = λ id p. unreachable;
  elapsed = pos 7;
}

abbrev gone : Provider
gone = record up { converse = λ id p. unreachable }

abbrev pub outside : Outside ℕ (Unit {0}) (Unit {0})
outside = record { encode = λ b. some (codes "{}"); call_mantle = λ entry q s. (err not_called, s) }

abbrev pub silent : StreamSink (Unit {0})
silent = record { handle_frame = λ t p s. (ok tt, s); close = λ failed s. (ok tt, s) }

abbrev pub asked : ChatRequest ℕ
asked = record {
  messages = record { role = codes "user"; content = codes "hello" } ∷ [];
  max_tokens = pos 0;
  temperature = 0;
  stream = none;
}

abbrev pub setting : Setting
setting = record {
  organization_id = acme;
  user_id = [];
  api_key_id = [];
  playground = false;
  reserver = record { threshold = pos 10000; default_max = pos 4096; hold_ttl = pos 60000000000 };
  catalogue = some (sonnet_model ∷ []);
  link = answers;
  now = 5;
  hold_id = h1;
  link_after = answers;
  now_after = 9;
  request_id = codes "r1";
  job_key = codes "k1";
  sent = true;
}

abbrev pub server : Server whole (Unit {0})
server = record { db = wallet; queue = []; limiter = fresh whole limits; client = tt }

handle_chat_gives_back_example :
    inflight_of whole acme
      (handle_chat whole
        (Unit {0})
        reporting
        up
        outside
        silent
        one_job
        setting
        (codes "claude-sonnet")
        asked
        server).limiter.memory.orgs
    ≡ inflight_of whole acme server.limiter.memory.orgs
unfolding perform_all
handle_chat_gives_back_example =
    handle_chat_gives_back whole reporting up outside silent one_job setting (codes "claude-sonnet")
      asked limits [] server refl acme

abbrev answer : Result ChatError ChatResult
answer =
    (chat whole (Unit {0}) reporting up outside silent one_job setting (codes "claude-sonnet") asked
      server).0

-- Opens a chat request for a run.
unfoldable pub chats : Unit {0}
unfolding runs counts chat handle_chat gated admitted_request held_request place_hold_for
    resolve_model get_by_identifier chat_is_valid all_valid is_valid_message trim_space trim_left
    trim_right is_space chat_input_text messages_text dispatch_chat uses_mantle_responses
    mantle_model_id strip_openai_cris_prefix strip_first profile_id after_slash cut_prefix
    has_prefix bedrock_converse_body chat_once parse_bedrock_usage fill_cancelled_input
    estimate_input_tokens estimate_tokens reserve load_pricing get_by_catalogue_id planner bill
    enqueue process_job vendor_amount usage_job is_2xx prompt last_of_user truncate utf8 publish
    Processor.release
chats = tt

-- 200 tokens of input and 100 of output cost 1400 micros, whatever was frozen.
charged_runs :
    map
      (λ (o : Organization). o.credits_remaining_micros)
      (handle_chat whole
        (Unit {0})
        reporting
        up
        outside
        silent
        one_job
        setting
        (codes "claude-sonnet")
        asked
        server).db.organizations
    ≡ pos 998600 ∷ []
unfolding chats
charged_runs = refl

unserved_runs :
    map
      (λ (o : Organization). o.credits_remaining_micros)
      (handle_chat whole
        (Unit {0})
        reporting
        gone
        outside
        silent
        one_job
        setting
        (codes "claude-sonnet")
        asked
        server).db.organizations
    ≡ pos 1000000 ∷ []
unfolding chats
unserved_runs = refl
