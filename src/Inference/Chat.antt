-- ===== src/Inference/Chat.antt =====
-- internal/services/inference/service.go: the life of a chat request, from the rate limiter to the
-- provider's answer, and, with controller/inference and controller/shared, to its billing job.
pub mod Reported
pub mod Slots
pub mod Refunds
pub mod Aftermath
pub mod Reserves
pub mod Costs
use orbit_api.Billing.Processor
use orbit_api.Limiter
use orbit_api.Common.{
  ℕ, Bool, true, false, Option, none, some, List, [], ◌∷◌, ◌&&◌, ◌||◌, not, length, if◌then◌else◌,
}
use orbit_api.Common.Int.{ℤ, pos, ltb_ℤ, leb_ℤ}
use orbit_api.Common.Str.{Str, codes, str_eq, is_empty}
use orbit_api.Common.Result.{Result, ok, err}
use orbit_api.Store.{Db}
use orbit_api.Store.Tx.{Link, low_on_credits}
use orbit_api.Billing.Holds.{Hold}
use orbit_api.Billing.Ledger.{success}
use orbit_api.Billing.Processor.{Reserver, ReserveRequest, reserve, Job}
use orbit_api.Billing.Queue.{JobCodec, Message, Shared, enqueue}
use orbit_api.Limiter.{Float64, Held, allow}
use orbit_api.Inference.Bytes.{Bytes}
use orbit_api.Inference.Payload.{Decoder}
use orbit_api.Inference.Relay.{StreamSink}
use orbit_api.Inference.Request.{
  ChatRequest, wants_stream, chat_is_valid, chat_input_text, prompt, truncate,
}
use orbit_api.Inference.Tokens.{estimate_tokens, estimate_input_tokens}
use orbit_api.Inference.Dispatch.{
  ModelCatalogue, ChatError, invalid, rate_limited, not_looked_up, model_not_found,
  unsupported_provider, refused, ChatResult, Provider, Outside, dispatch_chat,
}

-- GetByIdentifier, over the rows of model_catalogue.
unfoldable pub get_by_identifier : Str → List ModelCatalogue → Option ModelCatalogue
get_by_identifier identifier [] = none
get_by_identifier identifier (m ∷ ms) =
    if m.is_active && (str_eq m.slug identifier || str_eq m.id identifier)
    then some m
    else get_by_identifier identifier ms

-- resolveModel, where the catalogue answers or not.
unfoldable pub resolve_model : Option (List ModelCatalogue) → Str → Result ChatError ModelCatalogue
resolve_model none identifier = err not_looked_up
resolve_model (some models) identifier = elim (get_by_identifier identifier models) [
  | none ↦ err model_not_found
  | some m ↦ if str_eq m.provider (codes "bedrock") then ok m else err unsupported_provider
]

-- What one request meets: who asks, what the reserver was configured with, the catalogue, and for each
-- call of the database the statements that it fails to answer, the time and new ids. The last three
-- are of the Release, and of the record of the job.
pub record Setting : Type 0 where
  pub organization_id : Str
  pub user_id : Str
  pub api_key_id : Str
  pub playground : Bool
  pub reserver : Reserver
  pub catalogue : Option (List ModelCatalogue)
  pub link : Link
  pub now : ℕ
  pub hold_id : Str
  pub link_after : Link
  pub now_after : ℕ
  pub request_id : Str
  pub job_key : Str
  pub sent : Bool

-- placeHold
unfoldable pub place_hold_for : Setting → Str → ℤ → ℤ → Db → Result ChatError Hold × Db
place_hold_for e catalogue_id input_tokens requested d =
    let (placed, d') =
      reserve e.link e.now e.hold_id e.reserver
        (record {
          organization_id = e.organization_id;
          catalogue_id = catalogue_id;
          input_tokens = input_tokens;
          requested_max_tokens = requested;
        })
        d in
    if is_empty e.organization_id then (err (refused low_on_credits), d) else (
      elim placed [
        | err x ↦ err (refused x)
        | ok h ↦
            if is_empty h.id || ltb_ℤ h.max_tokens (pos 1)
            then err (refused low_on_credits)
            else ok h
      ],
      d',
    )

-- fillCancelledInput
unfoldable pub fill_cancelled_input : Str → ChatResult → ChatResult
fill_cancelled_input text r =
    if not r.cancelled || ltb_ℤ (pos 0) r.input_tokens
    then r
    else record r { input_tokens = pos (estimate_tokens text) }

-- RecordUsage of controller/shared: the job of a result. Only a status of 2xx is a success.
unfoldable pub is_2xx : ChatResult → Bool
is_2xx r = not (ltb_ℤ r.status_code (pos 200) || leb_ℤ (pos 300) r.status_code)

unfoldable pub usage_job : Setting → Bytes → Bytes → ChatResult → Job
usage_job e text err_body r = record {
  idempotency_key = e.job_key;
  organization_id = e.organization_id;
  api_key_id = e.api_key_id;
  model_catalogue_id = r.model_catalogue_id;
  prompt = text;
  input_tokens = r.input_tokens;
  output_tokens = r.output_tokens;
  latency_ms = r.latency_ms;
  status = if is_2xx r then success else codes "error";
  error = if is_2xx r then [] else truncate err_body 500;
  hold_id = r.hold_id;
}

-- What the controller says went wrong.
abbrev pub err_body_of : ChatResult → Bytes
err_body_of r = if r.streamed then codes "stream interrupted" else r.body

module _ {F : Type 0} (float : Float64 F) (S : Type 0) where
  -- The database, its queue, the limiter, and what the client was sent.
  pub record Server : Type 0 where
    pub db : Db
    pub queue : List Message
    pub limiter : Held float
    pub client : S

  -- A dispatch of a model, for so many tokens at most.
  abbrev pub Dispatcher : Type 0
  Dispatcher = ModelCatalogue → ℤ → S → Result ChatError ChatResult × S

  -- With a hold: the provider is called, and the hold is given back if that fails.
  unfoldable pub held_request :
      Setting
      → Str
      → Dispatcher
      → ModelCatalogue
      → Hold
      → Server
      → Result ChatError ChatResult × Server
  held_request e text dispatch entry h w =
      let (answer, c) = dispatch entry h.max_tokens w.client in
      elim answer [
        | err x ↦ (
          err x,
          record w { client = c; db = (Processor.release e.link_after e.now_after h.id w.db).1 },
        )
        | ok r ↦
            (ok (fill_cancelled_input text (record r { hold_id = h.id })), record w { client = c })
      ]

  -- Behind the rate limiter.
  unfoldable pub admitted_request :
      Setting → Str → Str → ℤ → Dispatcher → Server → Result ChatError ChatResult × Server
  admitted_request e model text requested dispatch w = elim (resolve_model e.catalogue model) [
    | err x ↦ (err x, w)
    | ok entry ↦
        let (placed, d) =
          place_hold_for e entry.id (pos (estimate_input_tokens text)) requested w.db in
        elim placed [
          | err x ↦ (err x, record w { db = d })
          | ok h ↦ held_request e text dispatch entry h (record w { db = d })
        ]
  ]

  -- What Chat and Converse share. The release of the limiter's place is deferred.
  unfoldable pub gated :
      Setting → Bool → Str → Str → ℤ → Dispatcher → Server → Result ChatError ChatResult × Server
  gated e valid model text requested dispatch w =
      let (admitted, h) = allow float e.now e.organization_id e.user_id e.playground w.limiter in
      let (answer, w') =
        admitted_request e model text requested dispatch (record w { limiter = h }) in
      if not valid then (err invalid, w) else elim admitted [
        | err x ↦ (err (rate_limited x), record w { limiter = h })
        | ok left ↦ (
          answer,
          record w' { limiter = Limiter.release float (length w.limiter.reservations) w'.limiter },
        )
      ]

  -- The enqueuing of RecordUsage, for a result of Chat.
  unfoldable pub bill : JobCodec → Setting → Bytes → ChatResult → Server → Server
  bill codec e text result w =
      let s =
        enqueue codec e.link_after e.now_after e.request_id e.sent
          (usage_job e text (err_body_of result) result) (record { db = w.db; queue = w.queue }) in
      record w { db = s.db; queue = s.queue }

  module _ {J : Type 0} (dec : Decoder) (provider : Provider) (outside : Outside F J S)
      (sink : StreamSink S) (codec : JobCodec) where
    -- Chat
    unfoldable pub chat :
        Setting → Str → ChatRequest F → Server → Result ChatError ChatResult × Server
    chat e model r w =
        gated e (chat_is_valid r) model (chat_input_text r) r.max_tokens
          (λ entry max.
            dispatch_chat float dec provider outside sink entry (record r { max_tokens = max }))
          w

    -- Chat of the controller, behind the decoding of the request.
    unfoldable pub handle_chat : Setting → Str → ChatRequest F → Server → Server
    handle_chat e model r w =
        let (answer, w') = chat e model r w in
        elim answer [ err x ↦ w' | ok result ↦ bill codec e (prompt r) result w' ]
