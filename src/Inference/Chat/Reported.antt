-- ===== src/Inference/Chat/Reported.antt =====
-- internal/services/inference/service.go: where the tokens of a result come from.
use mathlib.Core.Path.{subst}
use orbit_api.Common.{
  ==_iff, List, ◌≡◌, refl, ap, ◌∙◌, ◌⊎◌, Bool, true, false, Option, none, some, arith, not,
  if◌then◌else◌,
}
use orbit_api.Common.Int.{eq_of_parts, eqb_ℤ, pos, ℤ}
use orbit_api.Common.Str.{Str}
use orbit_api.Common.Result.{ok, err, Result}
use orbit_api.Common.Branches.{if_either, if_known, result_known, result_either, option_either}
use orbit_api.Limiter.{allow, Float64}
use orbit_api.Inference.Tokens.{estimate_input_tokens, estimate_tokens}
use orbit_api.Inference.Chat.{
  place_hold_for, Server, Dispatcher, held_request, admitted_request, resolve_model, Setting, gated,
  fill_cancelled_input,
}
use orbit_api.Inference.Dispatch.{
  not_encoded, unstreamed, streamed_result, Reply, StreamReply, chat_once, chat_stream,
  parse_bedrock_usage, ModelCatalogue, ChatError, Provider, ChatResult,
}
use orbit_api.Inference.Relay.{Relayed, relay_bedrock_stream, Ending, StreamSink}
use orbit_api.Inference.Dispatch.Mantle.{uses_mantle_responses}
use orbit_api.Inference.EventStream.{Frame}
use orbit_api.Inference.Bytes.{Bytes}
use orbit_api.Inference.Payload.{Decoder, Usage}

-- An answer, if there is one, has a property.
abbrev pub IfServed : (ChatResult → Type 0) → Result ChatError ChatResult → Type 0
IfServed Q (err x) = Unit
IfServed Q (ok r) = Q r

pub IfServed-known :
    {S : Type 0} {Q : ChatResult → Type 0} (x : Result ChatError ChatResult × S)
    → ((r : ChatResult) → x.0 ≡ ok r → Q r)
    → IfServed Q x.0
IfServed-known (err x, s) given = tt
IfServed-known (ok r, s) given = given r refl

is_200 : (status : ℤ) → eqb_ℤ status (pos 200) ≡ true → status ≡ pos 200
is_200 status e = eq_of_parts status (pos 200) ((==_iff _ _).0 e)

-- What a body reports, or nothing.
abbrev pub reported_input : Option Usage → ℤ
reported_input none = pos 0
reported_input (some u) = u.input_tokens

abbrev pub reported_output : Option Usage → ℤ
reported_output none = pos 0
reported_output (some u) = u.output_tokens

module _ {S : Type 0} (dec : Decoder) (provider : Provider) (sink : StreamSink S)
    (mantle : ModelCatalogue → ChatResult → Type 0) (text : Str) (entry : ModelCatalogue) where
  -- What the relay makes of a stream.
  abbrev pub counts : List Frame → Ending → S → Relayed
  counts frames ending s = (relay_bedrock_stream dec sink frames ending s).0

  -- The result of a call of the model `entry`: of a body, with the tokens that the body reports; of a
  -- stream, with those that the relay counts, but for the input of a stopped one that reported none,
  -- which is the estimate of `text`; of a refusal in place of a stream, with none; or of the
  -- Responses API.
  pub data Reported (r : ChatResult) : Type 0 where
    buffered :
        (payload : Bytes) (status : ℤ) (body : Bytes)
        → provider.converse entry.model_id payload ≡ Reply.replied status (some body)
        → r.status_code ≡ status
        → r.model_catalogue_id ≡ entry.id
        → r.input_tokens ≡ reported_input (dec.usage body)
        → r.output_tokens ≡ reported_output (dec.usage body)
        → Reported r
    relayed :
        (payload : Bytes) (body : Option Bytes) (frames : List Frame) (ending : Ending) (s : S)
        → provider.converse_stream entry.model_id payload
          ≡ StreamReply.replied (pos 200) body frames ending
        → r.status_code ≡ (if (counts frames ending s).stream_err then pos 502 else pos 200)
        → r.model_catalogue_id ≡ entry.id
        → r.output_tokens ≡ (counts frames ending s).output_tokens
        → (r.input_tokens ≡ (counts frames ending s).input_tokens)
          ⊎ ((r.cancelled ≡ true) × (r.input_tokens ≡ pos (estimate_tokens text)))
        → Reported r
    refused_stream :
        (payload : Bytes) (status : ℤ) (body : Bytes) (frames : List Frame) (ending : Ending)
        → provider.converse_stream entry.model_id payload
          ≡ StreamReply.replied status (some body) frames ending
        → r.status_code ≡ status
        → r.model_catalogue_id ≡ entry.id
        → r.input_tokens ≡ pos 0
        → r.output_tokens ≡ pos 0
        → Reported r
    by_mantle :
        (r0 : ChatResult)
        → uses_mantle_responses entry.model_id ≡ true
        → mantle entry r0
        → r.output_tokens ≡ r0.output_tokens
        → (r.input_tokens ≡ r0.input_tokens)
          ⊎ ((r.cancelled ≡ true) × (r.input_tokens ≡ pos (estimate_tokens text)))
        → Reported r

  -- What the client's result is made of.
  abbrev filled : ChatResult → ChatResult
  filled r = fill_cancelled_input text r

  filled_input :
      (r : ChatResult)
      → ((filled r).input_tokens ≡ r.input_tokens)
        ⊎ (((filled r).cancelled ≡ true) × ((filled r).input_tokens ≡ pos (estimate_tokens text)))
  unfolding fill_cancelled_input
  filled_input r = ground arith

  filled_rest :
      (r : ChatResult)
      → ((filled r).output_tokens ≡ r.output_tokens)
        × ((filled r).status_code ≡ r.status_code)
        × ((filled r).model_catalogue_id ≡ r.model_catalogue_id)
  unfolding fill_cancelled_input
  filled_rest r = (ground arith, ground arith, ground arith)

  filled_whole : (r : ChatResult) → r.cancelled ≡ false → (filled r).input_tokens ≡ r.input_tokens
  unfolding fill_cancelled_input
  filled_whole r c = ground (arith, c)

  -- A dispatch gives such results.
  abbrev pub Reports : Result ChatError ChatResult → Type 0
  Reports = IfServed (λ r. (id : Str) → Reported (filled (record r { hold_id = id })))

  reply_known :
      {B : Type 0} (Q : B → Type 0) (x : Reply) {u : B} {n : ℤ → B} {f : ℤ → Bytes → B}
      → Q u
      → ((status : ℤ) → Q (n status))
      → ((status : ℤ) (body : Bytes) → x ≡ Reply.replied status (some body) → Q (f status body))
      → Q (elim x [
        | Reply.unreachable ↦ u
        | Reply.replied status none ↦ n status
        | Reply.replied status (some body) ↦ f status body
      ])
  reply_known Q Reply.unreachable q n f = q
  reply_known Q (Reply.replied status none) q n f = n status
  reply_known Q (Reply.replied status (some body)) q n f = f status body refl

  stream_reply_known :
      {B : Type 0} (Q : B → Type 0) (x : StreamReply) {u : B}
      {f : ℤ → Option Bytes → List Frame → Ending → B}
      → Q u
      → ((status : ℤ) (body : Option Bytes) (frames : List Frame) (ending : Ending)
          → x ≡ StreamReply.replied status body frames ending
          → Q (f status body frames ending))
      → Q (elim x [
        | StreamReply.unreachable ↦ u
        | StreamReply.replied status body frames ending ↦ f status body frames ending
      ])
  stream_reply_known Q StreamReply.unreachable q f = q
  stream_reply_known Q (StreamReply.replied status body frames ending) q f =
      f status body frames ending refl

  parsed :
      (body : Bytes)
      → ((parse_bedrock_usage dec body).input_tokens ≡ reported_input (dec.usage body))
        × ((parse_bedrock_usage dec body).output_tokens ≡ reported_output (dec.usage body))
  unfolding parse_bedrock_usage
  parsed body = tally (dec.usage body)
    where
      tally :
          (u : Option Usage)
          → let v : Usage = elim u [
            | none ↦ record { input_tokens = pos 0; output_tokens = pos 0; latency_ms = pos 0 }
            | some x ↦ x
          ] in
            (v.input_tokens ≡ reported_input u) × (v.output_tokens ≡ reported_output u)
      tally none = (refl, refl)
      tally (some u) = (refl, refl)

  pub chat_once-Reports : (payload : Bytes) → Reports (chat_once dec provider entry payload)
  unfolding chat_once
  chat_once-Reports payload =
      reply_known Reports (provider.converse entry.model_id payload) tt (λ status. tt)
        (λ status body answered id.
          let (input, output) = parsed body in
          let (out, code, model) = filled_rest _ in
          buffered payload status body answered code model (filled_whole _ refl ∙ input)
            (out ∙ output))

  pub chat_stream-Reports :
      (payload : Bytes) (s : S) → Reports (chat_stream dec sink provider entry payload s).0
  unfolding chat_stream streamed_result unstreamed
  chat_stream-Reports payload s =
      stream_reply_known (λ (r : Result ChatError ChatResult × S). Reports r.0)
        (provider.converse_stream entry.model_id payload) tt
        (λ status body frames ending answered.
          if_known (λ (r : Result ChatError ChatResult × S). Reports r.0) (eqb_ℤ status (pos 200))
            (λ good id.
              let (out, code, model) = filled_rest _ in
              let same : status ≡ pos 200 = is_200 status good in
              relayed payload body frames ending s
                (answered ∙ ap (λ (n : ℤ). StreamReply.replied n body frames ending) same) code
                model out (filled_input _))
            (λ bad. instead status body frames ending answered))
    where
      instead :
          (status : ℤ) (body : Option Bytes) (frames : List Frame) (ending : Ending)
          → provider.converse_stream entry.model_id payload
            ≡ StreamReply.replied status body frames ending
          → Reports (unstreamed provider entry status body)
      instead status none frames ending answered = tt
      instead status (some body) frames ending answered = λ id.
          let (out, code, model) = filled_rest _ in
          refused_stream payload status body frames ending answered code model (filled_whole _ refl)
            out

  pub dispatched-Reports :
      (encoded : Option Bytes) (stream : Bool) (s : S) (called : Result ChatError ChatResult × S)
      → (uses_mantle_responses entry.model_id ≡ true → IfServed (mantle entry) called.0)
      → Reports
          (if uses_mantle_responses entry.model_id then called else elim encoded [
            | none ↦ (err not_encoded, s)
            | some payload ↦
                if stream
                then chat_stream dec sink provider entry payload s
                else (chat_once dec provider entry payload, s)
          ]).0
  dispatched-Reports encoded stream s called by =
      if_known (λ (r : Result ChatError ChatResult × S). Reports r.0)
        (uses_mantle_responses entry.model_id) (λ routed. taken routed called.0 (by routed))
        (λ direct.
          option_either (λ (r : Result ChatError ChatResult × S). Reports r.0) encoded tt
            (λ payload.
              if_either (λ (r : Result ChatError ChatResult × S). Reports r.0) stream
                (chat_stream-Reports payload s) (chat_once-Reports payload)))
    where
      taken :
          uses_mantle_responses entry.model_id ≡ true
          → (x : Result ChatError ChatResult) → IfServed (mantle entry) x
          → Reports x
      taken routed (err x) m = tt
      taken routed (ok r0) m = λ id.
          let (out, code, model) = filled_rest (record r0 { hold_id = id }) in
          by_mantle r0 routed m out (filled_input (record r0 { hold_id = id }))

-- A result of the model that was asked for, with tokens that are `Reported`.
pub record IsReported {S : Type 0} (dec : Decoder) (provider : Provider) (sink : StreamSink S)
    (mantle : ModelCatalogue → ChatResult → Type 0) (e : Setting) (model text : Str)
    (r : ChatResult) : Type 0 where
  pub entry : ModelCatalogue
  pub resolved : resolve_model e.catalogue model ≡ ok entry
  pub reported : Reported dec provider sink mantle text entry r

pub gated-IsReported :
    {F S : Type 0} (float : Float64 F) (dec : Decoder) (provider : Provider) (sink : StreamSink S)
    (mantle : ModelCatalogue → ChatResult → Type 0) (e : Setting) (valid : Bool) (model text : Str)
    (requested : ℤ) (dispatch : Dispatcher float S) (w : Server float S)
    → ((entry : ModelCatalogue) (max : ℤ) (s : S)
        → Reports dec provider sink mantle text entry (dispatch entry max s).0)
    → IfServed
        (IsReported dec provider sink mantle e model text)
        (gated float S e valid model text requested dispatch w).0
unfolding gated admitted_request held_request
gated-IsReported {S = S} float dec provider sink mantle e valid model text requested dispatch w
      dispatched =
    let Q : Result ChatError ChatResult × Server float S → Type 0 =
      λ r. IfServed (IsReported dec provider sink mantle e model text) r.0 in
    if_either Q (not valid) tt (
      result_either Q (allow float e.now e.organization_id e.user_id e.playground w.limiter).0
        (λ left.
          result_known Q (resolve_model e.catalogue model)
            (λ entry found.
              result_either Q
                (place_hold_for e entry.id (pos (estimate_input_tokens text)) requested w.db).0
                (λ h.
                  result_known Q (dispatch entry h.max_tokens w.client).0
                    (λ r went. record {
                      entry = entry;
                      resolved = found;
                      reported = given entry h.id (dispatched entry h.max_tokens w.client) went;
                    })
                    (λ x failed. tt))
                (λ x. tt))
            (λ x failed. tt))
        (λ x. tt))
  where
    given :
        (entry : ModelCatalogue) (id : Str) {x : Result ChatError ChatResult} {r : ChatResult}
        → Reports dec provider sink mantle text entry x
        → x ≡ ok r
        → Reported dec provider sink mantle text entry
            (fill_cancelled_input text (record r { hold_id = id }))
    given entry id reports went =
        (subst (Reports dec provider sink mantle text entry) went reports) id
