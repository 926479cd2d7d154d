-- ===== src/Tests/Queues.antt =====
-- A job that is recorded at once, and one that goes through the queue.
use orbit_api.Common.{◌≡◌, ◌⊎◌, refl, inr, true, false, none, some, List, [], ◌∷◌, if◌then◌else◌}
use orbit_api.Common.Str.{codes, str_eq}
use orbit_api.Common.Result.{ok}
use orbit_api.Store.Tx.{Link, begin_tx}
use orbit_api.Billing.History.{sweeping}
use orbit_api.Billing.Processor.{Job, get_by_catalogue_id, load_pricing, vendor_amount, process_job}
use orbit_api.Billing.Queue.{
  JobCodec, Shared, Delivery, Event, calling, enqueuing, receiving, redriving, enqueue, step_all,
  step, publish, consume_all, consume, consume_job, decode_job,
}
use orbit_api.Billing.Queue.Once.{HasHold, process_job_once}
use orbit_api.Billing.Queue.Kept.{IsSettled, IsWaiting, enqueue_never_lost}
use orbit_api.Tests.Data.{runs, answers, answered}
use orbit_api.Tests.Records.{h1, held, after, h1_row}

abbrev pub first_job : Job
first_job =
    let p = answered h1 in
    record {
      idempotency_key = p.idempotency_key;
      organization_id = p.organization_id;
      api_key_id = p.api_key_id;
      model_catalogue_id = p.model_catalogue_id;
      prompt = p.prompt;
      input_tokens = p.input_tokens;
      output_tokens = p.output_tokens;
      latency_ms = p.latency_ms;
      status = p.status;
      error = p.error;
      hold_id = p.hold_id;
    }

-- A codec that knows this job.
abbrev pub one_job : JobCodec
one_job = record {
  marshal = λ j. some (codes "job k1");
  unmarshal = λ body. if str_eq body (codes "job k1") then some first_job else none;
}

-- A database that begins no transaction.
abbrev down : Link
down begin_tx = true
down s = false

abbrev delivered : Delivery
delivered = record {
  link = answers;
  now = 30;
  request_id = codes "r2";
  message = 0;
  deleting = true;
}

process_runs : process_job answers 9 (codes "r1") first_job held ≡ (ok tt, after)
unfolding runs process_job vendor_amount load_pricing get_by_catalogue_id
process_runs = refl

held_has_h1 : HasHold h1 held
unfolding runs
held_has_h1 = inr (h1_row, refl)

abbrev quiet : Shared
quiet = record { db = after; queue = [] }

abbrev later : List Event
later =
    calling answers (sweeping 90000000 (λ org. false))
    ∷ enqueuing down 95000000 (codes "r3") true first_job
    ∷ redriving 0
    ∷ receiving (delivered ∷ [])
    ∷ []

process_job_once_example :
    (process_job answers 99000000 (codes "r4") first_job (step_all one_job later quiet).db).1
    ≡ (step_all one_job later quiet).db
process_job_once_example =
    process_job_once one_job answers answers 9 99000000 (codes "r1") (codes "r4") first_job held
      quiet later held_has_h1 process_runs

abbrev busy : Shared
busy = record { db = held; queue = [] }

-- The job waits while the database is down, and is recorded when it was delivered.
waits :
    (enqueue one_job down 9 (codes "r1") true first_job busy).queue
    ≡ record { body = codes "job k1"; deleted = false; redriven = false } ∷ []
unfolding runs enqueue publish process_job vendor_amount load_pricing get_by_catalogue_id
waits = refl

abbrev round : List Event
round = receiving (delivered ∷ []) ∷ []

round_deletes :
    (step_all one_job round (enqueue one_job down 9 (codes "r1") true first_job busy)).queue
    ≡ record { body = codes "job k1"; deleted = true; redriven = false } ∷ []
unfolding runs enqueue publish process_job vendor_amount load_pricing get_by_catalogue_id step_all
    step consume_all consume consume_job decode_job
round_deletes = refl

reads_back : decode_job one_job (codes "job k1") ≡ ok first_job
unfolding decode_job str_eq
reads_back = refl

enqueue_never_lost_example :
    IsSettled first_job
      (step_all one_job round (enqueue one_job down 9 (codes "r1") true first_job busy)).db
    ⊎ IsWaiting one_job first_job
        (step_all one_job round (enqueue one_job down 9 (codes "r1") true first_job busy)).queue
enqueue_never_lost_example =
    enqueue_never_lost one_job down 9 (codes "r1") first_job busy round refl reads_back held_has_h1
