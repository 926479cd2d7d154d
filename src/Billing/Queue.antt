-- ===== src/Billing/Queue.antt =====
-- internal/services/billing: publisher.go, reliable.go, consumer.go and worker.go. A job whose record
-- fails goes to a queue of SQS, from which the worker takes it until it is recorded.
pub mod Once
pub mod Kept
use orbit_api.Common.{
  ℕ, Bool, true, false, Option, none, some, List, [], ◌∷◌, ◌++◌, get_elem?, modify, if◌then◌else◌,
}
use orbit_api.Common.Str.{Str, is_empty}
use orbit_api.Common.Result.{Result, ok, err}
use orbit_api.Store.{Db}
use orbit_api.Store.Tx.{Link, Error, required, undecodable}
use orbit_api.Billing.History.{Op, perform}
use orbit_api.Billing.Processor.{Job, process_job}

-- What encoding/json makes of a job and of a body.
pub record JobCodec : Type 0 where
  pub marshal : Job → Option Str
  pub unmarshal : Str → Option Job

-- A message is found by its place, which stands for its receipt. The queue may hand out a message
-- at any time and any number of times, also after it was deleted. Redrive moves a message that was
-- received too often to the dead-letter queue, whose messages are the ones that are `redriven`.
pub record Message : Type 0 where
  pub body : Str
  pub deleted : Bool
  pub redriven : Bool

-- The database and the queue, which the servers and the workers share.
pub record Shared : Type 0 where
  pub db : Db
  pub queue : List Message

-- A message that the worker received, with what its calls meet: the statements that the database
-- fails to answer, the time, a new id, and whether the queue answers the Delete.
pub record Delivery : Type 0 where
  pub link : Link
  pub now : ℕ
  pub request_id : Str
  pub message : ℕ
  pub deleting : Bool

-- DecodeJob
unfoldable pub decode_job : JobCodec → Str → Result Error Job
decode_job codec body = elim (codec.unmarshal body) [
  | none ↦ err undecodable
  | some j ↦
      if is_empty j.organization_id
      then err required
      else if is_empty j.idempotency_key
      then err required
      else ok j
]

-- Enqueue of the publisher, where the queue answers or not.
unfoldable pub publish : JobCodec → Bool → Job → List Message → List Message
publish codec sent j q = elim (codec.marshal j) [
  | none ↦ q
  | some body ↦
      if sent then q ++ record { body = body; deleted = false; redriven = false } ∷ [] else q
]

-- Enqueue of the reliable enqueuer: it records at once, and falls back on the queue.
unfoldable pub enqueue : JobCodec → Link → ℕ → Str → Bool → Job → Shared → Shared
enqueue codec link now request_id sent j s =
    let (went, d') = process_job link now request_id j s.db in
    elim went [
      | ok u ↦ record s { db = d' }
      | err e ↦ record { db = d'; queue = publish codec sent j s.queue }
    ]

-- Enqueue of the worker in process, which drops a job that fails.
unfoldable pub work : Link → ℕ → Str → Job → Db → Db
work link now request_id j d = (process_job link now request_id j d).1

abbrev pub delete : Message → Message
delete m = record m { deleted = true }

abbrev pub redrive : Message → Message
redrive m = record m { redriven = true }

-- A message whose job is decoded: it is deleted once the job is recorded.
unfoldable pub consume_job : Delivery → Job → Shared → Shared
consume_job v j s =
    let (went, d') = process_job v.link v.now v.request_id j s.db in
    elim went [
      | err e ↦ record s { db = d' }
      | ok u ↦ record {
        db = d';
        queue = if v.deleting then modify delete s.queue v.message else s.queue;
      }
    ]

-- The body of the consumer's inner loop. A message that is no job stays for the dead-letter queue.
unfoldable pub consume : JobCodec → Delivery → Shared → Shared
consume codec v s = elim (get_elem? s.queue v.message) [
  | none ↦ s
  | some m ↦ elim (decode_job codec m.body) [ err e ↦ s | ok j ↦ consume_job v j s ]
]

-- One round of RunConsumer, over the messages of one Receive.
unfoldable pub consume_all : JobCodec → List Delivery → Shared → Shared
consume_all codec [] s = s
consume_all codec (v ∷ vs) s = consume_all codec vs (consume codec v s)

-- What happens to the database and the queue: any other call of the repository, the end of a
-- request, a round of a worker, and the redrive of a message.
pub data Event : Type 0 where
  calling : Link → Op → Event
  enqueuing : Link → ℕ → Str → Bool → Job → Event
  receiving : List Delivery → Event
  redriving : ℕ → Event

unfoldable pub step : JobCodec → Event → Shared → Shared
step codec (calling link op) s = record s { db = perform link op s.db }
step codec (enqueuing link now request_id sent j) s = enqueue codec link now request_id sent j s
step codec (receiving vs) s = consume_all codec vs s
step codec (redriving n) s = record s { queue = modify redrive s.queue n }

unfoldable pub step_all : JobCodec → List Event → Shared → Shared
step_all codec [] s = s
step_all codec (e ∷ es) s = step_all codec es (step codec e s)
