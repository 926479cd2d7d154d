-- ===== src/Billing/Queue/Kept.antt =====
-- internal/services/billing: a job that was enqueued is recorded, or waits in the queue.
use mathlib.Core.Path.{subst}
use orbit_api.Common.{
  get_elem?-modify, get_elem?-modify_ne, modify, ==_iff, Bool, if◌then◌else◌, ◌≢◌, ◌==◌,
  get_elem?-append_last, get_elem?-append, length, ◌∷◌, Bool-cases, Option-cases, get_elem?, List,
  ℕ, ◌≡◌, refl, ap, ◌∙◌, ◌⊎◌, inl, inr, true, false, some, [], arith,
}
use orbit_api.Common.Branches.{result_known, option_known, result_either, if_either, option_either}
use orbit_api.Common.Table.{lookup}
use orbit_api.Common.Result.{ok}
use orbit_api.Common.Int.{ℤ}
use orbit_api.Common.Str.{Str}
use orbit_api.Store.{pricing_key, Db}
use orbit_api.Store.Tx.{Link}
use orbit_api.Billing.Queue.{
  delete, redrive, redriving, receiving, enqueuing, calling, Event, consume, consume_all, enqueue,
  publish, step, step_all, Message, Delivery, Shared, JobCodec, consume_job, decode_job,
}
use orbit_api.Billing.Queue.Once.{
  enqueue-Stays, consume-Stays, step-Stays, Stays-HasHold, process_job-Stays, IsRecorded-Stays,
  process_job-IsRecorded, HasHold,
}
use orbit_api.Billing.History.Stays.Performed.{perform-Stays}
use orbit_api.Billing.Processor.{
  params_of, get_by_catalogue_id, process_job, load_pricing, Job, vendor_amount,
}
use orbit_api.Billing.Ledger.Retry.{IsRecorded}
use orbit_api.Billing.History.Stays.{Stays}

-- The job is recorded: its request and, if it costs something, a usage entry stand under its key, and
-- its hold is not open.
abbrev pub IsSettled : Job → Db → Type 0
IsSettled j d = (a : ℤ) × (vendor_amount (λ st. false) j d ≡ ok a) × IsRecorded (params_of j a) d

-- A message from which the worker reads the job stands in the queue or the dead-letter queue.
abbrev pub IsWaiting : JobCodec → Job → List Message → Type 0
IsWaiting codec j q =
    (n : ℕ) × (m : Message) × (get_elem? q n ≡ some m)
    × (m.deleted ≡ false)
    × (decode_job codec m.body ≡ ok j)

-- A database and a queue in which the job is recorded or waits.
abbrev IsFound : JobCodec → Job → Shared → Type 0
IsFound codec j s = IsSettled j s.db ⊎ IsWaiting codec j s.queue

record IsKept (codec : JobCodec) (j : Job) (s : Shared) : Type 0 where
  held : HasHold j.hold_id s.db
  kept : IsFound codec j s

pub vendor_amount-answered :
    (link : Link) (j : Job) (d : Db) {a : ℤ}
    → vendor_amount link j d ≡ ok a
    → vendor_amount (λ st. false) j d ≡ ok a
unfolding vendor_amount load_pricing get_by_catalogue_id
vendor_amount-answered link j d {a} e =
    elim (Option-cases (lookup pricing_key j.model_catalogue_id d.pricing)) [
      | inl missing ↦ ground (arith, missing)
      | inr (price, found) ↦ ground (arith, found)
    ]

pub vendor_amount-prices :
    (link : Link) (j : Job) (d d' : Db)
    → d'.pricing ≡ d.pricing
    → vendor_amount link j d' ≡ vendor_amount link j d
unfolding vendor_amount load_pricing get_by_catalogue_id
vendor_amount-prices link j d d' same = rw same refl

IsSettled-Stays :
    (j : Job) (d d' : Db) → Stays d d' → HasHold j.hold_id d → IsSettled j d → IsSettled j d'
IsSettled-Stays j d d' stay held (a, cost, recorded) = (
  a,
  vendor_amount-prices (λ st. false) j d d' stay.prices_same ∙ cost,
  IsRecorded-Stays stay held recorded,
)

process_job-IsSettled :
    (link : Link) (now : ℕ) (request_id : Str) (j : Job) (d : Db) {x : Unit {0}}
    → (process_job link now request_id j d).0 ≡ ok x
    → IsSettled j (process_job link now request_id j d).1
process_job-IsSettled link now request_id j d {x} e =
    let after = (process_job link now request_id j d).1 in
    let whole : process_job link now request_id j d ≡ (ok x, after) = ground (arith, e) in
    let (a, cost, recorded) = process_job-IsRecorded link now request_id j d whole in
    (
      a,
      vendor_amount-prices (λ st. false) j d after
            (process_job-Stays link now request_id j d).prices_same
          ∙ vendor_amount-answered link j d cost,
      recorded,
    )

marked :
    (n i : ℕ) (deleting : Bool) (q : List Message) {m : Message}
    → i ≢ n
    → get_elem? q n ≡ some m
    → get_elem? (if deleting then modify delete q i else q) n ≡ some m
marked n i true q ne found = get_elem?-modify_ne delete q i n ne ∙ found
marked n i false q ne found = found

-- A message that is redriven waits in the dead-letter queue.
redriven :
    (codec : JobCodec) (j : Job) (n i : ℕ) (q : List Message) {m : Message}
    → get_elem? q n ≡ some m
    → m.deleted ≡ false
    → decode_job codec m.body ≡ ok j
    → IsWaiting codec j (modify redrive q i)
redriven codec j n i q {m} found live reads = elim (Bool-cases (i == n)) [
  | inl same ↦
      let here : i ≡ n = (==_iff i n).0 same in
      (n, redrive m, rw here (get_elem?-modify redrive q n found), live, reads)
  | inr other ↦
      let ne : i ≢ n = λ e. cc ((==_iff i n).1 e, other) in
      (n, m, get_elem?-modify_ne redrive q i n ne ∙ found, live, reads)
]

-- A waiting message stays until its own job is recorded.
consume_job-kept :
    (codec : JobCodec) (j : Job) (v : Delivery) (j' : Job) (s : Shared)
    → ((m : Message) → get_elem? s.queue v.message ≡ some m → decode_job codec m.body ≡ ok j')
    → IsWaiting codec j s.queue
    → IsFound codec j (consume_job v j' s)
unfolding consume_job
consume_job-kept codec j v j' s taken (n, m, found, live, reads) =
    result_known (IsFound codec j) (process_job v.link v.now v.request_id j' s.db).0
      (λ u went. elim (Bool-cases (v.message == n)) [
        | inl same ↦
            let here : v.message ≡ n = (==_iff v.message n).0 same in
            let one = taken m (ap (get_elem? s.queue) here ∙ found) in
            let mine : j' ≡ j = cc (one, reads) in
            inl (
              subst (λ (i : Job). IsSettled i (process_job v.link v.now v.request_id j' s.db).1)
                mine (process_job-IsSettled v.link v.now v.request_id j' s.db went))
        | inr other ↦
            let ne : v.message ≢ n = λ e. cc ((==_iff v.message n).1 e, other) in
            inr (n, m, marked n v.message v.deleting s.queue ne found, live, reads)
      ])
      (λ x failed. inr (n, m, found, live, reads))

consume-kept :
    (codec : JobCodec) (j : Job) (v : Delivery) (s : Shared)
    → IsWaiting codec j s.queue
    → IsFound codec j (consume codec v s)
unfolding consume
consume-kept codec j v s waits =
    option_known (IsFound codec j) (get_elem? s.queue v.message) (λ gone. inr waits)
      λ m there.
        result_known (IsFound codec j) (decode_job codec m.body)
          (λ j' good.
            consume_job-kept codec j v j' s
              (λ m' there'.
                let one : m' ≡ m = cc (there, there') in
                ap (λ (x : Message). decode_job codec x.body) one ∙ good)
              waits)
          (λ e bad. inr waits)

-- Any step keeps a job that is kept, once its hold is there.
IsKept-on :
    {codec : JobCodec} {j : Job} {s s' : Shared}
    → Stays s.db s'.db
    → (IsWaiting codec j s.queue → IsFound codec j s')
    → IsKept codec j s
    → IsKept codec j s'
IsKept-on {j} {s} {s'} stay waiting k = record {
  held = Stays-HasHold stay k.held;
  kept = elim k.kept [
    | inl done ↦ inl (IsSettled-Stays j s.db s'.db stay k.held done)
    | inr waits ↦ waiting waits
  ];
}

consume_all-IsKept :
    (codec : JobCodec) (j : Job) (vs : List Delivery) (s : Shared)
    → IsKept codec j s
    → IsKept codec j (consume_all codec vs s)
unfolding consume_all
consume_all-IsKept codec j [] s k = k
consume_all-IsKept codec j (v ∷ vs) s k =
    consume_all-IsKept codec j vs (consume codec v s)
      (IsKept-on (consume-Stays codec v s) (consume-kept codec j v s) k)

publish-IsWaiting :
    (codec : JobCodec) (sent : Bool) (j j' : Job) (q : List Message)
    → IsWaiting codec j q
    → IsWaiting codec j (publish codec sent j' q)
unfolding publish
publish-IsWaiting codec sent j j' q (n, m, found, live, reads) =
    option_either (IsWaiting codec j) (codec.marshal j') (n, m, found, live, reads)
      λ body.
        if_either (IsWaiting codec j) sent (n, m, get_elem?-append q _ n found, live, reads)
          (n, m, found, live, reads)

step-IsKept :
    (codec : JobCodec) (j : Job) (e : Event) (s : Shared)
    → IsKept codec j s
    → IsKept codec j (step codec e s)
unfolding step enqueue
step-IsKept codec j (calling link op) s k = IsKept-on (perform-Stays link op s.db) (λ w. inr w) k
step-IsKept codec j (enqueuing link now request_id sent j') s k =
    IsKept-on (step-Stays codec (enqueuing link now request_id sent j') s)
      (λ w.
        result_either (IsFound codec j) (process_job link now request_id j' s.db).0 (λ u. inr w)
          (λ x. inr (publish-IsWaiting codec sent j j' s.queue w)))
      k
step-IsKept codec j (receiving vs) s k = consume_all-IsKept codec j vs s k
step-IsKept codec j (redriving i) s k =
    IsKept-on (step-Stays codec (redriving i) s)
      (λ (n, m, found, live, reads). inr (redriven codec j n i s.queue found live reads)) k

step_all-IsKept :
    (codec : JobCodec) (j : Job) (es : List Event) (s : Shared)
    → IsKept codec j s
    → IsKept codec j (step_all codec es s)
unfolding step_all
step_all-IsKept codec j [] s k = k
step_all-IsKept codec j (e ∷ es) s k =
    step_all-IsKept codec j es (step codec e s) (step-IsKept codec j e s k)

enqueue-IsKept :
    (codec : JobCodec) (link : Link) (now : ℕ) (request_id : Str) (j : Job) (s : Shared)
    {body : Str}
    → codec.marshal j ≡ some body
    → decode_job codec body ≡ ok j
    → HasHold j.hold_id s.db
    → IsKept codec j (enqueue codec link now request_id true j s)
unfolding enqueue publish
enqueue-IsKept codec link now request_id j s {body} written reads held = record {
  held = Stays-HasHold (enqueue-Stays codec link now request_id true j s) held;
  kept =
      result_known (IsFound codec j) (process_job link now request_id j s.db).0
        (λ u went. inl (process_job-IsSettled link now request_id j s.db went))
        (λ x failed. inr (
          rw (written, publish) (length s.queue, _, get_elem?-append_last s.queue _, refl, reads)));
}

-- A job is never lost: once it was handed to the enqueuer, where the queue takes it if it is asked,
-- and whatever calls, requests, deliveries and redrives have come since, it is recorded (its request
-- and, if it costs something, a usage entry stand under its key, and its hold is not open), or a message
-- from which the worker reads it stands in the queue or in its dead-letter queue. (Its JSON reads back as
-- a job that the worker does not refuse, and its hold is in the table, or it has none.)
pub enqueue_never_lost :
    (codec : JobCodec) (link : Link) (now : ℕ) (request_id : Str) (j : Job) (s : Shared)
    (es : List Event) {body : Str}
    → codec.marshal j ≡ some body
    → decode_job codec body ≡ ok j
    → HasHold j.hold_id s.db
    → IsSettled j (step_all codec es (enqueue codec link now request_id true j s)).db
      ⊎ IsWaiting codec j (step_all codec es (enqueue codec link now request_id true j s)).queue
enqueue_never_lost codec link now request_id j s es written reads held =
    (step_all-IsKept codec j es _
      (enqueue-IsKept codec link now request_id j s written reads held)).kept
