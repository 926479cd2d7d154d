-- ===== src/Billing/Queue/Once.antt =====
-- internal/services/billing: a job that is delivered again, after whatever has happened since it was
-- recorded.
use orbit_api.Common.Branches.{result_either, option_either}
use orbit_api.Common.{
  Bool, ◌∷◌, List, get_elem?, Bool-cases, Option-cases, ℕ, ◌≡◌, sym, ap, ◌∙◌, ◌⊎◌, inl, inr, some,
  [], arith,
}
use orbit_api.Common.Result.{Result, Result-cases, ok}
use orbit_api.Common.Str.{is_empty, Str}
use orbit_api.Common.Table.{lookup}
use orbit_api.Common.Int.{ℤ}
use orbit_api.Store.Tx.{Error, transact-eq-ok, transact_kept, Link}
use orbit_api.Store.{pricing_key, hold_key, CreditHold, Db}
use orbit_api.Billing.Queue.{
  decode_job, receiving, redriving, enqueuing, calling, Delivery, Event, Shared, consume_job,
  enqueue, JobCodec, consume, consume_all, step, step_all,
}
use orbit_api.Billing.History.Stays.{Stays-trans, Stays-refl, same-Stays, Stays}
use orbit_api.Billing.History.Stays.Performed.{perform-Stays, record_usage-Stays}
use orbit_api.Billing.Ledger.Once.{record-IsRecorded, record-again}
use orbit_api.Billing.Ledger.{record_tx, record_usage, usage_key, RecordParams}
use orbit_api.Billing.Processor.{
  params_of, Job, get_by_catalogue_id, load_pricing, process_job, vendor_amount,
}
use orbit_api.Billing.Ledger.Retry.{IsRecorded, IsShut}
use orbit_api.Billing.Holds.{SettleResult}

-- The hold of a job is in its table, or the job has none.
abbrev pub HasHold : Str → Db → Type 0
HasHold hold_id d = (hold_id ≡ []) ⊎ ((h : CreditHold) × (lookup hold_key hold_id d.holds ≡ some h))

pub Stays-HasHold :
    {hold_id : Str} {d d' : Db} → Stays d d' → HasHold hold_id d → HasHold hold_id d'
Stays-HasHold stay (inl blank) = inl blank
Stays-HasHold {hold_id} stay (inr (h, found)) =
    let (h', found', shut) = stay.holds_stay hold_id h found in inr (h', found')

IsShut-Stays :
    {hold_id : Str} {d d' : Db}
    → Stays d d'
    → HasHold hold_id d
    → IsShut hold_id d
    → IsShut hold_id d'
IsShut-Stays stay has (inl blank) = inl blank
IsShut-Stays stay (inl blank) (inr (inl missing)) = inl blank
IsShut-Stays stay (inr (h, found)) (inr (inl missing)) = absurd (cc (found, missing))
IsShut-Stays {hold_id} stay has (inr (inr (h, found, shut))) =
    let (h', found', shut') = stay.holds_stay hold_id h found in inr (inr (h', found', shut' shut))

-- What was recorded stays so.
pub IsRecorded-Stays :
    {p : RecordParams} {d d' : Db}
    → Stays d d'
    → HasHold p.hold_id d
    → IsRecorded p d
    → IsRecorded p d'
IsRecorded-Stays {p} stay has done = record {
  request = done.request;
  requested = stay.requests_stay p.idempotency_key done.request done.requested;
  entered = λ c. stay.entries_stay (usage_key p.idempotency_key) (done.entered c);
  shut = IsShut-Stays stay has done.shut;
}

-- The price of a job is the same in every database with the same prices, if it is answered.
pub vendor_amount-same :
    (link link' : Link) (j : Job) (d d' : Db) {a a' : ℤ}
    → d'.pricing ≡ d.pricing
    → vendor_amount link j d ≡ ok a
    → vendor_amount link' j d' ≡ ok a'
    → a' ≡ a
unfolding vendor_amount load_pricing get_by_catalogue_id
vendor_amount-same link link' j d d' same e e' =
    let rows = ap (lookup pricing_key j.model_catalogue_id) same in
    elim (Option-cases (lookup pricing_key j.model_catalogue_id d.pricing)) [
      | inl missing ↦ ground (arith, rows, missing)
      | inr (price, found) ↦ ground (arith, rows, found)
    ]

-- Process, in its two parts.
pub process_job-ok :
    (link : Link) (now : ℕ) (request_id : Str) (j : Job) (d : Db) {x : Unit {0}} {d' : Db}
    → process_job link now request_id j d ≡ (ok x, d')
    → (a : ℤ) × (vendor_amount link j d ≡ ok a)
      × (s : SettleResult) × (record_usage link now request_id (params_of j a) d ≡ (ok s, d'))
unfolding process_job
process_job-ok link now request_id j d {x} {d'} e = elim (Result-cases (vendor_amount link j d)) [
  | inr (y, failed) ↦ ground arith
  | inl (a, cost) ↦
      let recorded = record_usage link now request_id (params_of j a) d in
      elim (Result-cases recorded.0) [
        | inr (y, failed) ↦ ground (arith, cost, failed)
        | inl (s, went) ↦ (a, cost, s, ground (arith, cost, went))
      ]
]

-- The database that Process leaves is the one it found, or that of a call of Record.
pub process_job-db :
    (link : Link) (now : ℕ) (request_id : Str) (j : Job) (d : Db)
    → ((process_job link now request_id j d).1 ≡ d)
      ⊎ ((a : ℤ) × (vendor_amount link j d ≡ ok a)
          × ((process_job link now request_id j d).1
              ≡ (record_usage link now request_id (params_of j a) d).1))
unfolding process_job
process_job-db link now request_id j d = elim (Result-cases (vendor_amount link j d)) [
  | inr (y, failed) ↦ inl (ground (arith, failed))
  | inl (a, cost) ↦ elim (Bool-cases (is_empty j.idempotency_key)) [
    | inl blank ↦ inl (ground (arith, blank))
    | inr named ↦ inr (a, cost, ground (arith, cost, named))
  ]
]

pub process_job-Stays :
    (link : Link) (now : ℕ) (request_id : Str) (j : Job) (d : Db)
    → Stays d (process_job link now request_id j d).1
process_job-Stays link now request_id j d = elim (process_job-db link now request_id j d) [
  | inl same ↦ same-Stays same
  | inr (a, cost, recorded) ↦ rw recorded (record_usage-Stays link now request_id (params_of j a) d)
]

-- What Process leaves behind when it goes through.
pub process_job-IsRecorded :
    (link : Link) (now : ℕ) (request_id : Str) (j : Job) (d : Db) {x : Unit {0}} {d' : Db}
    → process_job link now request_id j d ≡ (ok x, d')
    → (a : ℤ) × (vendor_amount link j d ≡ ok a) × IsRecorded (params_of j a) d'
unfolding record_usage
process_job-IsRecorded link now request_id j d e =
    let (a, cost, s, recorded) = process_job-ok link now request_id j d e in
    let went = transact-eq-ok link (record_tx link now request_id (params_of j a)) d recorded in
    (a, cost, record-IsRecorded link now request_id (params_of j a) d {s = s} went)

-- A job that is recorded is not recorded again.
process_job-again :
    (link link' : Link) (now : ℕ) (request_id : Str) (j : Job) (d d' : Db) {a : ℤ}
    → vendor_amount link j d ≡ ok a
    → d'.pricing ≡ d.pricing
    → IsRecorded (params_of j a) d'
    → (process_job link' now request_id j d').1 ≡ d'
unfolding record_usage
process_job-again link link' now request_id j d d' {a} cost prices recorded =
    elim (process_job-db link' now request_id j d') [
      | inl same ↦ same
      | inr (a', cost', went) ↦
          let one : a' ≡ a = vendor_amount-same link link' j d d' prices cost cost' in
          let still : IsRecorded (params_of j a') d' = rw one recorded in
          went
          ∙ transact_kept link' (record_tx link' now request_id (params_of j a')) d' (λ s d'' again.
            record-again link' now request_id (params_of j a') d' {s = s} still again)
    ]

pub consume-Stays :
    (codec : JobCodec) (v : Delivery) (s : Shared) → Stays s.db (consume codec v s).db
unfolding consume consume_job
consume-Stays codec v s =
    option_either (λ (x : Shared). Stays s.db x.db) (get_elem? s.queue v.message) (Stays-refl s.db)
      λ m.
        result_either (λ (x : Shared). Stays s.db x.db) (decode_job codec m.body)
          (λ j.
            result_either (λ (x : Shared). Stays s.db x.db)
              (process_job v.link v.now v.request_id j s.db).0
              (λ u. process_job-Stays v.link v.now v.request_id j s.db)
              (λ e. process_job-Stays v.link v.now v.request_id j s.db))
          (λ e. Stays-refl s.db)

consume_all-Stays :
    (codec : JobCodec) (vs : List Delivery) (s : Shared) → Stays s.db (consume_all codec vs s).db
unfolding consume_all
consume_all-Stays codec [] s = Stays-refl s.db
consume_all-Stays codec (v ∷ vs) s =
    Stays-trans (consume-Stays codec v s) (consume_all-Stays codec vs (consume codec v s))

pub enqueue-Stays :
    (codec : JobCodec) (link : Link) (now : ℕ) (request_id : Str) (sent : Bool) (j : Job)
    (s : Shared)
    → Stays s.db (enqueue codec link now request_id sent j s).db
unfolding enqueue
enqueue-Stays codec link now request_id sent j s =
    result_either (λ (x : Shared). Stays s.db x.db) (process_job link now request_id j s.db).0
      (λ u. process_job-Stays link now request_id j s.db)
      (λ e. process_job-Stays link now request_id j s.db)

pub step-Stays : (codec : JobCodec) (e : Event) (s : Shared) → Stays s.db (step codec e s).db
unfolding step
step-Stays codec (calling link op) s = perform-Stays link op s.db
step-Stays codec (enqueuing link now request_id sent j) s =
    enqueue-Stays codec link now request_id sent j s
step-Stays codec (receiving vs) s = consume_all-Stays codec vs s
step-Stays codec (redriving n) s = Stays-refl s.db

pub step_all-Stays :
    (codec : JobCodec) (es : List Event) (s : Shared) → Stays s.db (step_all codec es s).db
unfolding step_all
step_all-Stays codec [] s = Stays-refl s.db
step_all-Stays codec (e ∷ es) s =
    Stays-trans (step-Stays codec e s) (step_all-Stays codec es (step codec e s))

-- A job is charged once under deliveries at least once: after it was recorded, whatever calls,
-- requests and deliveries of any job have come since, recording it again leaves the whole database
-- as it is, at any time and whatever the database fails to answer. (When it was recorded first, its
-- hold was in the table, or it had none.)
pub process_job_once :
    (codec : JobCodec) (link link' : Link) (now now' : ℕ) (request_id request_id' : Str) (j : Job)
    (d : Db) (s : Shared) (es : List Event)
    → HasHold j.hold_id d
    → process_job link now request_id j d ≡ (ok tt, s.db)
    → (process_job link' now' request_id' j (step_all codec es s).db).1 ≡ (step_all codec es s).db
process_job_once codec link link' now now' request_id request_id' j d s es held went =
    let (a, cost, recorded) = process_job-IsRecorded link now request_id j d went in
    let before : Stays d s.db =
      rw (ap (λ (r : Result Error (Unit {0}) × Db). r.1) (sym went))
        (process_job-Stays link now request_id j d) in
    let since = step_all-Stays codec es s in
    process_job-again link link' now' request_id' j d (step_all codec es s).db cost
      (since.prices_same ∙ before.prices_same)
      (IsRecorded-Stays since (Stays-HasHold before held) recorded)
