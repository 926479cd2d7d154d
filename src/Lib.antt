-- ===== src/Lib.antt =====
-- The billing core of the API, its payment events, and the streams of its answers.
--
-- A request to a model is paid from the credits of an organization. Before it goes to the provider,
-- the reserver (internal/services/billing/reserve.go) sizes a hold from the balance (hold_plan.go,
-- charge.go) and freezes it (internal/repositories/billing/hold.go). Its answer comes as a binary
-- event stream (internal/services/inference/eventstream.go). Afterwards the processor
-- (internal/services/billing/processor.go) records the request: it writes the request and its usage
-- into the ledger and settles the hold (internal/repositories/billing/repository.go). A sweeper
-- gives back the holds that have expired. Credits come from events of the payment provider
-- (internal/services/webhook/dodo.go), which grant them once for each period of a
-- subscription. A stream is relayed to the client in its own dialect (internal/services/compat).
--
-- The files:
-- - Common: numbers, machine words, strings as code points, tables as lists of rows.
-- - Store: the rows and tables that billing uses, from internal/model and migrations. Store.Tx:
--   statements, errors and transactions.
-- - Billing.Charge and Billing.HoldPlan: charge.go and hold_plan.go of internal/services/billing.
-- - Billing.Holds (PlaceHold, settleHoldTx, the reclaim of one organization) and Billing.Sweep
--   (ReleaseHold, ReleaseExpiredHolds, ReclaimExpiredForOrg, Remaining, debitUsageTx): hold.go of
--   internal/repositories/billing. Billing.Ledger (Record, GrantOn, GrantCredits): repository.go
--   beside it. Each has children with what its transactions do when they go through (Steps, Placing)
--   and what they keep (Balance, Books, Lockstep, Retry, Once).
-- - Billing.Invariants: the invariants of the accounts.
-- - Billing.Processor: Reserve, Release and Process of internal/services/billing.
-- - Billing.History: sequences of all of these operations.
-- - Invoices: internal/repositories/invoice/repository.go.
-- - Webhook: internal/services/webhook/dodo.go. Its decisions are in Webhook.Subscription, Mandates,
--   Refund and Grants; Webhook.Object and Webhook.Json hold the decoded payload, Webhook.Provider the
--   client of internal/infra/dodo; Webhook.Resolve finds what an event is about (resolveGrant and the
--   functions it calls), Webhook.Persist stores and cancels subscriptions (persistSubscription and
--   below), Webhook.Invoicing records invoices, and Webhook.Handlers is HandleEvent and the handlers.
--   Webhook.Act is the chain of calls that they are written in. Webhook.Delivery: sequences of events
--   among the calls of billing.
-- - Organization: entitlement.go of internal/services/organization; and in Organization.Plans what
--   internal/repositories/organization does with an organization's plan. Checkout: the guard in
--   internal/services/checkout.
--   Inference: eventstream.go and tokens.go of internal/services/inference, and in Inference.Relay the
--   relay of service.go beside them, over a sink that is a record of its two operations.
-- - Compat: the sinks of internal/services/compat, Compat.Openai and Compat.Anthropic (stream.go of
--   each), and both over one stream in Compat.Dialects; the translations of their requests,
--   Compat.Openai.Request and Compat.Anthropic.Request (request.go of each), whose messages are built
--   in Compat.Content; and in Compat.Routes the routes of internal/controller/compat.
-- - Billing.Queue: publisher.go, reliable.go, consumer.go and worker.go of internal/services/billing, over
--   the queue of internal/infra/sqs.
-- - Inference.Request, Inference.Dispatch and Inference.Chat: request.go, service.go and tokens.go of
--   internal/services/inference, with Chat of internal/controller/inference and RecordUsage of
--   internal/controller/shared: a chat request from the rate limiter to its billing job.
--   Inference.Converse: converse.go beside them, the way of a request of the other dialects.
-- - Limiter: internal/limiter/limiter.go, with the arithmetic of float64 as a parameter. Each call of
--   Allow and of a Release is one step, as the mutex of the organization makes it.
-- - Tests: runs on concrete data.
--
-- How the model stands for the code:
-- - An operation of a repository is a function from the database to its answer and the database
--   after it. A transaction works on a copy, which its commit puts in place; a transaction that fails,
--   at a statement or at its commit, leaves the database as it was. The statements lock the
--   organization's row first, so transactions on one organization run one after the other, and
--   concurrent calls are sequences of steps.
-- - A Link says which statements the database fails to answer, so every error path is there. A value
--   that a column or a constraint of migrations does not allow is an error of its statement, but for
--   text that is not UTF-8, which Postgres refuses and the model stores. Columns that a trigger or a
--   default sets, such as updated_at, are left out, and "the row" is what is modelled of it.
-- - The time of the database, new ids and the organizations that another transaction has locked are
--   arguments. Times count microseconds. Keys are unique, so an update changes the first row.
-- - int64 arithmetic in Go wraps around; BIGINT arithmetic in a statement fails outside its range. A
--   Go int has 64 bits. Strings are lists of code points, and of bytes in the event stream; unique
--   ids are opaque text. TrimSpace and ToLower are written out. A time.Duration below zero counts as
--   short.
-- - A handler of an event is a chain of calls: each call of a repository writes at once, so a handler
--   that fails leaves what it has written. The provider is the function from an id to what its
--   interface answers, the same for the length of a handler, and the ids that it is asked to cancel
--   are kept in their order. A handler starts from the decoded event: what encoding/json refuses is
--   `none`, a value of the metadata comes with what fmt.Sprint shows of it, and a time that is not
--   given is `none`. All services are wired, so no field of DodoService is nil. DISTINCT ON orders ids
--   by code points, and ToUpper and EqualFold are written out for ASCII words.
-- - The lists of organizations that the sweeper works on come in the order of the table.
-- - What encoding/json reads in a payload is a parameter (Inference.Payload), one function for each
--   struct of the source. The relay works on the frames that the reader gives and on how they end. A
--   write to the client may fail at any time; one that fails writes no chunk. A chunk's id, model and
--   time, which never change, are left out.
-- - A message of the queue is found by its place, and a deleted one is marked, as is one that redrive
--   has moved to the dead-letter queue, at any time. The environment chooses the messages of a
--   Receive, which may be handed out again at any time. Messages do not expire. What encoding/json
--   makes of a job is a parameter.
-- - A chat request is one step; others come before or behind it. The provider is a function from a model
--   and a payload to what the HTTP client gives. callMantle, and the encoding of a payload, are
--   parameters that give any result. The prompt and the error of a job are bytes, since they are cut at a
--   byte. Headers and the body of a refusal are output.
-- - The event stream's reader takes its bytes from a list and then fails as the list's owner says. The
--   checksum is written out bit by bit. The loop over a frame's headers runs on fuel, one for each
--   byte of the block, and each header takes at least two. Slicing out of range is a panic, which is a
--   result of its own. The relay is not followed through such a panic: its streams end with an error,
--   with the end of the body, or with the hang-up of the client.
-- - What encoding/json reads in a field of a request that has several forms is a parameter
--   (RequestDecoder). A JSON object is opaque, and an absent raw message has no bytes. A route starts
--   from the decoded request, and its answer's body and errors are output.
--
-- Not modelled: logging, tracing and time-outs; the reports that only read; the decoding of JSON;
-- the formatting of whole answers; the calls of the Responses API; users, keys and the catalogue;
-- HTTP.
pub mod Common
pub mod Store
pub mod Billing
pub mod Invoices
pub mod Webhook
pub mod Inference
pub mod Organization
pub mod Checkout
pub mod Compat
pub mod Limiter
mod Tests
