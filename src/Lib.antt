-- ===== src/Lib.antt =====
-- A model of the relay that turns Tekton CloudEvents into notifications, and what is proved of it.
--
-- An event comes in through internal/http/handler.go, is decoded by a decoder of internal/event, and
-- goes through the chain of internal/pipeline that cmd/receiver/main.go builds: validator, filter,
-- deduper, enricher, dispatcher. The dispatcher calls the action handlers of internal/notifier, each
-- perhaps behind wrappers; one of them is the accumulator of internal/accumulator. A retryable
-- error is answered 503; a permanent one puts the event into the dead letter queue of internal/dlq,
-- from which internal/http/dlq.go lists and replays it.
--
-- The files and the code that they model:
--   Prelude        texts, lists and maps of Go; the native numbers stand for int where no sum wraps,
--                  and wrap-around is written out elsewhere
--   Domain         internal/domain/status.go and the records of internal/event/event.go
--   Errors         internal/errors/classification.go; error values as a tree
--   Notifier       internal/notifier/notifier.go (registry), with Wrappers: filter.go,
--                  conditional.go, dedupe_handler.go, dedupestore.go and middleware; Batch:
--                  batch/batch.go; Slack: slack/notifier.go and msgstore/msgstore.go;
--                  Discord: discord/notifier.go
--   Status         internal/pipeline/status.go
--   Pipeline       internal/pipeline: Links (validator.go, filter.go, deduper.go, enricher.go),
--                  Dispatcher (dispatcher.go), Chain (buildChain of cmd/receiver/main.go)
--   Dlq            internal/dlq: dlq.go and the file of JSON lines of file.go
--   Receiver       internal/http/handler.go, with Replay, Listing and
--                  Analytics of internal/http/dlq.go
--   Store          internal/store/memory.go
--   Accumulator    internal/accumulator: buffer.go, handler.go, and Buffers: storebuffer.go
--   Middleware     internal/http/middleware, with Auth (auth.go), RateLimit (ratelimit.go) and
--                  Server: the chain that internal/http/server.go builds
--   Config         internal/config: the validators, with Server, Actions, Scm, Bots, Services and
--                  Webhooks
--   Retry          internal/httpx/retry.go
--   Tekton         internal/event/tekton: the four decoders
--   Scm            internal/notifier/scm: limits.go, upsert.go, statemap.go, labels.go, and of
--                  github: label.go (Labels) and comment_common.go (Upsert)
--   Scenarios      concrete inputs, and the theorems applied to them
--
-- State is passed explicitly. `S` is the state on which the handlers and stores act, `World` adds
-- the status tracker, and `Relay` the dead letter queue. A handler is a function from its context,
-- the event and that state to an error, if any, and the state. Pointers that a link writes through
-- are modelled by the envelope in the outcome of the chain.
--
-- Concurrency: a handler's call is one step, and the goroutines of a dispatch are a row of turns in
-- an order that a `Scheduler` chooses, any permutation of the matched handlers; each turn may find
-- the context done. The limit on goroutines only restricts which orders occur. In a replay, the
-- chain's run on an event and its removal from the queue are one step, in any order of the events.
-- Faults of the disk are values: each operation on the file meets the next of a list of faults.
-- The goroutines of a batching handler are a step relation, whose reachable states the theorems on
-- batches are about.
--
-- No loop needs fuel: all are structural on lists or texts.
--
-- Parameters, with what the code relies on as fields of their records: path.Match, url.PathEscape,
-- strings.ToLower, encoding/json (Codec, Json, ListenerJson, OverrideTools), time.Parse, the cache of
-- hashicorp/golang-lru (LruCache), the rate limiter's Wait and Allow, HMAC and EqualFold (Crypto), CEL
-- programs, text/template, the SDKs of Slack, Discord and GitHub and the
-- random numbers of math/rand. A map of Go is a list of pairs, in the order in which a `range` visits
-- it, so what is proved of every list holds of every order. A text of Go that is cut inside a
-- character reads there as U+FFFD, as its readers see it.
--
-- Not modelled: metrics, spans and logs; the SDK of CloudEvents and the routes of the server; reading
-- the configuration, the validators of email, Jira and brokers, and the construction of handlers; the
-- notifiers other than Slack and Discord, and the providers other than GitHub, which format and send to a
-- service; the Valkey and Olric stores; the loop of go-retryablehttp; the retention ticker of the
-- queue. Times are natural numbers of nanoseconds, and a negative
-- bound or duration that a constructor replaces is represented by 0, except in Batch and Config.
pub mod Prelude
pub mod Domain
pub mod Errors
pub mod Config
pub mod Middleware
pub mod Notifier
pub mod Status
pub mod Pipeline
pub mod Dlq
pub mod Receiver
pub mod Store
pub mod Retry
pub mod Tekton
pub mod Scm
pub mod Scenarios
pub mod Accumulator
