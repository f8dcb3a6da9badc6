-- ===== src/Notifier/Batch.antt =====
-- internal/notifier/batch/batch.go: events wait in a channel and in a buffer, and go to the
-- provider as one batch when enough of them wait or a ticker fires.
-- The callers of Handle and Close, the goroutine `run` and its ticker interleave: each step of
-- `Steps` is one stretch of the code during which no other goroutine can change what it reads.
-- Only `run` touches the buffer until it has returned, so that appending and flushing are one step.
pub mod Steps
pub mod Order
pub mod Sizes
pub mod Closing
pub mod Failures
use tekton_events_relay.Prelude.{
  positive_or, ℕ, zero, suc, ◌*◌, ℤ, pos, negsuc, String, Bool, true, false, Option, none, some,
  List, [], ◌∷◌, ◌++◌, map, is_empty, length, leb, ◌<>◌, if◌then◌else◌,
}
use tekton_events_relay.Domain.{Event, Envelope}
use tekton_events_relay.Errors.{Err, plain, wrap}

-- A duration counts nanoseconds.
abbrev pub default_max_size : ℕ
default_max_size = 10

abbrev pub default_flush_interval : ℕ
default_flush_interval = 5000000000

pub record BatchConfig : Type 0 where
  pub enabled : Bool
  pub max_size : ℤ
  pub flush_interval : ℤ

unfoldable pub apply_defaults : BatchConfig → BatchConfig
apply_defaults c = record c {
  max_size = pos (positive_or c.max_size default_max_size);
  flush_interval = pos (positive_or c.flush_interval default_flush_interval);
}

pub record BufferedEvent : Type 0 where
  pub cloud_event_id : String
  pub event : Event

-- The fields of `Handler` that New sets once. `flush` is the provider's Flusher and `dlq` the
-- queue's Enqueue, both acting on the state `S` of the world outside.
pub record Batcher (S : Type 0) : Type 0 where
  pub name : String
  pub cfg : BatchConfig
  pub flush : List Event → S → Option Err × S
  pub dlq : Option (Envelope → Err → S → Option Err × S)

-- The fields of `Handler` that change. `passed` are the calls of Handle between the test of
-- `closed` and the send; `done` is the closed channel `done`; `closing` is the call of Close that
-- waits for it, and `closed` also says that the channel `ch` is closed.
pub record Handler : Type 0 where
  pub passed : List BufferedEvent
  pub ch : List BufferedEvent
  pub buffer : List BufferedEvent
  pub closed : Bool
  pub done : Bool
  pub closing : Bool

abbrev pub size_of : {S : Type 0} → Batcher S → ℕ
size_of b = positive_or b.cfg.max_size default_max_size

-- The capacity of the channel.
abbrev pub capacity : {S : Type 0} → Batcher S → ℕ
capacity b = size_of b * 2

-- New: the handler's fields after the defaults are filled in.
unfoldable pub new_batcher :
    {S : Type 0}
    → (List Event → S → Option Err × S)
    → String
    → BatchConfig
    → Option (Envelope → Err → S → Option Err × S)
    → Batcher S
unfolding apply_defaults
new_batcher flush name cfg dlq = record {
  name = name;
  cfg = apply_defaults cfg;
  flush = flush;
  dlq = dlq;
}

abbrev pub new_handler : Handler
new_handler = record {
  passed = [];
  ch = [];
  buffer = [];
  closed = false;
  done = false;
  closing = false;
}

unfoldable pub extract_events : List BufferedEvent → List Event
extract_events batch = map (λ be. be.event) batch

-- The envelope that a failed event is enqueued in: its type and source are left empty.
unfoldable pub failed_envelope : BufferedEvent → Envelope
failed_envelope be = record {
  cloud_event_id = be.cloud_event_id;
  cloud_event_type = "";
  source = "";
  report = be.event;
}

-- The queue's own error is logged, and the loop goes on.
unfoldable pub enqueue_each :
    {S : Type 0} → (Envelope → Err → S → Option Err × S) → List BufferedEvent → Err → S → S
unfolding failed_envelope
enqueue_each enqueue [] cause s = s
enqueue_each enqueue (be ∷ batch) cause s =
    enqueue_each enqueue batch cause ((enqueue (failed_envelope be) cause s).1)

unfoldable pub enqueue_failed : {S : Type 0} → Batcher S → List BufferedEvent → Err → S → S
enqueue_failed b batch cause s = elim b.dlq [
  | none ↦ s
  | some enqueue ↦ enqueue_each enqueue batch cause s
]

-- `if err != nil { h.enqueueFailed(batch, err) }`
abbrev pub after_flush : {S : Type 0} → Batcher S → List BufferedEvent → Option Err × S → S
unfolding enqueue_failed
after_flush b batch (none, s) = s
after_flush b batch (some cause, s) = enqueue_failed b batch cause s

-- A batch that `run` has drained: flushed, and on a failure enqueued event by event.
unfoldable pub deliver : {S : Type 0} → Batcher S → List BufferedEvent → S → S
unfolding extract_events
deliver b batch s = after_flush b batch (b.flush (extract_events batch) s)

abbrev pub final_result : {S : Type 0} → String → Option Err × S → Option Err × S
final_result name (none, s) = (none, s)
final_result name (some cause, s) =
    (some (wrap ("batch: final flush for " <> name <> ": ") cause), s)

-- The last flush, of Close: its failure is returned.
unfoldable pub deliver_last : {S : Type 0} → Batcher S → List BufferedEvent → S → Option Err × S
unfolding extract_events
deliver_last b batch s = final_result b.name (b.flush (extract_events batch) s)

-- The first half of Handle, under the lock.
unfoldable pub handle_enter :
    {S : Type 0} → Batcher S → BufferedEvent → Handler → Option Err × Handler
handle_enter b be h =
    if h.closed
    then (some (plain ("batch: handler " <> b.name <> " is closed")), h)
    else (none, record h { passed = be ∷ h.passed })

-- The first half of Close, under the lock: a second call returns at once.
unfoldable pub close_enter : Handler → Handler
close_enter h = if h.closed then h else record h { closed = true; closing = true }
