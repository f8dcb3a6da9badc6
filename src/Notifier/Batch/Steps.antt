-- ===== src/Notifier/Batch/Steps.antt =====
-- internal/notifier/batch/batch.go: what the callers of Handle and Close, the goroutine `run` and
-- its ticker do to the handler and to the world outside, as steps in any order.
use tekton_events_relay.Prelude.{
  ◌<◌, Bool, true, false, Option, none, List, [], ◌∷◌, ◌++◌, is_empty, length, leb, if◌then◌else◌,
  ◌≡◌,
}
use tekton_events_relay.Errors.{Err}
use tekton_events_relay.Notifier.Batch.{
  BufferedEvent, Batcher, Handler, size_of, capacity, new_handler, deliver, deliver_last,
  handle_enter, close_enter,
}

-- A batch is handed to the provider by the loop or by Close.
pub data Origin : Type 0 where
  by_loop by_close : Origin

-- `accepted` are the events whose Handle has returned nil, in the order of their sends, and
-- `handed` the batches that were handed to Flush, in order. `panicked` says that some send has
-- panicked.
pub record World (S : Type 0) : Type 0 where
  pub handler : Handler
  pub open handler use *
  pub state : S
  pub accepted : List BufferedEvent
  pub handed : List (Origin × List BufferedEvent)
  pub close_result : Option Err
  pub panicked : Bool

module _ {S : Type 0} where
  unfoldable pub start : S → World S
  start s = record {
    handler = new_handler;
    state = s;
    accepted = [];
    handed = [];
    close_result = none;
    panicked = false;
  }

  unfoldable pub set_handler : Handler → World S → World S
  set_handler h w = record w { handler = h }

  -- drainBuffer and the flush, if there is anything to flush.
  unfoldable pub flush_buffer : Batcher S → World S → World S
  flush_buffer b w = if is_empty w.handler.buffer then w else record w {
    handler = record (w.handler) { buffer = [] };
    state = deliver b w.handler.buffer w.state;
    handed = w.handed ++ (by_loop, w.handler.buffer) ∷ [];
  }

  -- `run` receives an event and appends it.
  unfoldable pub append_received : BufferedEvent → List BufferedEvent → World S → World S
  append_received be rest w = record w {
    handler = record (w.handler) { ch = rest; buffer = w.handler.buffer ++ be ∷ [] };
  }

  -- `shouldFlush`: the buffer is flushed when it is full.
  unfoldable pub flush_full : Batcher S → World S → World S
  unfolding flush_buffer
  flush_full b w = if leb (size_of b) (length w.handler.buffer) then flush_buffer b w else w

  unfoldable pub receive : Batcher S → BufferedEvent → List BufferedEvent → World S → World S
  unfolding append_received flush_full
  receive b be rest w = flush_full b (append_received be rest w)

  -- Handle's send, while the channel has room.
  unfoldable pub send : BufferedEvent → List BufferedEvent → World S → World S
  send be left w = record w {
    handler = record (w.handler) { passed = left; ch = w.handler.ch ++ be ∷ [] };
    accepted = w.accepted ++ be ∷ [];
  }

  -- Handle's send on a closed channel, which panics. The steps go on behind it, as they do where
  -- something above recovers; where nothing does, the process ends there.
  unfoldable pub send_closed : List BufferedEvent → World S → World S
  send_closed left w = record w { handler = record (w.handler) { passed = left }; panicked = true }

  -- The second half of Close, after `<-h.done`.
  unfoldable pub close_finish : Batcher S → World S → World S
  close_finish b w =
      if is_empty w.handler.buffer
      then record w { handler = record (w.handler) { closing = false } }
      else let (result, s) = deliver_last b w.handler.buffer w.state in
        record w {
          handler = record (w.handler) { buffer = []; closing = false };
          state = s;
          handed = w.handed ++ (by_close, w.handler.buffer) ∷ [];
          close_result = result;
        }

pub data Step {S : Type 0} (b : Batcher S) (w : World S) : World S → Type 0 where
  enters : (be : BufferedEvent) → Step b w (set_handler ((handle_enter b be w.handler).1) w)
  sends :
      (xs ys : List BufferedEvent) (be : BufferedEvent)
      → w.handler.passed ≡ xs ++ be ∷ ys
      → w.handler.closed ≡ false
      → length w.handler.ch < capacity b
      → Step b w (send be (xs ++ ys) w)
  panics :
      (xs ys : List BufferedEvent) (be : BufferedEvent)
      → w.handler.passed ≡ xs ++ be ∷ ys
      → w.handler.closed ≡ true
      → Step b w (send_closed (xs ++ ys) w)
  receives :
      (be : BufferedEvent) (rest : List BufferedEvent)
      → w.handler.done ≡ false
      → w.handler.ch ≡ be ∷ rest
      → Step b w (receive b be rest w)
  ticks : w.handler.done ≡ false → Step b w (flush_buffer b w)
  exits :
      w.handler.done ≡ false
      → w.handler.closed ≡ true
      → w.handler.ch ≡ []
      → Step b w (set_handler (record (w.handler) { done = true }) w)
  closes : Step b w (set_handler (close_enter w.handler) w)
  finishes : w.handler.closing ≡ true → w.handler.done ≡ true → Step b w (close_finish b w)

-- Declaration order: the world reached is an index.
pub data Reach {S : Type 0} (b : Batcher S) (w : World S) : World S → Type 0 where
  here : Reach b w w
  next : {u v : World S} → Reach b w u → Step b u v → Reach b w v

pub Reach-trans :
    {S : Type 0} {b : Batcher S} {w u v : World S} → Reach b w u → Reach b u v → Reach b w v
Reach-trans r here = r
Reach-trans r (next q st) = next (Reach-trans r q) st
