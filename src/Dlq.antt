-- ===== src/Dlq.antt =====
-- internal/dlq/dlq.go: the dead events, the filter of a replay and the interface of a queue.
pub mod Filter
pub mod File
use tekton_events_relay.Prelude.{ℕ, String, Option, List}
use tekton_events_relay.Domain.{Time, Envelope}
use tekton_events_relay.Errors.{Err, Result}

pub record DeadEvent : Type 0 where
  pub id : String
  pub failed_at : Time
  pub cause : String
  pub retry_count : ℕ
  pub envelope : Option Envelope  -- a pointer in the source

-- The interface Queue. Scan hands its entries to a callback; here it returns the entries in the
-- order of the calls, for callbacks that never stop it.
pub record Queue (Q : Type 0) : Type 0 where
  pub enqueue : Time → Envelope → Err → Q → Option Err × Q
  pub list : ℕ → Q → Result (List DeadEvent) × Q
  pub remove : String → Q → Option Err × Q
  pub size : Q → Result ℕ × Q
  pub scan : Q → Result (List DeadEvent) × Q
