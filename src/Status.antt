-- ===== src/Status.antt =====
-- internal/pipeline/status.go: the outcomes of each handler, as /readyz shows them.
pub mod Ring
use Ring.{HandlerRing, new_ring, record_outcome, failures, has_recent_success}
use tekton_events_relay.Prelude.{
  ℕ, ◌+◌, ◌*◌, ◌^◌, ◌%◌, String, Bool, true, false, not, ◌&&◌, Option, none, some, List, [], ◌∷◌,
  Map, lookup, insert, or_else, leb, nat_eq, is_some, is_empty, if◌then◌else◌,
}
use tekton_events_relay.Domain.{Time}
use tekton_events_relay.Errors.{Err, error_text}

pub record HandlerStatus : Type 0 where
  pub last_event_at : Time
  pub last_error : String
  pub last_error_at : Time
  pub succeeded : ℕ  -- uint64
  pub failed : ℕ  -- uint64

abbrev pub new_status : HandlerStatus
new_status = record {
  last_event_at = 0;
  last_error = "";
  last_error_at = 0;
  succeeded = 0;
  failed = 0;
}

pub record StatusTracker : Type 0 where
  pub statuses : Map HandlerStatus
  pub rings : Map HandlerRing

unfoldable pub new_tracker : StatusTracker
new_tracker = record { statuses = []; rings = [] }

-- The part of Observe that updates one HandlerStatus.
unfoldable pub note_outcome : Time → Option Err → HandlerStatus → HandlerStatus
note_outcome now (some e) s = record s {
  last_event_at = now;
  last_error = error_text e;
  last_error_at = now;
  failed = (s.failed + 1) % 2 ^ 64;
}
note_outcome now none s = record s { last_event_at = now; succeeded = (s.succeeded + 1) % 2 ^ 64 }

-- Observe; `none` is the nil tracker.
unfoldable pub observe : Time → String → Option Err → Option StatusTracker → Option StatusTracker
observe now handler e none = none
observe now handler e (some t) = some (record {
  statuses =
      insert handler (note_outcome now e (or_else (lookup handler t.statuses) new_status))
        t.statuses;
  rings =
      insert handler (record_outcome (not (is_some e)) (or_else (lookup handler t.rings) new_ring))
        t.rings;
})

-- `rate >= degradedThreshold`, as a test on whole numbers: a ring holds at most 100 outcomes, so
-- the quotient of the source is at least 0.10 exactly when ten times the failures reach the count.
unfoldable pub is_degraded : HandlerRing → Bool
is_degraded r = not (nat_eq r.count 0) && leb r.count (10 * failures r) && has_recent_success r

-- The loop of DegradedHandlers; a rate is the pair of its failures and its count.
degraded_of : Map HandlerRing → Map (ℕ × ℕ)
degraded_of [] = []
degraded_of ((name, r) ∷ rings) =
    let rest = degraded_of rings in
    if is_degraded r then (name, (failures r, r.count)) ∷ rest else rest

unfoldable pub degraded_handlers : Option StatusTracker → Option (Map (ℕ × ℕ))
unfolding degraded_of is_degraded
degraded_handlers none = none
degraded_handlers (some t) =
    let out = degraded_of t.rings in if is_empty out then none else some out
