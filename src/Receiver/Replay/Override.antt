-- ===== src/Receiver/Replay/Override.antt =====
-- replayOverride of internal/http/dlq.go: the fields merged onto a dead event before its replay.
use tekton_events_relay.Prelude.{
  String, Bool, true, Option, none, some, ◌==◌, ◌<>◌, is_some, if◌then◌else◌,
}
use tekton_events_relay.Domain.{Time, Event, Envelope}
use tekton_events_relay.Errors.{plain, Result, ok, err}
use tekton_events_relay.Dlq.{DeadEvent}

-- The payload is a JSON object, here by its text.
pub record ReplayOverride : Type 0 where
  pub payload : Option String
  pub timestamp : String

-- What the standard library does here: the payload's fields put over the JSON of an event, and
-- time.Parse at RFC 3339 with the text of `UnixNano`.
pub record OverrideTools : Type 0 where
  pub merge : String → Event → Result Event
  pub parse_time : String → Option Time
  pub unix_nano_text : Time → String

-- validateOverride
unfoldable pub validate_override : OverrideTools → Option ReplayOverride → Bool
validate_override tools none = true
validate_override tools (some o) =
    if o.timestamp == "" then true else is_some (tools.parse_time o.timestamp)

abbrev with_report : Envelope → DeadEvent → Result Event → Result DeadEvent
with_report env entry (err e) = err e
with_report env entry (ok report) =
    ok (record entry { envelope = some (record env { report = report }) })

abbrev merge_payload :
    OverrideTools → Option String → Option Envelope → DeadEvent → Result DeadEvent
merge_payload tools none env entry = ok entry
merge_payload tools (some p) none entry = ok entry
merge_payload tools (some p) (some env) entry = with_report env entry (tools.merge p env.report)

abbrev renamed : String → Option Envelope → Option Envelope
renamed id none = none
renamed id (some env) = some (record env { cloud_event_id = id })

abbrev stamp : OverrideTools → String → Option Time → DeadEvent → Result DeadEvent
stamp tools text none entry = err (plain "parse timestamp: ")
stamp tools text (some ts) entry =
    let id = "override-" <> tools.unix_nano_text ts in
    ok (record entry { id = id; failed_at = ts; envelope = renamed id entry.envelope })

abbrev stamp_ok : OverrideTools → String → Result DeadEvent → Result DeadEvent
stamp_ok tools timestamp (err e) = err e
stamp_ok tools timestamp (ok entry) =
    if timestamp == "" then ok entry else stamp tools timestamp (tools.parse_time timestamp) entry

-- applyOverride
unfoldable pub apply_override : OverrideTools → ReplayOverride → DeadEvent → Result DeadEvent
apply_override tools o entry =
    stamp_ok tools o.timestamp (merge_payload tools o.payload entry.envelope entry)
