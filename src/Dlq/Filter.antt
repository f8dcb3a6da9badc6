-- ===== src/Dlq/Filter.antt =====
-- ReplayFilter.Matches of internal/dlq/dlq.go.
use tekton_events_relay.Prelude.{
  String, Bool, true, false, not, ◌&&◌, Option, none, some, ◌==◌, ltb, nat_eq, if◌then◌else◌,
}
use tekton_events_relay.Domain.{Time, Envelope}
use tekton_events_relay.Dlq.{DeadEvent}

pub record ReplayFilter : Type 0 where
  pub provider : String
  pub state : String
  pub after : Time

-- `e.Envelope == nil || e.Envelope.Report.Provider != f.Provider`, and the same of the state.
abbrev differs_in : (Envelope → String) → String → Option Envelope → Bool
differs_in field wanted none = true
differs_in field wanted (some env) = not (field env == wanted)

unfoldable pub matches_filter : ReplayFilter → DeadEvent → Bool
matches_filter f e =
    if not (f.provider == "") && differs_in (λ env. env.report.provider) f.provider e.envelope
    then false
    else if not (f.state == "") && differs_in (λ env. env.report.state) f.state e.envelope
    then false
    else if not (nat_eq f.after 0) && ltb e.failed_at f.after
    then false
    else true
