-- ===== src/Scm/Comments.antt =====
-- upsert.go: the mode of a comment, and the marker that finds it again; and statemap.go.
use tekton_events_relay.Prelude.{String, ◌==◌, ◌||◌, ◌<>◌, Map, lookup, or_else, if◌then◌else◌}
use tekton_events_relay.Domain.{State}
use tekton_events_relay.Errors.{plain, Result, ok, err}

-- NormalizeMode
unfoldable pub normalize_mode : String → Result String
normalize_mode mode =
    if mode == "" || mode == "create"
    then ok "create"
    else if mode == "upsert"
    then ok "upsert"
    else err (plain ("invalid comment mode " <> mode <> " (must be create or upsert)"))

-- Marker
unfoldable pub marker : String → String → String
marker run_id action = "<!-- tekton-events-relay:" <> run_id <> ":" <> action <> " -->"

-- WithMarker
unfoldable pub with_marker : String → String → String
with_marker m body = m <> "\n" <> body

-- StateMap.Map
unfoldable pub map_provider_state : Map String → State → String → String
map_provider_state m s fallback = or_else (lookup s m) fallback
