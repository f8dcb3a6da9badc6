-- ===== src/Tekton/Listeners.antt =====
-- The decoder of eventlistener_decoder.go.
pub mod Sources
use Prim.Native.String.{String}
use Prim.Native.Char.{code}
use tekton_events_relay.Prelude.{
  ℕ, Bool, true, false, not, ◌&&◌, ◌||◌, Option, none, some, List, [], ◌∷◌, ◌==◌, ◌<>◌, ends_with,
  starts_with, or_else, Map, lookup, nat_eq, is_empty, if◌then◌else◌,
}
use tekton_events_relay.Domain.{
  Event, Envelope, State, zero_event, resource_event_listener, state_running, state_success,
  state_failure, state_done, state_pending,
}
use tekton_events_relay.Errors.{Err, plain, wrap, Result, ok, err}
use tekton_events_relay.Receiver.{RawEvent, Decoder}
use tekton_events_relay.Tekton.Runs.{is_type, envelope_of}

pub record ListenerPayload : Type 0 where
  pub event_listener : String
  pub namespace : String
  pub event_listener_uid : String
  pub event_id : String

-- What encoding/json reads of the two payloads.
pub record ListenerJson : Type 0 where
  pub headers : List ℕ → Result (Map (List String))
  pub lifecycle : List ℕ → Result ListenerPayload

-- normalizeGitLabEvent
unfoldable pub normalize_gitlab_event : String → String
normalize_gitlab_event v =
    if v == "Push Hook" || v == "Tag Push Hook"
    then "push"
    else if v == "Merge Request Hook"
    then "pull_request"
    else if v == "Issue Hook"
    then "issues"
    else if v == "Note Hook"
    then "issue_comment"
    else v

-- normalizeBitbucketEvent
unfoldable pub normalize_bitbucket_event : String → String
normalize_bitbucket_event v =
    if v == "repo:push"
    then "push"
    else if starts_with v "pullrequest:comment_"
    then "issue_comment"
    else if starts_with v "pullrequest:"
    then "pull_request"
    else if v == "issue:comment_created"
    then "issue_comment"
    else if starts_with v "issue:"
    then "issues"
    else v

-- normalizeGiteaEvent
unfoldable pub normalize_gitea_event : String → String
normalize_gitea_event v =
    if v == "pull_request" || v == "pull_request_review" || v == "pull_request_review_comment"
    then "pull_request"
    else if v == "issues"
    then "issues"
    else if v == "issue_comment"
    then "issue_comment"
    else if v == "push"
    then "push"
    else v

abbrev first_value : Option (List String) → String
first_value none = ""
first_value (some []) = ""
first_value (some (v ∷ vs)) = v

abbrev pub header : Map (List String) → String → String
header headers key = first_value (lookup key headers)

-- extractSCMContext
unfoldable pub extract_scm_context : Map (List String) → String × String
unfolding normalize_gitlab_event normalize_bitbucket_event normalize_gitea_event
extract_scm_context headers =
    if not (header headers "X-Gitea-Event" == "")
    then ("gitea", normalize_gitea_event (header headers "X-Gitea-Event"))
    else if not (header headers "X-Github-Event" == "")
    then ("github", header headers "X-Github-Event")
    else if not (header headers "X-Gitlab-Event" == "")
    then ("gitlab", normalize_gitlab_event (header headers "X-Gitlab-Event"))
    else if not (header headers "X-Event-Key" == "")
    then ("bitbucket", normalize_bitbucket_event (header headers "X-Event-Key"))
    else ("", "")

-- strings.Split by "/", as the first segment and the others.
unfoldable pub split_path : String → String × List String
split_path String.[] = ("", [])
split_path (String.◌∷◌ c s) =
    let (first, rest) = split_path s in
    if nat_eq (code c) 47 then ("", first ∷ rest) else (String.◌∷◌ c first, rest)

-- The loop of extractLastPathSegment, which goes from the last part down.
unfoldable pub last_named : List String → Option String
last_named [] = none
last_named (p ∷ ps) = let rest = last_named ps in or_found rest p
  where
    or_found : Option String → String → Option String
    or_found (some x) p = some x
    or_found none p = if p == "" then none else some p

-- extractLastPathSegment
unfoldable pub extract_last_path_segment : String → String
unfolding split_path last_named
extract_last_path_segment source =
    let (first, rest) = split_path source in or_else (last_named (first ∷ rest)) source

-- mapEventListenerState
unfoldable pub map_event_listener_state : String → State
map_event_listener_state t =
    if ends_with t ".started.v1"
    then state_running
    else if ends_with t ".successful.v1"
    then state_success
    else if ends_with t ".failed.v1"
    then state_failure
    else if ends_with t ".done.v1"
    then state_done
    else state_pending

-- descriptionForEventListener
unfoldable pub description_for_event_listener : String → String
description_for_event_listener t =
    if ends_with t ".started.v1"
    then "EventListener processing started"
    else if ends_with t ".successful.v1"
    then "EventListener processing successful"
    else if ends_with t ".failed.v1"
    then "EventListener processing failed"
    else if ends_with t ".done.v1"
    then "EventListener processing done"
    else ""

abbrev started_report : RawEvent → String × String → Event
started_report raw (provider, scm_event_type) =
    let name = extract_last_path_segment raw.source in
    record zero_event {
      resource = resource_event_listener;
      event_listener_name = name;
      run_name = name;
      run_id = raw.id;
      state = state_running;
      context = "tekton/eventlistener/" <> name;
      description = "EventListener processing started";
      provider = provider;
      scm_event_type = scm_event_type;
    }

abbrev lifecycle_report : RawEvent → ListenerPayload → Event
lifecycle_report raw p = record zero_event {
  resource = resource_event_listener;
  event_listener_name = p.event_listener;
  run_name = p.event_listener;
  run_id = p.event_listener_uid;
  namespace = p.namespace;
  state = map_event_listener_state raw.event_type;
  context = "tekton/eventlistener/" <> p.event_listener;
  description = description_for_event_listener raw.event_type;
}

-- The bytes of `null`.
abbrev pub is_null : List ℕ → Bool
is_null (a ∷ b ∷ c ∷ d ∷ []) = nat_eq a 110 && nat_eq b 117 && nat_eq c 108 && nat_eq d 108
is_null _ = false

abbrev with_headers : RawEvent → Result (Map (List String)) → Result Envelope
with_headers raw (err x) = err (wrap "unmarshal headers: " x)
with_headers raw (ok headers) =
    let (provider, kind) = extract_scm_context headers in
    if provider == ""
    then err (plain "no recognised SCM webhook headers found")
    else ok (envelope_of raw (started_report raw (provider, kind)))

-- decodeStarted
unfoldable pub decode_started : ListenerJson → RawEvent → Result Envelope
unfolding extract_scm_context extract_last_path_segment
decode_started json raw =
    if is_empty raw.payload || is_null raw.payload
    then err (plain "started event has no payload")
    else with_headers raw (json.headers raw.payload)

abbrev with_payload : RawEvent → Result ListenerPayload → Result Envelope
with_payload raw (err x) = err (wrap "unmarshal payload: " x)
with_payload raw (ok p) =
    if p.event_listener == ""
    then err (plain "missing eventListener field")
    else if p.namespace == ""
    then err (plain "missing namespace field")
    else if p.event_listener_uid == ""
    then err (plain "missing eventListenerUID field")
    else ok (envelope_of raw (lifecycle_report raw p))

-- decodeLifecycle
unfoldable pub decode_lifecycle : ListenerJson → RawEvent → Result Envelope
unfolding map_event_listener_state description_for_event_listener
decode_lifecycle json raw = with_payload raw (json.lifecycle raw.payload)

abbrev decode_triggers : ListenerJson → RawEvent → Result Envelope
decode_triggers json raw =
    if not (is_type "triggers" raw.event_type)
    then err (plain ("not an eventlistener event: " <> raw.event_type))
    else if ends_with raw.event_type ".started.v1"
    then decode_started json raw
    else if ends_with raw.event_type ".done.v1"
    then err (plain "done event carries no data")
    else decode_lifecycle json raw

-- EventListenerDecoder
unfoldable pub event_listener_decoder : ListenerJson → Decoder
unfolding decode_started decode_lifecycle
event_listener_decoder json = record {
  name = "tekton-eventlistener";
  can_handle = is_type "triggers";
  decode = decode_triggers json;
}
