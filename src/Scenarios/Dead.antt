-- ===== src/Scenarios/Dead.antt =====
-- The dead letter queue, its replay and its pages, run.
use tekton_events_relay.Pipeline.Links.Namespaces.{namespace_allowed}
use tekton_events_relay.Prelude.{
  ℕ, ◌≤◌, true, false, none, some, List, [], ◌∷◌, drop, length, ◌≡◌, refl, arith, is_some, lookup,
  atoi,
}
use tekton_events_relay.Errors.{plain, ok}
use tekton_events_relay.Pipeline.{World}
use tekton_events_relay.Pipeline.Links.{invalid, passes_filter, resource_allowed}
use tekton_events_relay.Pipeline.Chain.{relay_chain}
use tekton_events_relay.Pipeline.Chain.Laws.{asked}
use tekton_events_relay.Dlq.{DeadEvent}
use tekton_events_relay.Dlq.File.{Disk, FileQueue, read_lines, upsert, new_entry, enqueue, list}
use tekton_events_relay.Dlq.File.View.{Holds, enqueue-Holds, list-enqueue, enqueue_poisons}
use tekton_events_relay.Receiver.{Relay, request_context}
use tekton_events_relay.Receiver.Replay.{
  ReplayResult, replay_result, replay_entry, replay_all, count_removed,
}
use tekton_events_relay.Receiver.Replay.Override.{OverrideTools}
use tekton_events_relay.Receiver.Replay.Losses.{counted, counted-replay_all, replay_of_seen_loses}
use tekton_events_relay.Receiver.Listing.{
  list_limit, list_offset, list_page, list_page-whole, whole_page,
}
use tekton_events_relay.Scenarios.{
  Site, setup, store_laws, memory_queue, envelope, relay, broken, codec, dead,
}

abbrev file : ℕ → FileQueue DeadEvent
file n = record { codec = codec n; max_bytes = 5000000; retention_days = 7 }

abbrev one_line : Disk DeadEvent
one_line = record { lines = some (dead "e0" ∷ []); faults = [] }

abbrev after : List DeadEvent
after = dead "e0" ∷ new_entry 9 envelope (plain "404") ∷ []

holds : Holds (file 10) one_line (dead "e0" ∷ [])
unfolding read_lines
holds = refl

valid : invalid envelope ≡ none
unfolding invalid
valid = refl

passing :
    passes_filter (setup (broken ∷ [])).path_match (setup (broken ∷ [])).filter envelope ≡ true
unfolding passes_filter resource_allowed namespace_allowed
passing = refl

old : store_laws.seen "e1" (("e1", tt) ∷ [], []) ≡ true
unfolding lookup store_laws
old = refl

enqueue-Holds_example :
    (n : ℕ) × ((enqueue (file 10) 9 envelope (plain "404") one_line).0 ≡ none)
    × Holds (file 10) (enqueue (file 10) 9 envelope (plain "404") one_line).1 (drop n after)
    × (length (drop 0 after) ≤ length (drop n after))
unfolding upsert
enqueue-Holds_example =
    enqueue-Holds (file 10) 9 envelope (plain "404") one_line (dead "e0" ∷ []) 0 holds refl
      (omega arith, (omega arith, tt)) (omega arith)

list-enqueue_example :
    (list (file 10) 0 (enqueue (file 10) 9 envelope (plain "404") one_line).1).0 ≡ ok after
unfolding upsert
list-enqueue_example =
    list-enqueue (file 10) 9 envelope (plain "404") one_line (dead "e0" ∷ []) holds refl refl
      (omega arith, (omega arith, tt)) (omega arith)

abbrev huge : FileQueue DeadEvent
huge = record { codec = codec 4194304; max_bytes = 10485760; retention_days = 7 }

abbrev empty_disk : Disk DeadEvent
empty_disk = record { lines = none; faults = [] }

enqueue_poisons_example :
    let (first, d') = enqueue huge 9 envelope (plain "404") empty_disk in
    let (second, d'') = enqueue huge 10 envelope (plain "500") d' in
    (first ≡ none) × (is_some second ≡ true) × (d''.lines ≡ d'.lines)
unfolding upsert
enqueue_poisons_example =
    enqueue_poisons huge 9 envelope (plain "404") empty_disk [] 10 envelope (plain "500") refl refl
      (omega arith) (omega arith)

abbrev no_override : OverrideTools
no_override = record { merge = λ p e. ok e; parse_time = λ s. none; unix_nano_text = λ t. "" }

abbrev nothing_yet : ReplayResult
nothing_yet = replay_result false false

abbrev seen_world : World Site
seen_world = record { state = (("e1", tt) ∷ [], []); tracker = none }

abbrev seen_relay : Relay Site (List DeadEvent)
seen_relay = record { world = seen_world; dead = dead "e0" ∷ [] }

replay_of_seen_loses_example :
    replay_entry no_override none
      (relay_chain (setup (broken ∷ [])))
      memory_queue
      (dead "e0")
      seen_relay
      nothing_yet
    ≡ (
      count_removed none nothing_yet,
      record { world = asked (setup (broken ∷ [])) request_context envelope seen_world; dead = [] },
    )
unfolding memory_queue
replay_of_seen_loses_example =
    replay_of_seen_loses (setup (broken ∷ [])) store_laws no_override memory_queue (dead "e0")
      envelope seen_relay nothing_yet refl valid passing old

counted-replay_all_example :
    counted
      (replay_all no_override none
        (relay_chain (setup (broken ∷ [])))
        memory_queue
        (dead "e0" ∷ dead "e1" ∷ [])
        relay
        nothing_yet).0
    ≡ 2
counted-replay_all_example =
    counted-replay_all no_override none (relay_chain (setup (broken ∷ []))) memory_queue
      (dead "e0" ∷ dead "e1" ∷ []) relay nothing_yet

list_page-whole_example :
    (list_page memory_queue "10" "1" (dead "e0" ∷ dead "e1" ∷ [])).0
    ≡ some (whole_page (list_limit "10") (list_offset "1") (dead "e0" ∷ dead "e1" ∷ []))
unfolding list_limit list_offset memory_queue atoi
list_page-whole_example =
    list_page-whole memory_queue "10" "1" (dead "e0" ∷ dead "e1" ∷ []) (dead "e0" ∷ dead "e1" ∷ [])
      (dead "e0" ∷ dead "e1" ∷ []) refl refl (omega arith)
