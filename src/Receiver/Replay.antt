-- ===== src/Receiver/Replay.antt =====
-- internal/http/dlq.go: the replay of dead events through the chain.
pub mod Override
pub mod Losses
use tekton_events_relay.Prelude.{
  ℕ, ◌+◌, String, Bool, true, false, not, ◌||◌, Option, none, some, List, [], ◌∷◌, ◌++◌, filter,
  is_some, leb, nat_eq, if◌then◌else◌,
}
use tekton_events_relay.Domain.{Envelope}
use tekton_events_relay.Errors.{Err, Result, ok, err}
use tekton_events_relay.Pipeline.{World, Outcome, Link}
use tekton_events_relay.Dlq.{DeadEvent, Queue}
use tekton_events_relay.Dlq.Filter.{ReplayFilter, matches_filter}
use tekton_events_relay.Receiver.{Relay, request_context}
use Override.{ReplayOverride, OverrideTools, validate_override, apply_override}

-- dlqReplayResult
pub record ReplayResult : Type 0 where
  pub replayed : ℕ
  pub failed : ℕ
  pub failed_ids : List String
  pub remove_failed : ℕ
  pub filtered : Bool
  pub overridden : Bool

-- The request: its body cannot be read, is blank, is no JSON, or asks for a filter and perhaps an
-- override.
pub data ReplayBody : Type 0 where
  unreadable blank malformed : ReplayBody
  request : ReplayFilter → Option ReplayOverride → ReplayBody

abbrev pub count_failed : DeadEvent → ReplayResult → ReplayResult
count_failed entry r = record r {
  failed = r.failed + 1;
  failed_ids = r.failed_ids ++ entry.id ∷ [];
}

abbrev pub replay_result : Bool → Bool → ReplayResult
replay_result filtered overridden = record {
  replayed = 0;
  failed = 0;
  failed_ids = [];
  remove_failed = 0;
  filtered = filtered;
  overridden = overridden;
}

abbrev pub overridden_entry : OverrideTools → Option ReplayOverride → DeadEvent → Result DeadEvent
overridden_entry tools none entry = ok entry
overridden_entry tools (some o) entry = apply_override tools o entry

abbrev pub count_removed : Option Err → ReplayResult → ReplayResult
count_removed none r = record r { replayed = r.replayed + 1 }
count_removed (some e) r = record r { remove_failed = r.remove_failed + 1 }

abbrev pub filter_ok : ReplayFilter → Result (List DeadEvent) → Result (List DeadEvent)
filter_ok f (ok es) = ok (filter (matches_filter f) es)
filter_ok f (err e) = err e

-- What the handler answers: an error status, or the summary.
abbrev pub ReplayAnswer : Type 0
ReplayAnswer = ℕ × Option ReplayResult

abbrev pub summary : ReplayResult → ReplayAnswer
summary res = if nat_eq res.remove_failed 0 then (200, some res) else (500, none)

-- collectReplayEntries
unfoldable pub collect_replay_entries :
    {Q : Type 0} → Queue Q → Option ReplayFilter → Q → Result (List DeadEvent) × Q
collect_replay_entries queue none q = queue.list 0 q
collect_replay_entries queue (some f) q = let (es, q') = queue.scan q in (filter_ok f es, q')

module _ {S Q : Type 0} where
  -- After the chain: an error keeps the entry, and success removes it, by the id that it has in the
  -- queue.
  abbrev pub after_chain :
      Queue Q → DeadEvent → Outcome S → Q → ReplayResult → ReplayResult × Relay S Q
  after_chain queue entry o q res = elim o.err [
    | some e ↦ (count_failed entry res, record { world = o.world; dead = q })
    | none ↦
        let (removed, q') = queue.remove entry.id q in
        (count_removed removed res, record { world = o.world; dead = q' })
  ]

  abbrev pub run_entry :
      Link S
      → Queue Q
      → DeadEvent
      → Option Envelope
      → Relay S Q
      → ReplayResult
      → ReplayResult × Relay S Q
  run_entry chain queue entry none r res = (res, r)
  run_entry chain queue entry (some env) r res =
      after_chain queue entry (chain request_context env r.world) r.dead res

  abbrev pub run_overridden :
      Link S
      → Queue Q
      → DeadEvent
      → Result DeadEvent
      → Relay S Q
      → ReplayResult
      → ReplayResult × Relay S Q
  run_overridden chain queue entry (err e) r res = (count_failed entry res, r)
  run_overridden chain queue entry (ok entry') r res =
      run_entry chain queue entry entry'.envelope r res

  -- One turn of the loop and its goroutine. An entry with no envelope is removed, and the error of
  -- that is dropped.
  unfoldable pub replay_entry :
      OverrideTools
      → Option ReplayOverride
      → Link S
      → Queue Q
      → DeadEvent
      → Relay S Q
      → ReplayResult
      → ReplayResult × Relay S Q
  replay_entry tools override chain queue entry r res =
      if is_some entry.envelope
      then run_overridden chain queue entry (overridden_entry tools override entry) r res
      else (res, record r { dead = (queue.remove entry.id r.dead).1 })

  -- The loop, in the order in which the goroutines finish.
  unfoldable pub replay_all :
      OverrideTools
      → Option ReplayOverride
      → Link S
      → Queue Q
      → List DeadEvent
      → Relay S Q
      → ReplayResult
      → ReplayResult × Relay S Q
  unfolding replay_entry
  replay_all tools override chain queue [] r res = (res, r)
  replay_all tools override chain queue (e ∷ es) r res =
      let (res', r') = replay_entry tools override chain queue e r res in
      replay_all tools override chain queue es r' res'

  abbrev replay_collected :
      (List DeadEvent → List DeadEvent)
      → OverrideTools
      → Option ReplayOverride
      → Bool
      → Link S
      → Queue Q
      → Result (List DeadEvent)
      → Relay S Q
      → ReplayAnswer × Relay S Q
  replay_collected order tools override filtered chain queue (err e) r = ((500, none), r)
  replay_collected order tools override filtered chain queue (ok es) r =
      let (res, r') =
        replay_all tools override chain queue (order es) r
          (replay_result filtered (is_some override)) in
      (summary res, r')

  abbrev replay_with :
      (List DeadEvent → List DeadEvent)
      → OverrideTools
      → Option ReplayFilter
      → Option ReplayOverride
      → Link S
      → Queue Q
      → Relay S Q
      → ReplayAnswer × Relay S Q
  replay_with order tools f override chain queue r =
      if validate_override tools override
      then (let (es, q) = collect_replay_entries queue f r.dead in
          replay_collected order tools override (is_some f) chain queue es (record r { dead = q }))
      else ((400, none), r)

  -- dlqReplayHandler for a POST; `order` is the order in which the goroutines finish.
  unfoldable pub replay :
      (List DeadEvent → List DeadEvent)
      → OverrideTools
      → Link S
      → Queue Q
      → ReplayBody
      → Relay S Q
      → ReplayAnswer × Relay S Q
  unfolding collect_replay_entries replay_all
  replay order tools chain queue unreadable r = ((400, none), r)
  replay order tools chain queue malformed r = ((400, none), r)
  replay order tools chain queue blank r = replay_with order tools none none chain queue r
  replay order tools chain queue (request f override) r =
      replay_with order tools (some f) override chain queue r
