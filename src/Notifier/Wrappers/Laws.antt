-- ===== src/Notifier/Wrappers/Laws.antt =====
-- What the wrappers around a handler let through.
use text.Mathlib.TextLemmas.{append_assoc}
use tekton_events_relay.Prelude.{
  ◌<>◌, String, Bool, true, false, not, ◌&&◌, ◌||◌, Option, none, some, List, [], ◌∷◌, ◌≡◌, refl,
  arith, ◌==◌, any, is_empty, if◌then◌else◌, ap, ◌∙◌,
}
use tekton_events_relay.Domain.{Event}
use tekton_events_relay.Errors.{Err}
use tekton_events_relay.Notifier.{Context, ActionHandler}
use tekton_events_relay.Pipeline.Links.{DedupeStore}
use tekton_events_relay.Receiver.Redelivery.{DedupeLaws}
use tekton_events_relay.Notifier.Wrappers.{
  FilterList, FilterConfig, selected, build_map, mem_key, filtered_handler, composite_key,
  dedupe_handler,
}

-- A name is in a list up to case.
abbrev pub listed : (String → String) → String → List String → Bool
listed lower name items = any (λ item. lower name == lower item) items

mem_key-build_map :
    (lower : String → String) (name : String) (items : List String)
    → mem_key (lower name) (build_map lower items) ≡ listed lower name items
unfolding build_map
mem_key-build_map lower name [] = refl
mem_key-build_map lower name (i ∷ is) =
    ap (λ b. (lower name == lower i) || b) (mem_key-build_map lower name is)

is_empty-build_map :
    (lower : String → String) (items : List String)
    → is_empty (build_map lower items) ≡ is_empty items
unfolding build_map
is_empty-build_map lower [] = refl
is_empty-build_map lower (i ∷ is) = refl

module _ {S : Type 0} (lower : String → String) (cfg : FilterConfig) (inner : ActionHandler S) where
  -- An event whose resource selects a pair of lists, and that has a name, reaches the handler
  -- exactly if its name is not in the deny list and the allow list is empty or has it, all up to
  -- case; an event that does not reach it is no error and changes nothing.
  pub filtered_handler_lem :
      (lists : FilterList) (name : String) (ctx : Context) (e : Event) (s : S)
      → selected cfg e ≡ some (lists, name)
      → (name == "") ≡ false
      → (filtered_handler lower (some cfg) inner).handle ctx e s ≡ (
          if not (listed lower name lists.deny)
            && (is_empty lists.allow || listed lower name lists.allow)
          then inner.handle ctx e s
          else (none, s))
  unfolding filtered_handler
  filtered_handler_lem lists name ctx e s sel named = rw sel (
      rw named (
        rw (mem_key-build_map lower name lists.deny) (
          rw (mem_key-build_map lower name lists.allow)
            (rw (is_empty-build_map lower lists.allow) (ground arith)))))

module _ {S : Type 0} (store : DedupeStore S) (laws : DedupeLaws S store)
    (inner : ActionHandler S) where
  abbrev pub key_of : String → String
  key_of id = composite_key inner.name id

  abbrev pub guarded : ActionHandler S
  guarded = dedupe_handler (some store.first_seen) inner

  handle-guarded :
      (ctx : Context) (id : String) (e : Event) (s : S)
      → ctx.cloud_event_id ≡ some id
      → (id == "") ≡ false
      → guarded.handle ctx e s ≡ (
          let s' = (store.first_seen (key_of id) s).1 in
          if laws.seen (key_of id) s then (none, s') else inner.handle ctx e s')
  unfolding dedupe_handler
  handle-guarded ctx id e s has_id named =
      rw has_id (rw named (rw (laws.answers (key_of id) s) (ground arith)))

  -- The handler behind a dedupe guard, called twice for one CloudEvent whose pair is new to the
  -- store: the first call is the handler's own, and the second does not reach it, also if the
  -- first one failed, as long as the handler does not make the store forget the pair.
  pub dedupe_handler_once :
      (ctx : Context) (id : String) (e e' : Event) (s : S)
      → ctx.cloud_event_id ≡ some id
      → (id == "") ≡ false
      → laws.seen (key_of id) s ≡ false
      → ((t : S)
          → laws.seen (key_of id) t ≡ true
          → laws.seen (key_of id) (inner.handle ctx e t).1 ≡ true)
      → let (first, s') = guarded.handle ctx e s in
        ((first, s') ≡ inner.handle ctx e (store.first_seen (key_of id) s).1)
        × (guarded.handle ctx e' s' ≡ (none, (store.first_seen (key_of id) s').1))
  dedupe_handler_once ctx id e e' s has_id named new kept =
      let s' = (guarded.handle ctx e s).1 in
      let first : guarded.handle ctx e s ≡ inner.handle ctx e (store.first_seen (key_of id) s).1 =
        handle-guarded ctx id e s has_id named ∙ ground (arith, new) in
      let old : laws.seen (key_of id) s' ≡ true =
        ap (λ (p : Option Err × S). laws.seen (key_of id) p.1) first
        ∙ kept (store.first_seen (key_of id) s).1 (laws.records (key_of id) s) in
      (first, handle-guarded ctx id e' s' has_id named ∙ ground (arith, old))

-- Two different pairs of handler and event share one key of the store where a colon moves from the
-- handler's name to the event's id.
pub composite_key_ambiguous :
    (a b c : String) → composite_key (a <> ":" <> b) c ≡ composite_key a (b <> ":" <> c)
unfolding composite_key
composite_key_ambiguous a b c =
    ap (λ s. "notif:" <> s)
      (append_assoc a (":" <> b) (":" <> c) ∙ ap (λ s. a <> s) (append_assoc ":" b (":" <> c)))
