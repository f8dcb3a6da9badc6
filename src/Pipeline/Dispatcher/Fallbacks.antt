-- ===== src/Pipeline/Dispatcher/Fallbacks.antt =====
-- Which fallback handlers run.
use tekton_events_relay.Prelude.{
  String, Bool, true, ◌||◌, Option, none, some, List, [], ◌∷◌, ◌≡◌, refl, arith, Map, is_some, all,
  not, Option-cases, inl, inr, false, any, ap, ◌∙◌, ◌==◌, lookup, if◌then◌else◌,
}
use tekton_events_relay.Domain.{Event}
use tekton_events_relay.Errors.{Err, is_retryable, is_retryable?}
use tekton_events_relay.Notifier.{Context, ActionHandler, Registry, lookup_handler}
use tekton_events_relay.Pipeline.Dispatcher.{
  Dispatcher, HandlerResult, fallback_of, execute_fallbacks, fallback_phase, add_error,
  fallback_error,
}
use tekton_events_relay.Pipeline.Dispatcher.Runs.{calls, returns}

-- The cause of a fallback is permanent, so the joined error is retryable as the fallback's is.
add_error-retryable :
    (x : Option Err) (name primary : String) (cause : Err) (es : List Err)
    → is_retryable cause ≡ false
    → any is_retryable (add_error x (fallback_error name primary cause) es)
      ≡ (is_retryable? x || any is_retryable es)
unfolding is_retryable
add_error-retryable none name primary cause es h = refl
add_error-retryable (some fb) name primary cause es h = ground (arith, h)

module _ {S : Type 0} where
  abbrev add_stand_in :
      Option (Err × String × ActionHandler S) → List (ActionHandler S) → List (ActionHandler S)
  add_stand_in none hs = hs
  add_stand_in (some (cause, name, fb)) hs = fb ∷ hs

  -- The handlers that stand in, in the order of the results.
  abbrev pub stand_ins : Dispatcher S → Map String → List (HandlerResult S) → List (ActionHandler S)
  stand_ins d names [] = []
  stand_ins d names (r ∷ rs) = add_stand_in (fallback_of d names r) (stand_ins d names rs)

  -- A result asks for no fallback: the handler succeeded, or its error is retryable.
  abbrev pub needs_none : HandlerResult S → Bool
  needs_none r = not (is_some r.err) || is_retryable? r.err

  -- The fallbacks that run are those of the handlers that failed for good and have one configured
  -- and registered, in the order of the results, one call each: the state is what these calls leave.
  pub state-execute_fallbacks :
      (d : Dispatcher S) (names : Map String) (ctx : Context) (e : Event)
      (rs : List (HandlerResult S)) (s : S)
      → (execute_fallbacks d names ctx e rs s).1 ≡ calls ctx e (stand_ins d names rs) s
  unfolding execute_fallbacks
  state-execute_fallbacks d names ctx e [] s = refl
  state-execute_fallbacks d names ctx e (r ∷ rs) s = elim (Option-cases (fallback_of d names r)) [
    | inl none_here ↦ rw (none_here, execute_fallbacks) (state-execute_fallbacks d names ctx e rs s)
    | inr (p, here) ↦
        rw (here, execute_fallbacks)
          (state-execute_fallbacks d names ctx e rs (p.2.handle ctx e s).1)
  ]

  fallback_of-none :
      (d : Dispatcher S) (names : Map String) (r : HandlerResult S)
      → needs_none r ≡ true
      → fallback_of d names r ≡ none
  unfolding fallback_of
  fallback_of-none d names r h = ground arith

  stand_ins-none :
      (d : Dispatcher S) (names : Map String) (rs : List (HandlerResult S))
      → all needs_none rs ≡ true
      → stand_ins d names rs ≡ []
  stand_ins-none d names [] h = refl
  stand_ins-none d names (r ∷ rs) h =
      ground (arith, fallback_of-none d names r, stand_ins-none d names rs)

  -- Where every handler succeeded or failed with a retryable error, no fallback runs: the state is
  -- left alone and no error is added.
  pub no_errors-execute_fallbacks :
      (d : Dispatcher S) (names : Map String) (ctx : Context) (e : Event)
      (rs : List (HandlerResult S)) (s : S)
      → all needs_none rs ≡ true
      → execute_fallbacks d names ctx e rs s ≡ ([], s)
  unfolding execute_fallbacks
  no_errors-execute_fallbacks d names ctx e [] s h = refl
  no_errors-execute_fallbacks d names ctx e (r ∷ rs) s h =
      ground (arith, fallback_of-none d names r, no_errors-execute_fallbacks d names ctx e rs s)

  fallback_of-permanent :
      (d : Dispatcher S) (names : Map String) (r : HandlerResult S)
      (p : Err × String × ActionHandler S)
      → fallback_of d names r ≡ some p
      → is_retryable (p.0) ≡ false
  unfolding fallback_of
  fallback_of-permanent d names r p h = ground arith

  retryable-execute_fallbacks :
      (d : Dispatcher S) (names : Map String) (ctx : Context) (e : Event)
      (rs : List (HandlerResult S)) (s : S)
      → any is_retryable ((execute_fallbacks d names ctx e rs s).0)
        ≡ any is_retryable? (returns ctx e (stand_ins d names rs) s)
  unfolding execute_fallbacks
  retryable-execute_fallbacks d names ctx e [] s = refl
  retryable-execute_fallbacks d names ctx e (r ∷ rs) s =
      elim (Option-cases (fallback_of d names r)) [
        | inl none_here ↦
            rw (none_here, execute_fallbacks) (retryable-execute_fallbacks d names ctx e rs s)
        | inr (p, here) ↦
            let (x, s') = p.2.handle ctx e s in
            rw (here, execute_fallbacks)
              (add_error-retryable x (p.1) r.handler.name (p.0)
                  ((execute_fallbacks d names ctx e rs s').0)
                  (fallback_of-permanent d names r p here)
                ∙ ap (λ b. is_retryable? x || b) (retryable-execute_fallbacks d names ctx e rs s'))
      ]

  -- The handler that the configuration names for another that failed for good.
  abbrev pub named_in : Registry S → Option String → Option (ActionHandler S)
  named_in registry none = none
  named_in registry (some name) = if name == "" then none else lookup_handler registry name

  abbrev pub replacement :
      Registry S → Map String → ActionHandler S → Option Err → Option (ActionHandler S)
  replacement registry names h none = none
  replacement registry names h (some e) =
      if is_retryable e then none else named_in registry (lookup h.name names)

  abbrev pub replacements :
      Registry S → Map String → List (HandlerResult S) → List (ActionHandler S)
  replacements registry names [] = []
  replacements registry names (r ∷ rs) = elim (replacement registry names r.handler r.err) [
    | none ↦ replacements registry names rs
    | some fb ↦ fb ∷ replacements registry names rs
  ]

  stand_ins-replacements :
      (d : Dispatcher S) (names : Map String) (rs : List (HandlerResult S))
      → stand_ins d names rs ≡ replacements d.registry names rs
  unfolding fallback_of
  stand_ins-replacements d names [] = refl
  stand_ins-replacements d names (r ∷ rs) = ground (arith, stand_ins-replacements d names rs)

  -- Without a configuration nothing stands in.
  abbrev pub all_replacements :
      Dispatcher S → Option (Map String) → List (HandlerResult S) → List (ActionHandler S)
  all_replacements d none rs = []
  all_replacements d (some names) rs = replacements d.registry names rs

  -- An error that the fallbacks add is retryable exactly when a handler that stands in returned one.
  pub retryable-fallback_phase :
      (d : Dispatcher S) (names : Option (Map String)) (ctx : Context) (e : Event)
      (rs : List (HandlerResult S)) (s : S)
      → any is_retryable ((fallback_phase d names ctx e rs s).0)
        ≡ any is_retryable? (returns ctx e (all_replacements d names rs) s)
  retryable-fallback_phase d none ctx e rs s = refl
  retryable-fallback_phase d (some names) ctx e rs s =
      retryable-execute_fallbacks d names ctx e rs s
      ∙ ap (λ hs. any is_retryable? (returns ctx e hs s)) (stand_ins-replacements d names rs)
