-- ===== src/Notifier/Laws.antt =====
-- The indexes of the registry of internal/notifier/notifier.go against its list of handlers.
use tekton_events_relay.Prelude.{
  String, List, [], ◌∷◌, ◌++◌, ◌≡◌, refl, sym, ◌∙◌, ap, arith, eq_iff, ◌==◌, filter, filter-append,
  lookup, insert, Map, lookup-insert, append_assoc, append-nil, if◌then◌else◌,
}
use tekton_events_relay.Notifier.{
  ActionHandler, ActionType, Registry, slice_at, new_registry, register, register_all, find_by_name,
  find_by_type, all_handlers, lookup_handler, first,
}

module _ {S : Type 0} where
  abbrev pub named : String → List (ActionHandler S) → List (ActionHandler S)
  named n = filter (λ h. h.name == n)

  abbrev pub typed : ActionType → List (ActionHandler S) → List (ActionHandler S)
  typed t = filter (λ h. h.action_type == t)

  pub record IsIndexed (r : Registry S) : Type 0 where
    pub names : (n : String) → slice_at r.by_name n ≡ named n r.handlers
    pub types : (t : ActionType) → slice_at r.by_type t ≡ typed t r.handlers

  IsIndexed-new : IsIndexed new_registry
  unfolding new_registry lookup
  IsIndexed-new = record { names = λ n. refl; types = λ t. refl }

  -- One registration, seen through either index.
  filed :
      (k n : String) (m : Map (List (ActionHandler S))) (h : ActionHandler S)
      {f : String → List (ActionHandler S)}
      → ((j : String) → slice_at m j ≡ f j)
      → slice_at (insert k (slice_at m k ++ h ∷ []) m) n ≡ f n ++ (if k == n then h ∷ [] else [])
  filed k n m h {f = f} agrees =
      rw lookup-insert (ground (arith, agrees n, agrees k, eq_iff k n, append-nil (f n)))

  IsIndexed-register :
      (r : Registry S) (h : ActionHandler S) → IsIndexed r → IsIndexed (register r h)
  unfolding register
  IsIndexed-register r h i = record {
    names = λ n.
        filed h.name n r.by_name h i.names
        ∙ sym (filter-append (λ g. g.name == n) r.handlers (h ∷ []));
    types = λ n.
        filed h.action_type n r.by_type h i.types
        ∙ sym (filter-append (λ g. g.action_type == n) r.handlers (h ∷ []));
  }

  IsIndexed-register_all :
      (r : Registry S) (hs : List (ActionHandler S))
      → IsIndexed r
      → IsIndexed (register_all r hs) × ((register_all r hs).handlers ≡ r.handlers ++ hs)
  unfolding register_all
  IsIndexed-register_all r [] i = (i, sym (append-nil r.handlers))
  IsIndexed-register_all r (h ∷ hs) i =
      let (j, e) = IsIndexed-register_all (register r h) hs (IsIndexed-register r h i) in
      (j, unfold register in e ∙ append_assoc r.handlers (h ∷ []) hs)

  -- After any registrations, in their order: All returns every handler, FindByName and FindByType
  -- return those of the name or type in order of registration, and Lookup the first of the name.
  pub registry-register_all :
      (hs : List (ActionHandler S)) (n : String) (t : ActionType)
      → let r = register_all new_registry hs in
        (all_handlers r ≡ hs)
        × (find_by_name r n ≡ named n hs)
        × (find_by_type r t ≡ typed t hs)
        × (lookup_handler r n ≡ first (named n hs))
  unfolding all_handlers find_by_name find_by_type lookup_handler new_registry
  registry-register_all hs n t =
      let (i, e) = IsIndexed-register_all new_registry hs IsIndexed-new in
      (
        e,
        i.names n ∙ ap (named n) e,
        i.types t ∙ ap (typed t) e,
        ap first (i.names n ∙ ap (named n) e),
      )
