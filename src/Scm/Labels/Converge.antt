-- ===== src/Scm/Labels/Converge.antt =====
-- What an issue carries after a label action that succeeds, on an API that does what it documents.
use tekton_events_relay.Prelude.{
  String, Bool, false, not, ◌&&◌, ◌||◌, Option, none, some, List, [], ◌∷◌, any, ◌==◌, ◌≡◌, ◌⊎◌, inl,
  inr, refl, sym, ◌∙◌, ap, arith, if◌then◌else◌, Option-cases, Bool-cases, Map, or_else, lookup,
  ◌<>◌,
}
use tekton_events_relay.Domain.{Event}
use tekton_events_relay.Errors.{Err, ok}
use tekton_events_relay.Scm.Limits.{validate}
use tekton_events_relay.Scm.Labels.{
  Label, LabelSet, LabelsApi, Labeling, ApiError, not_found, other, remove_all, ensure_label_exists,
  ensure_all, apply_label_set, render_label_list, next_removal, looked_up, checked_if, and_next,
  add_rendered, names_of, set_state,
}

-- `has` says whether the issue carries a label. A removal that succeeds, or finds nothing, leaves
-- the label off and the others alone; an addition that succeeds puts its labels on and leaves the
-- others alone; the calls on the labels of the repository do not touch the issue.
-- Names are compared exactly: the labels in play must not differ only by case, which GitHub ignores.
pub record LabelsLaws (S : Type 0) (api : LabelsApi S) : Type 0 where
  pub has : String → S → Bool
  pub removed :
      (n m : String) (s : S)
      → ((api.remove_label n s).0 ≡ none) ⊎ ((api.remove_label n s).0 ≡ some not_found)
      → has m ((api.remove_label n s).1) ≡ (if n == m then false else has m s)
  pub added :
      (ns : List String) (m : String) (s : S)
      → (api.add_labels ns s).0 ≡ none
      → has m ((api.add_labels ns s).1) ≡ (any (λ n. n == m) ns || has m s)
  pub getting : (n m : String) (s : S) → has m ((api.get_label n s).1) ≡ has m s
  pub editing : (n c m : String) (s : S) → has m ((api.edit_label n c s).1) ≡ has m s
  pub creating : (n c m : String) (s : S) → has m ((api.create_label n c s).1) ≡ has m s

-- Whether a list of labels has one of this name.
abbrev pub names : String → List Label → Bool
names m ls = any (λ l. l.name == m) ls

module _ {S : Type 0} (api : LabelsApi S) (laws : LabelsLaws S api) (m : String) where
  removal_passes :
      (o : Option ApiError × S) (next : S → Option Err × S)
      → (next_removal api o next).0 ≡ none
      → ((o.0 ≡ none) ⊎ (o.0 ≡ some not_found)) × (next_removal api o next ≡ next (o.1))
  removal_passes (none, s) next h = (inl refl, refl)
  removal_passes (some not_found, s) next h = (inr refl, refl)
  removal_passes (some (other e), s) next h = absurd (cc)

  remove_all-has :
      (ls : List Label) (s : S)
      → (remove_all api ls s).0 ≡ none
      → laws.has m ((remove_all api ls s).1) ≡ (laws.has m s && not (names m ls))
  unfolding remove_all
  remove_all-has [] s h = ground arith
  remove_all-has (l ∷ ls) s h = elim (Option-cases (validate "github" "label_name" l.name)) [
    | inr (e, f) ↦ absurd (let bad : some e ≡ none = rw f at h in cc)
    | inl f ↦
        let s' : S = (api.remove_label l.name s).1 in
        let p = removal_passes (api.remove_label l.name s) (remove_all api ls) (rw f at h) in
        let after : (remove_all api ls s').0 ≡ none = ap (λ o. o.0) (sym p.1) ∙ (rw f at h) in
        let ih = remove_all-has ls s' after in
        let gone = laws.removed l.name m s p.0 in rw (f, p.1, ih, gone) (ground arith)
  ]

  -- The cache and the calls on the labels of the repository do not touch the issue.
  -- Names are compared exactly: the labels in play must not differ only by case, which GitHub ignores.
  abbrev Untouched : S → Option Err × Labeling S → Type 0
  Untouched s (x, w) = laws.has m w.state ≡ laws.has m s

  checked_if-Untouched :
      (key what : String) (checked : Map Bool) (s : S) (o : Option Err × S)
      → laws.has m (o.1) ≡ laws.has m s
      → Untouched s (checked_if api key what checked o)
  checked_if-Untouched key what checked s (none, t) h = h
  checked_if-Untouched key what checked s (some e, t) h = h

  looked_up-Untouched :
      (key : String) (l : Label) (checked : Map Bool) (s : S) (o : (String ⊎ ApiError) × S)
      → laws.has m (o.1) ≡ laws.has m s
      → Untouched s (looked_up api key l checked o)
  looked_up-Untouched key l checked s (inl color, t) h = elim (Bool-cases (color == l.color)) [
    | inl y ↦ rw y h
    | inr d ↦ rw d (
        checked_if-Untouched key "update label color: " checked s (api.edit_label l.name l.color t)
          (laws.editing l.name l.color m t ∙ h))
  ]
  looked_up-Untouched key l checked s (inr not_found, t) h =
      checked_if-Untouched key "create label with color: " checked s
        (api.create_label l.name l.color t) (laws.creating l.name l.color m t ∙ h)
  looked_up-Untouched key l checked s (inr (other e), t) h = h

  ensure_label_exists-Untouched :
      (repo : String) (l : Label) (w : Labeling S)
      → Untouched w.state (ensure_label_exists api repo l w)
  unfolding ensure_label_exists
  ensure_label_exists-Untouched repo l w =
      elim (Bool-cases (l.color == "" || or_else (lookup (repo <> l.name) w.checked) false)) [
        | inl y ↦ rw y refl
        | inr d ↦ rw d (
            looked_up-Untouched (repo <> l.name) l w.checked w.state (api.get_label l.name w.state)
              (laws.getting l.name m w.state))
      ]

  and_next-Untouched :
      (s : S) (o : Option Err × Labeling S) (next : Labeling S → Option Err × Labeling S)
      → Untouched s o
      → ((v : Labeling S) → Untouched v.state (next v))
      → Untouched s (and_next api o next)
  and_next-Untouched s (none, w) next h k = k w ∙ h
  and_next-Untouched s (some e, w) next h k = h

  ensure_all-Untouched :
      (repo : String) (ls : List Label) (w : Labeling S)
      → Untouched w.state (ensure_all api repo ls w)
  unfolding ensure_all
  ensure_all-Untouched repo [] w = refl
  ensure_all-Untouched repo (l ∷ ls) w =
      elim (Option-cases (validate "github" "label_name" l.name)) [
        | inr (e, f) ↦ rw f refl
        | inl f ↦ rw f (
            and_next-Untouched w.state (ensure_label_exists api repo l w) (ensure_all api repo ls)
              (ensure_label_exists-Untouched repo l w) (ensure_all-Untouched repo ls))
      ]

  any_names : (ls : List Label) → any (λ n. n == m) (names_of api ls) ≡ names m ls
  any_names [] = refl
  any_names (l ∷ ls) = ap (λ b. l.name == m || b) (any_names ls)

  next_passes :
      (o : Option Err × Labeling S) (next : Labeling S → Option Err × Labeling S)
      → (and_next api o next).0 ≡ none
      → (o.0 ≡ none) × (and_next api o next ≡ next (o.1))
  next_passes (none, w) next h = (refl, refl)
  next_passes (some e, w) next h = absurd (cc)

  add_rendered-has :
      (repo : String) (ls : List Label) (w : Labeling S)
      → (add_rendered api repo ls w).0 ≡ none
      → laws.has m ((add_rendered api repo ls w).1.state) ≡ (names m ls || laws.has m w.state)
  add_rendered-has repo [] w h = refl
  add_rendered-has repo (l ∷ ls) w h =
      let next : Labeling S → Option Err × Labeling S =
        λ v. set_state api v (api.add_labels (names_of api (l ∷ ls)) v.state) in
      let v : Labeling S = (ensure_all api repo (l ∷ ls) w).1 in
      let p = next_passes (ensure_all api repo (l ∷ ls) w) next h in
      let put : (api.add_labels (names_of api (l ∷ ls)) v.state).0 ≡ none =
        ap (λ o. o.0) (sym p.1) ∙ h in
      ap (λ o. laws.has m (o.1.state)) p.1
      ∙ laws.added (names_of api (l ∷ ls)) m v.state put
      ∙ rw (any_names (l ∷ ls), ensure_all-Untouched repo (l ∷ ls) w) refl

  -- A label action that succeeds leaves on the issue exactly the labels that it adds and those
  -- that were there and that it does not remove; a label that it both adds and removes is there.
  -- Conditions: the API does what it documents, and no two labels in play differ only by case.
  pub apply_label_set_converges :
      (repo : String) (set : LabelSet) (e : Event) (w : Labeling S) (added removed : List Label)
      → render_label_list api.render set.to_add e ≡ ok added
      → render_label_list api.render set.to_remove e ≡ ok removed
      → (apply_label_set api repo set e w).0 ≡ none
      → laws.has m ((apply_label_set api repo set e w).1.state)
        ≡ (names m added || (laws.has m w.state && not (names m removed)))
  unfolding apply_label_set
  apply_label_set_converges repo set e w added removed a r h =
      let first : Option Err × Labeling S = set_state api w (remove_all api removed w.state) in
      let passed : (and_next api first (add_rendered api repo added)).0 ≡ none = rw (a, r) at h in
      let p = next_passes first (add_rendered api repo added) passed in
      let adds : (add_rendered api repo added (first.1)).0 ≡ none =
        ap (λ o. o.0) (sym p.1) ∙ passed in
      rw (a, r, p.1, add_rendered-has repo added (first.1) adds, remove_all-has removed w.state p.0)
        refl
