-- ===== src/Scm/Labels.antt =====
-- internal/notifier/scm/labels.go, and internal/notifier/scm/github/label.go: the labels that an
-- action adds to an issue and removes from it.
pub mod Converge
use tekton_events_relay.Prelude.{
  ℤ, pos, negsuc, String, Bool, true, false, not, ◌&&◌, ◌||◌, Option, none, some, List, [], ◌∷◌,
  map, any, ◌==◌, ◌<>◌, Map, lookup, insert, or_else, is_empty, is_some, ◌⊎◌, inl, inr,
  if◌then◌else◌,
}
use tekton_events_relay.Domain.{Event}
use tekton_events_relay.Scm.Limits.{validate}
use tekton_events_relay.Errors.{Err, Result, ok, err, wrap}

pub record Label : Type 0 where
  pub name : String
  pub color : String

pub record LabelSet : Type 0 where
  pub to_add : List Label
  pub to_remove : List Label

-- LabelSet.Empty
unfoldable pub is_empty_set : LabelSet → Bool
is_empty_set l = is_empty l.to_add && is_empty l.to_remove

-- LabelSet.Validate; `matches` is the regular expression of six hexadecimal digits.
unfoldable pub valid_colors : (String → Bool) → List Label → List Label
valid_colors matches [] = []
valid_colors matches (l ∷ ls) =
    (if not (l.color == "") && not (matches l.color) then record l { color = "" } else l)
    ∷ valid_colors matches ls

unfoldable pub validate_labels : (String → Bool) → LabelSet → LabelSet
unfolding valid_colors
validate_labels matches l = record {
  to_add = valid_colors matches l.to_add;
  to_remove = valid_colors matches l.to_remove;
}

-- What the code calls of the SDK and of text/template, for one issue. An answer of the API with
-- status 404 is `not_found`. `render` parses and executes a template on the event.
pub data ApiError : Type 0 where
  not_found : ApiError
  other : Err → ApiError

pub record LabelsApi (S : Type 0) : Type 0 where
  pub remove_label : String → S → Option ApiError × S
  pub add_labels : List String → S → Option Err × S
  pub get_label : String → S → (String ⊎ ApiError) × S
  pub edit_label : String → String → S → Option Err × S
  pub create_label : String → String → S → Option Err × S
  pub render : String → Event → Result String

abbrev pub kept_label : Label → String → List Label → List Label
kept_label l v rest = if v == "" then rest else record { name = v; color = l.color } ∷ rest

-- A step that may fail, before the rest of a list.
abbrev pub with_rest : Result String → Label → Result (List Label) → Result (List Label)
with_rest (err e) l rest = err e
with_rest (ok v) l (err e) = err e
with_rest (ok v) l (ok ls) = ok (kept_label l v ls)

unfoldable pub render_label_list :
    (String → Event → Result String) → List Label → Event → Result (List Label)
render_label_list render [] e = ok []
render_label_list render (l ∷ ls) e = with_rest (render l.name e) l (render_label_list render ls e)

-- The cache of the names that the handler has checked, and the world outside.
pub record Labeling (S : Type 0) : Type 0 where
  pub checked : Map Bool
  pub state : S

module _ {S : Type 0} (api : LabelsApi S) where
  abbrev pub next_removal : Option ApiError × S → (S → Option Err × S) → Option Err × S
  next_removal (none, s) next = next s
  next_removal (some not_found, s) next = next s
  next_removal (some (other e), s) next = (some e, s)

  abbrev pub unless : Option Err → S → (S → Option Err × S) → Option Err × S
  unless none s next = next s
  unless (some e) s next = (some e, s)

  unfoldable pub remove_all : List Label → S → Option Err × S
  remove_all [] s = (none, s)
  remove_all (l ∷ ls) s =
      unless (validate "github" "label_name" l.name) s
        (λ t. next_removal (api.remove_label l.name t) (remove_all ls))

  abbrev pub checked_if : String → String → Map Bool → Option Err × S → Option Err × Labeling S
  checked_if key what checked (none, s) =
      (none, record { checked = insert key true checked; state = s })
  checked_if key what checked (some e, s) =
      (some (wrap what e), record { checked = checked; state = s })

  abbrev pub looked_up :
      String → Label → Map Bool → (String ⊎ ApiError) × S → Option Err × Labeling S
  looked_up key l checked (inl color, s) =
      if color == l.color
      then (none, record { checked = insert key true checked; state = s })
      else checked_if key "update label color: " checked (api.edit_label l.name l.color s)
  looked_up key l checked (inr not_found, s) =
      checked_if key "create label with color: " checked (api.create_label l.name l.color s)
  looked_up key l checked (inr (other e), s) =
      (some (wrap "check label existence: " e), record { checked = checked; state = s })

  -- ensureLabelExists; `repo` is `owner/repo/`.
  unfoldable pub ensure_label_exists : String → Label → Labeling S → Option Err × Labeling S
  ensure_label_exists repo l w =
      let key = repo <> l.name in
      if l.color == "" || or_else (lookup key w.checked) false
      then (none, w)
      else looked_up key l w.checked (api.get_label l.name w.state)

  abbrev pub and_next :
      Option Err × Labeling S → (Labeling S → Option Err × Labeling S) → Option Err × Labeling S
  and_next (none, w) next = next w
  and_next (some e, w) next = (some e, w)

  abbrev pub limited :
      Option Err → Labeling S → (Labeling S → Option Err × Labeling S) → Option Err × Labeling S
  limited none w next = next w
  limited (some e) w next = (some e, w)

  unfoldable pub ensure_all : String → List Label → Labeling S → Option Err × Labeling S
  unfolding ensure_label_exists
  ensure_all repo [] w = (none, w)
  ensure_all repo (l ∷ ls) w =
      limited (validate "github" "label_name" l.name) w
        (λ v. and_next (ensure_label_exists repo l v) (ensure_all repo ls))

  abbrev pub set_state : Labeling S → Option Err × S → Option Err × Labeling S
  set_state w (e, s) = (e, record w { state = s })

  abbrev pub names_of : List Label → List String
  names_of ls = map (λ l. l.name) ls

  abbrev pub add_rendered : String → List Label → Labeling S → Option Err × Labeling S
  add_rendered repo [] w = (none, w)
  add_rendered repo (l ∷ ls) w =
      and_next (ensure_all repo (l ∷ ls) w)
        (λ v. set_state v (api.add_labels (names_of (l ∷ ls)) v.state))

  abbrev pub apply_rendered :
      String → Result (List Label) → Result (List Label) → Labeling S → Option Err × Labeling S
  apply_rendered repo (err e) removed w = (some (wrap "render add labels: " e), w)
  apply_rendered repo (ok added) (err e) w = (some (wrap "render remove labels: " e), w)
  apply_rendered repo (ok added) (ok removed) w =
      and_next (set_state w (remove_all removed w.state)) (add_rendered repo added)

  -- applyLabelSet
  unfoldable pub apply_label_set : String → LabelSet → Event → Labeling S → Option Err × Labeling S
  unfolding render_label_list remove_all ensure_all
  apply_label_set repo l e w =
      apply_rendered repo (render_label_list api.render l.to_add e)
        (render_label_list api.render l.to_remove e) w

  -- Handle: `target` is the issue's number or that of the pull request.
  unfoldable pub handle_labels : LabelSet → Event → Labeling S → Option Err × Labeling S
  unfolding apply_label_set is_empty_set
  handle_labels l e w =
      if not (e.provider == "github")
        || (e.repo.owner == "" || e.repo.name == "")
        || (not (is_some e.issue_number || is_some e.pr_number) || is_empty_set l)
      then (none, w)
      else apply_label_set (e.repo.owner <> "/" <> e.repo.name <> "/") l e w
