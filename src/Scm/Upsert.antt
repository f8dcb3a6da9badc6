-- ===== src/Scm/Upsert.antt =====
-- internal/notifier/scm/github/comment_common.go, and upsert.go above it: a comment that is edited
-- where its marker is found, and posted anew where it is not.
pub mod Once
use tekton_events_relay.Prelude.{
  ℕ, zero, suc, ◌+◌, String, Bool, true, false, ◌||◌, Option, none, some, List, [], ◌∷◌, ◌++◌, take,
  ◌==◌, ◌<>◌, if◌then◌else◌, starts_with,
}
use tekton_events_relay.Domain.{Event}
use tekton_events_relay.Errors.{Err, Result, ok, err, wrap}
use tekton_events_relay.Scm.Comments.{marker, with_marker}
use tekton_events_relay.Scm.Limits.{validate}

pub record Comment : Type 0 where
  pub id : ℕ
  pub body : String

-- The calls of the SDK for one issue: ListComments asks for a page of 100 and reads no other.
-- `render` is RenderTemplate.
pub record CommentsApi (S : Type 0) : Type 0 where
  pub list_comments : S → Result (List Comment) × S
  pub create_comment : String → S → Option Err × S
  pub edit_comment : ℕ → String → S → Option Err × S
  pub render : Event → Result String

-- HasMarker: strings.Contains
unfoldable pub has_marker : String → String → Bool
has_marker String.[] m = starts_with String.[] m
has_marker (String.◌∷◌ c s) m = starts_with (String.◌∷◌ c s) m || has_marker s m

-- The loop of findMarkedComment.
unfoldable pub find_marked : String → List Comment → Option ℕ
unfolding has_marker
find_marked m [] = none
find_marked m (c ∷ cs) =
    let rest = find_marked m cs in if has_marker c.body m then some c.id else rest

module _ {S : Type 0} (api : CommentsApi S) where
  -- A lookup that fails counts as nothing found.
  abbrev pub found_in : String → Result (List Comment) → Option ℕ
  found_in m (ok cs) = find_marked m cs
  found_in m (err e) = none

  abbrev pub put_comment : String → Option ℕ → S → Option Err × S
  put_comment body (some id) s = api.edit_comment id body s
  put_comment body none s = api.create_comment body s

  -- findMarkedComment, and the edit or the post.
  unfoldable pub upsert_comment : String → String → S → Option Err × S
  unfolding find_marked
  upsert_comment m body s =
      let (cs, s') = api.list_comments s in put_comment body (found_in m cs) s'

  abbrev pub unless : Option Err → S → Option Err × S → Option Err × S
  unless (some e) s next = (some e, s)
  unless none s next = next

  abbrev pub post_rendered : String → Event → String → Result String → S → Option Err × S
  post_rendered mode e action (err x) s = (some (wrap "render template: " x), s)
  post_rendered mode e action (ok body) s =
      let m = marker e.run_id action in
      if mode == "upsert"
      then unless (validate "github" "comment_body" (with_marker m body)) s
          (upsert_comment m (with_marker m body) s)
      else unless (validate "github" "comment_body" body) s (api.create_comment body s)

  -- postIssueComment
  unfoldable pub post_issue_comment : String → Event → String → S → Option Err × S
  unfolding marker with_marker upsert_comment
  post_issue_comment mode e action s = post_rendered mode e action (api.render e) s
