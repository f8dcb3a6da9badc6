-- ===== src/Scm/Upsert/Once.antt =====
-- internal/notifier/scm/github/comment_common.go: how many comments of a run an issue gets, on an API
-- that does what it documents.
use tekton_events_relay.Prelude.{
  ℕ, zero, suc, ◌+◌, ◌≤◌, ◌<◌, String, true, Option, none, some, List, [], ◌∷◌, ◌++◌, take, length,
  ◌≡◌, refl, ◌∙◌, ap, arith, ◌<>◌, nat_eq, if◌then◌else◌, is_some, starts_with, length-append,
  take_all,
}
use text.Mathlib.TextPositions.{starts_with-append}
use tekton_events_relay.Errors.{ok}
use tekton_events_relay.Scm.Comments.{with_marker}
use tekton_events_relay.Scm.Upsert.{
  Comment, CommentsApi, has_marker, find_marked, found_in, put_comment, upsert_comment,
}

-- The comments with the body of `id` replaced.
unfoldable pub replaced : ℕ → String → List Comment → List Comment
replaced id body [] = []
replaced id body (c ∷ cs) =
    (if nat_eq c.id id then record c { body = body } else c) ∷ replaced id body cs

-- `thread` are the comments of the issue, the oldest first. A listing that succeeds answers the
-- first hundred of them; a post that succeeds puts one at the end, and an edit replaces a body.
pub record CommentsLaws (S : Type 0) (api : CommentsApi S) : Type 0 where
  pub thread : S → List Comment
  pub listed :
      (s : S) (cs : List Comment) → (api.list_comments s).0 ≡ ok cs → cs ≡ take 100 (thread s)
  pub listing : (s : S) → thread ((api.list_comments s).1) ≡ thread s
  pub next_id : S → ℕ
  pub created :
      (body : String) (s : S)
      → (api.create_comment body s).0 ≡ none
      → thread ((api.create_comment body s).1)
        ≡ thread s ++ record { id = next_id s; body = body } ∷ []
  pub edited :
      (id : ℕ) (body : String) (s : S)
      → (api.edit_comment id body s).0 ≡ none
      → thread ((api.edit_comment id body s).1) ≡ replaced id body (thread s)

has_of_starts : (s m : String) → starts_with s m ≡ true → has_marker s m ≡ true
unfolding has_marker
has_of_starts String.[] m h = h
has_of_starts (String.◌∷◌ c s) m h = ground (arith, h)

pub has_marker-with_marker : (m body : String) → has_marker (with_marker m body) m ≡ true
unfolding with_marker
has_marker-with_marker m body =
    has_of_starts (m <> "\n" <> body) m (starts_with-append m ("\n" <> body))

find_marked-append :
    (m : String) (xs : List Comment) (c : Comment)
    → has_marker c.body m ≡ true
    → is_some (find_marked m (xs ++ c ∷ [])) ≡ true
unfolding find_marked
find_marked-append m [] c h = rw h refl
find_marked-append m (x ∷ xs) c h = ground (arith, find_marked-append m xs c h)

find_marked-replaced :
    (m body : String) (id : ℕ) (xs : List Comment)
    → has_marker body m ≡ true
    → find_marked m xs ≡ some id
    → is_some (find_marked m (replaced id body xs)) ≡ true
unfolding find_marked replaced
find_marked-replaced m body id [] h f = absurd (cc)
find_marked-replaced m body id (x ∷ xs) h f = ground (arith, find_marked-replaced m body id xs h)

length-replaced :
    (id : ℕ) (body : String) (xs : List Comment) → length (replaced id body xs) ≡ length xs
unfolding replaced
length-replaced id body [] = refl
length-replaced id body (x ∷ xs) = ap suc (length-replaced id body xs)

take-append : {A : Type 0} (n : ℕ) (xs ys : List A) → n ≤ length xs → take n (xs ++ ys) ≡ take n xs
take-append zero xs ys h = refl
take-append (suc n) [] ys h = absurd (omega arith)
take-append (suc n) (x ∷ xs) ys h = ap (λ l. x ∷ l) (take-append n xs ys (omega arith))

-- The comments after a post or an edit of the comment that was found.
abbrev pub after : Option ℕ → ℕ → String → List Comment → List Comment
after none id body cs = cs ++ record { id = id; body = body } ∷ []
after (some marked) id body cs = replaced marked body cs

module _ {S : Type 0} (api : CommentsApi S) (laws : CommentsLaws S api) where
  put_comment-after :
      (body : String) (found : Option ℕ) (s : S)
      → (put_comment api body found s).0 ≡ none
      → laws.thread ((put_comment api body found s).1)
        ≡ after found (laws.next_id s) body (laws.thread s)
  put_comment-after body none s h = laws.created body s h
  put_comment-after body (some id) s h = laws.edited id body s h

  -- What the issue holds after an upsert that succeeds, whose listing succeeded.
  upsert_comment-after :
      (m body : String) (s : S) (cs : List Comment)
      → (api.list_comments s).0 ≡ ok cs
      → (upsert_comment api m body s).0 ≡ none
      → laws.thread ((upsert_comment api m body s).1)
        ≡ after
            (find_marked m (take 100 (laws.thread s)))
            (laws.next_id ((api.list_comments s).1))
            body
            (laws.thread s)
  unfolding upsert_comment
  upsert_comment-after m body s cs lists h =
      let s' : S = (api.list_comments s).1 in
      let found : found_in api m ((api.list_comments s).0)
          ≡ find_marked m (take 100 (laws.thread s)) =
        ap (found_in api m) lists ∙ ap (find_marked m) (laws.listed s cs lists) in
      put_comment-after body (found_in api m ((api.list_comments s).0)) s' h
      ∙ ap (λ f. after f (laws.next_id s') body (laws.thread s')) found
      ∙ ap (after (find_marked m (take 100 (laws.thread s))) (laws.next_id s') body)
          (laws.listing s)

  -- An upsert that succeeds leaves a marked comment behind.
  after-marked :
      (m body : String) (id : ℕ) (xs : List Comment)
      → has_marker body m ≡ true
      → length xs < 100
      → is_some (find_marked m (take 100 (after (find_marked m (take 100 xs)) id body xs))) ≡ true
  after-marked m body id xs h few =
      rw (take_all 100 xs (omega arith)) (after_found (find_marked m xs) refl)
    where
      after_found :
          (o : Option ℕ)
          → find_marked m xs ≡ o
          → is_some (find_marked m (take 100 (after o id body xs))) ≡ true
      after_found none e =
          let c : Comment = record { id = id; body = body } in
          rw (take_all 100 (xs ++ c ∷ []) (omega (arith, length-append xs (c ∷ []))))
            (find_marked-append m xs c h)
      after_found (some marked) e =
          rw
            (take_all 100 (replaced marked body xs) (omega (arith, length-replaced marked body xs)))
            (find_marked-replaced m body marked xs h e)

  length-after :
      (o : Option ℕ) (id : ℕ) (body : String) (xs : List Comment)
      → is_some o ≡ true
      → length (after o id body xs) ≡ length xs
  length-after none id body xs h = absurd (cc)
  length-after (some marked) id body xs h = length-replaced marked body xs

  -- On an issue with fewer than a hundred comments, the second upsert of a marked comment posts no
  -- further comment. Conditions: the API does what it documents, and the listings and the writes
  -- succeed.
  pub upsert_comment_once :
      (m body body' : String) (s : S) (cs cs' : List Comment)
      → length (laws.thread s) < 100
      → (api.list_comments s).0 ≡ ok cs
      → (upsert_comment api m (with_marker m body) s).0 ≡ none
      → (api.list_comments ((upsert_comment api m (with_marker m body) s).1)).0 ≡ ok cs'
      → (upsert_comment api m
          (with_marker m body')
          ((upsert_comment api m (with_marker m body) s).1)).0
        ≡ none
      → let s1 = (upsert_comment api m (with_marker m body) s).1 in
        let s2 = (upsert_comment api m (with_marker m body') s1).1 in
        length (laws.thread s2) ≡ length (laws.thread s1)
  upsert_comment_once m body body' s cs cs' few lists posts lists' posts' =
      let s1 : S = (upsert_comment api m (with_marker m body) s).1 in
      let first : is_some (find_marked m (take 100 (laws.thread s1))) ≡ true =
        rw (upsert_comment-after m (with_marker m body) s cs lists posts) (
          after-marked m (with_marker m body) (laws.next_id ((api.list_comments s).1))
            (laws.thread s) (has_marker-with_marker m body) few) in
      ap length (upsert_comment-after m (with_marker m body') s1 cs' lists' posts')
      ∙ length-after (find_marked m (take 100 (laws.thread s1)))
          (laws.next_id ((api.list_comments s1).1)) (with_marker m body') (laws.thread s1) first

  -- Past the first page, the marker is not looked for: each upsert posts another comment.
  pub upsert_comment_past_page :
      (m body : String) (s : S) (cs : List Comment)
      → 100 ≤ length (laws.thread s)
      → find_marked m (take 100 (laws.thread s)) ≡ none
      → (api.list_comments s).0 ≡ ok cs
      → (upsert_comment api m body s).0 ≡ none
      → let s1 = (upsert_comment api m body s).1 in
        (length (laws.thread s1) ≡ length (laws.thread s) + 1)
        × (find_marked m (take 100 (laws.thread s1)) ≡ none)
  upsert_comment_past_page m body s cs many none_ lists posts =
      let c : Comment = record { id = laws.next_id ((api.list_comments s).1); body = body } in
      let same : laws.thread ((upsert_comment api m body s).1) ≡ laws.thread s ++ c ∷ [] =
        upsert_comment-after m body s cs lists posts ∙ rw none_ refl in
      rw same (
        length-append (laws.thread s) (c ∷ []),
        ap (find_marked m) (take-append 100 (laws.thread s) (c ∷ []) many) ∙ none_,
      )
