-- ===== src/Middleware/RateLimit/Sources.antt =====
-- internal/http/middleware/ratelimit.go: what one source is answered, whatever the others send.
use tekton_events_relay.Prelude.{
  ◌+◌, ◌≤◌, ◌<◌, String, Bool, true, false, Option, none, some, List, [], ◌∷◌, lookup, insert,
  length, map, All, leb, ◌≡◌, refl, ◌∙◌, ap, arith, eq_iff, ◌==◌, if◌then◌else◌, Bool-cases, inl,
  inr, lookup-insert, eq_refl,
}
use tekton_events_relay.Domain.{Time}
use tekton_events_relay.Middleware.RateLimit.{
  Limiter, LimiterEntry, Table, stored, get_at, get_limiter, use_held, allow_request,
  max_rate_limiter_entries, limiter_key,
}
use tekton_events_relay.Middleware.RateLimit.Table.{length-insert_new, length-insert_old}

-- A request of a source at a time.
abbrev pub Arrival : Type 0
Arrival = Time × String

module _ {L : Type 0} (lim : Limiter L) where
  -- The limiter of a key: that of its entry, or a new one.
  abbrev pub limiter_of : Option (LimiterEntry L) → L
  limiter_of none = lim.new_limiter
  limiter_of (some e) = e.limiter

  abbrev pub held : Table L → String → L
  held m k = limiter_of (lookup k m)

  -- What the table answers to the requests, in order, each with its key.
  unfoldable pub answers : List Arrival → Table L → List (String × Bool)
  answers [] m = []
  answers ((now, key) ∷ rest) m =
      let (yes_, m') = allow_request lim now key m in (limiter_key key, yes_) ∷ answers rest m'

  -- What one limiter answers at a list of times.
  unfoldable pub limiter_answers : List Time → L → List Bool
  limiter_answers [] l = []
  limiter_answers (now ∷ rest) l =
      let (yes_, l') = lim.allow now l in yes_ ∷ limiter_answers rest l'

  -- The times and the answers of the requests of one key.
  unfoldable pub times_of : String → List Arrival → List Time
  times_of k [] = []
  times_of k ((now, key) ∷ rest) =
      let others = times_of k rest in if limiter_key key == k then now ∷ others else others

  unfoldable pub answers_of : String → List (String × Bool) → List Bool
  answers_of k [] = []
  answers_of k ((j, b) ∷ rest) =
      let others = answers_of k rest in if j == k then b ∷ others else others

  -- One request, with its entry found.
  abbrev Served : Time → String → Table L → Bool × Table L → Type 0
  Served now k m (answer, m') =
      (answer ≡ (lim.allow now (held m k)).0)
      × ((j : String) → held m' j ≡ (if k == j then (lim.allow now (held m k)).1 else held m j))
      × (length m' ≤ length m + 1)

  -- An entry that carries the key's limiter is written, found again and used.
  use_stored :
      (now : Time) (k : String) (x : LimiterEntry L) (m : Table L)
      → x.limiter ≡ held m k
      → length (insert k x m) ≤ length m + 1
      → Served now k m (use_held lim now (stored k, insert k x m))
  use_stored now k x m same size =
      let found : lookup k (insert k x m) ≡ some x = lookup-insert k k x m ∙ rw (eq_refl k) refl in
      let used : LimiterEntry L = record x { limiter = (lim.allow now x.limiter).1 } in
      rw found (
        ap (λ l. (lim.allow now l).0) same,
        λ j. ground (arith, same, lookup-insert k j used (insert k x m), lookup-insert k j x m),
        omega (arith, length-insert_old k used x (insert k x m) found),
      )

  get_at-Served :
      (now : Time) (k : String) (o : Option (LimiterEntry L)) (m : Table L)
      → lookup k m ≡ o
      → length m < max_rate_limiter_entries
      → Served now k m (use_held lim now (get_at lim now k o m))
  get_at-Served now k none m f room =
      let x : LimiterEntry L = record { limiter = lim.new_limiter; last_seen = now } in
      let open_ : leb max_rate_limiter_entries (length m) ≡ false = ground arith in
      rw open_ (use_stored now k x m (rw f refl) (length-insert_new k x m))
  get_at-Served now k (some e) m f room =
      let x : LimiterEntry L = record e { last_seen = now } in
      use_stored now k x m (rw f refl) (omega (arith, length-insert_old k x e m f))

  allow_request-Served :
      (now : Time) (key : String) (m : Table L)
      → length m < max_rate_limiter_entries
      → Served now (limiter_key key) m (allow_request lim now key m)
  unfolding allow_request get_limiter
  allow_request-Served now key m room =
      get_at-Served now (limiter_key key) (lookup (limiter_key key) m) m refl room

  -- Between two evictions, and as long as the requests and the entries together are no more than
  -- the table may hold, each key is limited as if it had one limiter of its own: what its requests
  -- are answered, among any others, is what that limiter answers at their times.
  pub sources_are_limited_alone :
      (k : String) (arrivals : List Arrival) (m : Table L)
      → length m + length arrivals ≤ max_rate_limiter_entries
      → answers_of k (answers arrivals m) ≡ limiter_answers (times_of k arrivals) (held m k)
  unfolding answers limiter_answers times_of answers_of
  sources_are_limited_alone k [] m room = refl
  sources_are_limited_alone k ((now, key) ∷ rest) m room =
      let served : Served now (limiter_key key) m (allow_request lim now key m) =
        allow_request-Served now key m (omega arith) in
      let m' : Table L = (allow_request lim now key m).1 in
      let ih = sources_are_limited_alone k rest m' (omega arith) in
      let moved : held m' k ≡ (
          if limiter_key key == k then (lim.allow now (held m (limiter_key key))).1 else held m k) =
        served.1 k in
      elim (Bool-cases (limiter_key key == k)) [
        | inl e ↦
            let same : limiter_key key ≡ k = ground (arith, eq_iff (limiter_key key) k) in
            let head : (allow_request lim now key m).0 ≡ (lim.allow now (held m k)).0 =
              served.0 ∙ ap (λ j. (lim.allow now (held m j)).0) same in
            let state : held m' k ≡ (lim.allow now (held m k)).1 =
              moved ∙ rw e (ap (λ j. (lim.allow now (held m j)).1) same) in
            let tail : answers_of k (answers rest m')
                ≡ limiter_answers (times_of k rest) ((lim.allow now (held m k)).1) =
              ih ∙ ap (limiter_answers (times_of k rest)) state in
            rw e (cc)
        | inr e ↦ rw e (ih ∙ ap (limiter_answers (times_of k rest)) (moved ∙ rw e refl))
      ]

  full_step :
      (now : Time) (key : String) (m : Table L)
      → max_rate_limiter_entries ≤ length m
      → lookup (limiter_key key) m ≡ none
      → allow_request lim now key m ≡ ((lim.allow now lim.new_limiter).0, m)
  unfolding allow_request get_limiter
  full_step now key m full absent =
      let f : leb max_rate_limiter_entries (length m) ≡ true = ground arith in rw (absent, f) refl

  -- While the table is full, a source that it does not hold is answered by a new limiter each time.
  pub full_table_never_limits :
      (k : String) (arrivals : List Arrival) (m : Table L)
      → max_rate_limiter_entries ≤ length m
      → lookup k m ≡ none
      → ((now : Time) → (lim.allow now lim.new_limiter).0 ≡ true)
      → All (λ a. limiter_key (a.1) ≡ k) arrivals
      → answers arrivals m ≡ map (λ a. (limiter_key (a.1), true)) arrivals
  unfolding answers
  full_table_never_limits k [] m full absent grants mine = refl
  full_table_never_limits k ((now, key) ∷ rest) m full absent grants mine =
      rw (full_step now key m full (rw (mine.0) absent), grants now)
        (ap (λ l. (limiter_key key, true) ∷ l)
          (full_table_never_limits k rest m full absent grants mine.1))
