-- ===== src/Middleware/RateLimit/Table.antt =====
-- The table of internal/http/middleware/ratelimit.go: its size, its keys, and what eviction keeps.
use tekton_events_relay.Prelude.{
  ◌+◌, ◌≤◌, String, Option, none, some, [], ◌∷◌, Map, lookup, insert, length, leb, ◌≡◌, refl, sym,
  ◌∙◌, arith, eq_iff, ◌==◌, if◌then◌else◌, Bool-cases, inl, inr, lookup-insert, ltb→lt,
}
use tekton_events_relay.Domain.{Time}
use tekton_events_relay.Middleware.RateLimit.{
  Limiter, LimiterEntry, Table, Held, stored, detached, get_at, get_limiter, use_entry, use_held,
  allow_request, is_stale, evict_stale, max_rate_limiter_entries, limiter_key,
}

-- Each key stands once.
abbrev pub IsDistinct {ℓ} : {V : Type ℓ} → Map V → Type ℓ
IsDistinct [] = Unit
IsDistinct ((k, v) ∷ m) = (lookup k m ≡ none) × IsDistinct m

module _ {V : Type 0} where
  pub insert-IsDistinct :
      (k : String) (v : V) (m : Map V) → IsDistinct m → IsDistinct (insert k v m)
  unfolding insert lookup
  insert-IsDistinct k v [] h = (refl, tt)
  insert-IsDistinct k v ((j, w) ∷ m) h = elim (Bool-cases (j == k)) [
    | inl e ↦ rw e (let same : j ≡ k = ground (arith, eq_iff j k) in rw (sym same) h)
    | inr e ↦ rw e (
      lookup-insert k j v m ∙ ground (arith, eq_iff j k, eq_iff k j, h.0),
      insert-IsDistinct k v m h.1,
    )
  ]

  pub length-insert_new : (k : String) (v : V) (m : Map V) → length (insert k v m) ≤ length m + 1
  unfolding insert
  length-insert_new k v [] = omega arith
  length-insert_new k v ((j, w) ∷ m) = ground (arith, length-insert_new k v m)

  pub length-insert_old :
      (k : String) (v u : V) (m : Map V) → lookup k m ≡ some u → length (insert k v m) ≡ length m
  unfolding insert lookup
  length-insert_old k v u [] h = absurd (cc)
  length-insert_old k v u ((j, w) ∷ m) h = ground (arith, length-insert_old k v u m)

pub record IsTable {L : Type 0} (m : Table L) : Type 0 where
  pub bounded : length m ≤ max_rate_limiter_entries
  pub distinct : IsDistinct m

module _ {L : Type 0} (lim : Limiter L) where
  insert-IsTable :
      (k : String) (e : LimiterEntry L) (m : Table L)
      → length (insert k e m) ≤ max_rate_limiter_entries
      → IsTable m
      → IsTable (insert k e m)
  insert-IsTable k e m room h = record {
    bounded = room;
    distinct = insert-IsDistinct k e m h.distinct;
  }

  get_at-IsTable :
      (now : Time) (k : String) (o : Option (LimiterEntry L)) (m : Table L)
      → lookup k m ≡ o
      → IsTable m
      → IsTable ((get_at lim now k o m).1)
  get_at-IsTable now k none m f h = elim (Bool-cases (leb max_rate_limiter_entries (length m))) [
    | inl full ↦ rw full h
    | inr room ↦
        let fresh : LimiterEntry L = record { limiter = lim.new_limiter; last_seen = now } in
        rw room (
          insert-IsTable k fresh m
            (omega (
              arith,
              length-insert_new k fresh m,
              ltb→lt (length m) max_rate_limiter_entries (ground arith),
            ))
            h)
  ]
  get_at-IsTable now k (some e) m f h =
      let seen : LimiterEntry L = record e { last_seen = now } in
      insert-IsTable k seen m (omega (arith, length-insert_old k seen e m f, h.bounded)) h

  use_entry-IsTable :
      (now : Time) (k : String) (o : Option (LimiterEntry L)) (m : Table L)
      → lookup k m ≡ o
      → IsTable m
      → IsTable ((use_entry lim now k o m).1)
  use_entry-IsTable now k none m f h = h
  use_entry-IsTable now k (some e) m f h =
      let used : LimiterEntry L = record e { limiter = (lim.allow now e.limiter).1 } in
      insert-IsTable k used m (omega (arith, length-insert_old k used e m f, h.bounded)) h

  use_held-IsTable :
      (now : Time) (held : Held) (m : Table L)
      → IsTable m
      → IsTable ((use_held lim now (held, m)).1)
  use_held-IsTable now (stored k) m h = use_entry-IsTable now k (lookup k m) m refl h
  use_held-IsTable now detached m h = h

  pub allow_request-IsTable :
      (now : Time) (key : String) (m : Table L)
      → IsTable m
      → IsTable ((allow_request lim now key m).1)
  unfolding allow_request get_limiter
  allow_request-IsTable now key m h =
      let k : String = limiter_key key in
      let got : Held × Table L = get_at lim now k (lookup k m) m in
      use_held-IsTable now (got.0) (got.1) (get_at-IsTable now k (lookup k m) m refl h)

module _ {L : Type 0} where
  evict_stale-absent :
      (now : Time) (k : String) (m : Table L)
      → lookup k m ≡ none
      → lookup k (evict_stale now m) ≡ none
  unfolding evict_stale lookup
  evict_stale-absent now k [] h = refl
  evict_stale-absent now k ((j, e) ∷ m) h = ground (arith, evict_stale-absent now k m, eq_iff j k)

  -- What an entry reads as after the eviction.
  abbrev pub kept : Time → Option (LimiterEntry L) → Option (LimiterEntry L)
  kept now none = none
  kept now (some e) = if is_stale now e then none else some e

  pub lookup-evict_stale :
      (now : Time) (k : String) (m : Table L)
      → IsDistinct m
      → lookup k (evict_stale now m) ≡ kept now (lookup k m)
  unfolding evict_stale lookup
  lookup-evict_stale now k [] h = refl
  lookup-evict_stale now k ((j, e) ∷ m) h =
      ground (arith, lookup-evict_stale now k m h.1, evict_stale-absent now k m, eq_iff j k, h.0)

  length-evict_stale : (now : Time) (m : Table L) → length (evict_stale now m) ≤ length m
  unfolding evict_stale
  length-evict_stale now [] = omega arith
  length-evict_stale now ((j, e) ∷ m) = ground (arith, length-evict_stale now m)

  evict_stale-IsDistinct :
      (now : Time) (m : Table L) → IsDistinct m → IsDistinct (evict_stale now m)
  unfolding evict_stale
  evict_stale-IsDistinct now [] h = h
  evict_stale-IsDistinct now ((j, e) ∷ m) h = elim (Bool-cases (is_stale now e)) [
    | inl s ↦ rw s (evict_stale-IsDistinct now m h.1)
    | inr s ↦ rw s (evict_stale-absent now j m h.0, evict_stale-IsDistinct now m h.1)
  ]

  pub evict_stale-IsTable : (now : Time) (m : Table L) → IsTable m → IsTable (evict_stale now m)
  evict_stale-IsTable now m h = record {
    bounded = omega (arith, length-evict_stale now m, h.bounded);
    distinct = evict_stale-IsDistinct now m h.distinct;
  }
