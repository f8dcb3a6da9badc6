-- ===== src/Middleware/RateLimit.antt =====
-- internal/http/middleware/ratelimit.go: a limiter for each source, in a table of bounded size.
pub mod Table
pub mod Sources
use tekton_events_relay.Prelude.{
  ℕ, zero, suc, ◌+◌, ℤ, String, Bool, true, false, Option, none, some, List, [], ◌∷◌, Map, lookup,
  insert, length, leb, ltb, nat_eq, or_else, ◌==◌, if◌then◌else◌, map, filter,
}
use tekton_events_relay.Domain.{Time}
use tekton_events_relay.Scm.Limits.{first_runes}
use tekton_events_relay.Middleware.{Request, HttpHandler, Response, http_error}

-- Times are in nanoseconds; cleanupLoop evicts at each tick of its minute.
abbrev pub rate_limiter_ttl : ℕ
rate_limiter_ttl = 300000000000

abbrev pub max_key_length : ℕ
max_key_length = 256

abbrev pub max_rate_limiter_entries : ℕ
max_rate_limiter_entries = 10000

-- rate.Limiter of golang.org/x/time/rate: a limiter made by NewLimiter at the rate and burst of
-- the table, and what Allow answers at a time and leaves.
pub record Limiter (L : Type 0) : Type 0 where
  pub new_limiter : L
  pub allow : Time → L → Bool × L

pub record LimiterEntry (L : Type 0) : Type 0 where
  pub limiter : L
  pub last_seen : Time

abbrev pub Table : Type 0 → Type 0
Table L = Map (LimiterEntry L)

-- `key[:maxKeyLength]`: a remote address is ASCII, so that its bytes are its characters.
unfoldable pub limiter_key : String → String
unfolding first_runes
limiter_key key =
    let short = first_runes max_key_length key in if short == "" then "__fallback__" else short

-- The limiter that getLimiter returns: that of the table's entry, or one that no entry holds.
pub data Held : Type 0 where
  stored : String → Held
  detached : Held

module _ {L : Type 0} (lim : Limiter L) where
  abbrev pub get_at : Time → String → Option (LimiterEntry L) → Table L → Held × Table L
  get_at now key (some e) entries = (stored key, insert key (record e { last_seen = now }) entries)
  get_at now key none entries =
      if leb max_rate_limiter_entries (length entries)
      then (detached, entries)
      else (stored key, insert key (record { limiter = lim.new_limiter; last_seen = now }) entries)

  unfoldable pub get_limiter : Time → String → Table L → Held × Table L
  get_limiter now key entries = let k = limiter_key key in get_at now k (lookup k entries) entries

  abbrev pub use_entry : Time → String → Option (LimiterEntry L) → Table L → Bool × Table L
  use_entry now key none entries = ((lim.allow now lim.new_limiter).0, entries)
  use_entry now key (some e) entries =
      let (yes_, l) = lim.allow now e.limiter in
      (yes_, insert key (record e { limiter = l }) entries)

  -- `rl.getLimiter(key).Allow()`
  abbrev pub use_held : Time → Held × Table L → Bool × Table L
  use_held now (stored key, entries) = use_entry now key (lookup key entries) entries
  use_held now (detached, entries) = ((lim.allow now lim.new_limiter).0, entries)

  unfoldable pub allow_request : Time → String → Table L → Bool × Table L
  unfolding get_limiter
  allow_request now key entries = use_held now (get_limiter now key entries)

module _ {L : Type 0} where
  -- `e.lastSeen.Before(now - TTL)`
  abbrev pub is_stale : Time → LimiterEntry L → Bool
  is_stale now e = ltb (e.last_seen + rate_limiter_ttl) now

  unfoldable pub evict_stale : Time → Table L → Table L
  evict_stale now [] = []
  evict_stale now ((k, e) ∷ entries) =
      let rest = evict_stale now entries in if is_stale now e then rest else (k, e) ∷ rest

-- `split_host` is the host of net.SplitHostPort, none on its error.
unfoldable pub rate_limit_identity : (String → Option String) → Request → String
rate_limit_identity split_host r = or_else (split_host r.remote_addr) r.remote_addr

module _ {L W : Type 0} (lim : Limiter L) where
  abbrev pub limited :
      HttpHandler W → Request → Map String → W → Bool × Table L → Response × (Table L × W)
  unfolding http_error
  limited next r headers w (true, entries) =
      let (response, w') = next r headers w in (response, (entries, w'))
  limited next r headers w (false, entries) =
      (http_error 429 "Too Many Requests" (insert "Retry-After" "1" headers), (entries, w))

  -- Middleware: the table is part of the world on which the handler acts.
  unfoldable pub rate_limit :
      (String → Option String) → Time → HttpHandler W → HttpHandler (Table L × W)
  unfolding allow_request rate_limit_identity
  rate_limit split_host now next r headers w =
      limited next r headers (w.1) (allow_request lim now (rate_limit_identity split_host r) (w.0))
