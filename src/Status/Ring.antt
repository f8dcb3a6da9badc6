-- ===== src/Status/Ring.antt =====
-- handlerRing of internal/pipeline/status.go: the outcomes of one handler, in a ring.
pub mod Window
use tekton_events_relay.Prelude.{
  ℕ, zero, suc, ◌+◌, ◌%◌, Bool, false, List, [], ◌∷◌, ltb, take, any, if◌then◌else◌,
}

abbrev pub ring_size : ℕ
ring_size = 100

pub record HandlerRing : Type 0 where
  pub entries : List Bool  -- [ringBufferSize]bool; true is a success
  pub index : ℕ
  pub count : ℕ

abbrev pub replicate : ℕ → Bool → List Bool
replicate zero b = []
replicate (suc n) b = b ∷ replicate n b

abbrev pub set : List Bool → ℕ → Bool → List Bool
set [] i v = []
set (x ∷ xs) zero v = v ∷ xs
set (x ∷ xs) (suc i) v = x ∷ set xs i v

-- `&handlerRing{}`
abbrev pub new_ring : HandlerRing
new_ring = record { entries = replicate ring_size false; index = 0; count = 0 }

-- record
unfoldable pub record_outcome : Bool → HandlerRing → HandlerRing
record_outcome success r = record {
  entries = set r.entries r.index success;
  index = (r.index + 1) % ring_size;
  count = if ltb r.count ring_size then r.count + 1 else r.count;
}

pub count_failures : List Bool → ℕ
count_failures [] = 0
count_failures (b ∷ bs) = let rest = count_failures bs in if b then rest else suc rest

-- The numerator of errorRate: the failures among the first `count` entries.
unfoldable pub failures : HandlerRing → ℕ
unfolding count_failures
failures r = count_failures (take r.count r.entries)

unfoldable pub has_recent_success : HandlerRing → Bool
has_recent_success r = any (λ b. b) (take r.count r.entries)
