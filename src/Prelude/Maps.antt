-- ===== src/Prelude/Maps.antt =====
-- A Go map with text keys, as an association list. The order of the list is the order in which
-- `range` visits the entries, which Go leaves open: what is proved of every list holds of every order.
use Prim.Native.String.{String}
use mathlib.Core.Path.{◌≡◌, refl}
use mathlib.Core.Option.{Option, none, some}
use mathlib.Core.List.{List, [], ◌∷◌}
use native.Mathlib.Omega.{arith}
use text.Mathlib.TextEquality.{eq_iff}
use tekton_events_relay.Prelude.Tests.{◌==◌, if◌then◌else◌, or_else}

abbrev pub Map {ℓ} : Type ℓ → Type ℓ
Map V = List (String × V)

module _ {ℓ} {V : Type ℓ} where
  -- `v, ok := m[k]`
  unfoldable pub lookup : String → Map V → Option V
  lookup k [] = none
  lookup k ((j, v) ∷ m) = if j == k then some v else lookup k m

  -- `m[k] = v`
  unfoldable pub insert : String → V → Map V → Map V
  insert k v [] = (k, v) ∷ []
  insert k v ((j, w) ∷ m) = if j == k then (k, v) ∷ m else (j, w) ∷ insert k v m

  -- `delete(m, k)`
  unfoldable pub erase : String → Map V → Map V
  erase k [] = []
  erase k ((j, w) ∷ m) = let rest = erase k m in if j == k then rest else (j, w) ∷ rest

  pub lookup-insert :
      (written read : String) (new : V) (m : Map V)
      → lookup read (insert written new m) ≡ (if written == read then some new else lookup read m)
  unfolding insert lookup
  lookup-insert written read new [] = refl
  lookup-insert written read new ((key, old) ∷ rest) = ground (
    arith,
    lookup-insert written read new rest,
    eq_iff written read,
    eq_iff key read,
    eq_iff key written,
  )

  pub lookup-erase :
      (gone read : String) (m : Map V)
      → lookup read (erase gone m) ≡ (if gone == read then none else lookup read m)
  unfolding erase lookup
  lookup-erase gone read [] = ground arith
  lookup-erase gone read ((key, old) ∷ rest) =
      ground
        (arith, lookup-erase gone read rest, eq_iff gone read, eq_iff key read, eq_iff key gone)

-- `m[k]` on a map of texts: the empty text where the key is missing.
abbrev pub text_at : Map String → String → String
text_at m k = or_else (lookup k m) ""

pub ruleset map_laws = (lookup-insert, lookup-erase)
