-- ===== src/Pipeline/Links/Namespaces.antt =====
-- The namespace rules of internal/pipeline/filter.go.
use tekton_events_relay.Prelude.{
  String, Bool, true, false, not, ◌&&◌, Option, some, List, [], ◌∷◌, ◌++◌, ◌≡◌, refl, sym, arith,
  starts_with, is_empty, all, if◌then◌else◌,
}

-- path.Match: `none` is its error on a malformed pattern.
abbrev pub PathMatch : Type 0
PathMatch = String → String → Option Bool

-- `p[1:]`
abbrev pub rest_of : String → String
rest_of String.[] = ""
rest_of (String.◌∷◌ c s) = s

-- The pattern and its sign: a leading "!" negates.
abbrev pub negated : String → Bool
negated p = starts_with p "!"

abbrev pub pattern_text : String → String
pattern_text p = if negated p then rest_of p else p

abbrev pub matches_pattern : PathMatch → String → String → Bool
matches_pattern pm ns p = elim (pm (pattern_text p) ns) [ some true ↦ true | _ ↦ false ]

-- The loop of matchNamespace: the last pattern that matches decides.
match_from : PathMatch → String → Bool → List String → Bool
match_from pm ns matched [] = matched
match_from pm ns matched (p ∷ ps) =
    match_from pm ns (if matches_pattern pm ns p then not (negated p) else matched) ps

unfoldable pub match_namespace : PathMatch → String → List String → Bool
unfolding match_from
match_namespace pm ns patterns = match_from pm ns false patterns

-- namespaceAllowed
unfoldable pub namespace_allowed : PathMatch → List String → List String → String → Bool
namespace_allowed pm deny allow ns =
    if not (is_empty deny) && match_namespace pm ns deny
    then false
    else if is_empty allow
    then true
    else match_namespace pm ns allow

abbrev pub none_matches : PathMatch → String → List String → Bool
none_matches pm ns = all (λ p. not (matches_pattern pm ns p))

match_from-none :
    (pm : PathMatch) (ns : String) (b : Bool) (ps : List String)
    → none_matches pm ns ps ≡ true
    → match_from pm ns b ps ≡ b
unfolding match_from
match_from-none pm ns b [] h = refl
match_from-none pm ns b (p ∷ ps) h = ground (arith, match_from-none pm ns b ps)

match_from-last :
    (pm : PathMatch) (ns : String) (b : Bool) (ps : List String) (p : String) (later : List String)
    → matches_pattern pm ns p ≡ true
    → none_matches pm ns later ≡ true
    → match_from pm ns b (ps ++ p ∷ later) ≡ not (negated p)
unfolding match_from
match_from-last pm ns b [] p later hit miss =
    ground (arith, match_from-none pm ns (not (negated p)) later)
match_from-last pm ns b (q ∷ ps) p later hit miss =
    match_from-last pm ns (if matches_pattern pm ns q then not (negated q) else b) ps p later hit
      miss

-- A namespace that some pattern matches, matches a list that is not empty.
pub match_namespace-not_empty :
    (pm : PathMatch) (ns : String) (ps : List String)
    → match_namespace pm ns ps ≡ true
    → is_empty ps ≡ false
unfolding match_namespace match_from
match_namespace-not_empty pm ns [] h = sym h
match_namespace-not_empty pm ns (p ∷ ps) h = refl

-- The last pattern that matches the namespace decides, by its sign: whatever stands before it, and
-- whatever malformed or other pattern that does not match stands behind it.
pub match_namespace-last :
    (pm : PathMatch) (ns : String) (ps : List String) (p : String) (later : List String)
    → matches_pattern pm ns p ≡ true
    → none_matches pm ns later ≡ true
    → match_namespace pm ns (ps ++ p ∷ later) ≡ not (negated p)
unfolding match_namespace
match_namespace-last pm ns ps p later hit miss = match_from-last pm ns false ps p later hit miss

pub match_namespace-none :
    (pm : PathMatch) (ns : String) (ps : List String)
    → none_matches pm ns ps ≡ true
    → match_namespace pm ns ps ≡ false
unfolding match_namespace
match_namespace-none pm ns ps miss = match_from-none pm ns false ps miss

-- Deny wins: a namespace whose last match in the deny list is a plain pattern is refused, whatever
-- the allow list says.
pub namespace_denied :
    (pm : PathMatch) (ns : String) (ps : List String) (p : String) (later allow : List String)
    → matches_pattern pm ns p ≡ true
    → negated p ≡ false
    → none_matches pm ns later ≡ true
    → namespace_allowed pm (ps ++ p ∷ later) allow ns ≡ false
unfolding namespace_allowed
namespace_denied pm ns [] p later allow hit plain_sign miss =
    ground (arith, match_namespace-last pm ns [] p later)
namespace_denied pm ns (q ∷ ps) p later allow hit plain_sign miss =
    ground (arith, match_namespace-last pm ns (q ∷ ps) p later)
