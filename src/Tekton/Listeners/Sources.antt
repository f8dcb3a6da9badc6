-- ===== src/Tekton/Listeners/Sources.antt =====
-- Where the name of an event listener comes from.
use Prim.Native.String.{String}
use Prim.Native.Char.{code}
use text.Mathlib.TextLemmas.{nil-append, cons-append}
use tekton_events_relay.Prelude.{
  Bool, true, false, some, [], ◌≡◌, refl, arith, ◌==◌, ◌<>◌, nat_eq, if◌then◌else◌, ap, Bool-cases,
  inl, inr,
}
use tekton_events_relay.Tekton.Listeners.{split_path, last_named, extract_last_path_segment}

-- No slash stands in a text.
pub has_no_slash : String → Bool
has_no_slash String.[] = true
has_no_slash (String.◌∷◌ c s) =
    let rest = has_no_slash s in if nat_eq (code c) 47 then false else rest

split_path-no_slash : (n : String) → has_no_slash n ≡ true → split_path n ≡ (n, [])
unfolding split_path has_no_slash
split_path-no_slash String.[] h = refl
split_path-no_slash (String.◌∷◌ c s) h = elim (Bool-cases (nat_eq (code c) 47)) [
  | inl slash ↦ ground (arith, slash)
  | inr other ↦
      rw other (ap (λ p. (String.◌∷◌ c p.0, p.1)) (split_path-no_slash s (ground (arith, other))))
]

last_named-split_path :
    (a n : String)
    → has_no_slash n ≡ true
    → (n == "") ≡ false
    → last_named (split_path (a <> ("/" <> n))).1 ≡ some n
unfolding split_path last_named
last_named-split_path String.[] n h named = rw (nil-append ("/" <> n)) (
    rw (cons-append "/" "" n)
      (rw (nil-append n) (rw (split_path-no_slash n h) (ground (arith, named)))))
last_named-split_path (String.◌∷◌ c s) n h named =
    rw (cons-append c s ("/" <> n)) (ground (arith, last_named-split_path s n h named))

-- The name of a listener that sends its started event from a URL is what stands behind the URL's
-- last slash, if that is not empty.
pub extract_last_path_segment_lem :
    (a n : String)
    → has_no_slash n ≡ true
    → (n == "") ≡ false
    → extract_last_path_segment (a <> ("/" <> n)) ≡ n
unfolding extract_last_path_segment last_named
extract_last_path_segment_lem a n h named = rw (last_named-split_path a n h named) refl
