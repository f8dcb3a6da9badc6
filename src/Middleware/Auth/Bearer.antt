-- ===== src/Middleware/Auth/Bearer.antt =====
-- validateBearer of internal/http/middleware/auth.go against the form of the header that it reads.
use tekton_events_relay.Prelude.{
  String, Bool, true, false, ◌&&◌, Option, none, some, ◌≡◌, refl, ap, sym, ◌∙◌, arith, ◌==◌, ◌<>◌,
  nat_eq, text_at, if◌then◌else◌, eq_iff, Option-cases, Bool-cases, inl, inr,
}
use Prim.Native.Char.{Char, code}
use text.Mathlib.TextLemmas.{nil-append, cons-append}
use text.Mathlib.TextEquality.{Char-path}
use tekton_events_relay.Middleware.{Request}
use tekton_events_relay.Middleware.Auth.{Crypto, split_space, validate_bearer}

abbrev space : Char
space = " "

unfoldable pub has_space : String → Bool
has_space String.[] = false
has_space (String.◌∷◌ c s) = if nat_eq (code c) b' ' then true else has_space s

split_space-append :
    (scheme token : String)
    → has_space scheme ≡ false
    → split_space (scheme <> " " <> token) ≡ some (scheme, token)
unfolding split_space has_space
split_space-append String.[] token h =
    rw (nil-append (" " <> token), cons-append space "" token, nil-append token) refl
split_space-append (String.◌∷◌ c s) token h =
    rw (cons-append c s (" " <> token)) (ground (arith, split_space-append s token))

is_space : (c : Char) → nat_eq (code c) b' ' ≡ true → c ≡ space
is_space c h = Char-path c space (ground arith)

at_space : (s : String) → String.◌∷◌ space s ≡ "" <> " " <> s
at_space s =
    sym (nil-append (" " <> s) ∙ cons-append space "" s ∙ ap (String.◌∷◌ space) (nil-append s))

-- The parts of the text, where it splits.
split_space_joins :
    (s scheme token : String) → split_space s ≡ some (scheme, token) → s ≡ scheme <> " " <> token
unfolding split_space
split_space_joins String.[] scheme token h = absurd (cc)
split_space_joins (String.◌∷◌ c s) scheme token h = elim (Bool-cases (nat_eq (code c) b' ')) [
  | inl e ↦
      let known : ◌≡◌ {A = Option (String × String)} (some ("", s)) (some (scheme, token)) =
        rw e at h in
      let first : "" ≡ scheme = cc in
      let second : s ≡ token = cc in rw (sym first, sym second, is_space c e) (at_space s)
  | inr e ↦ elim (Option-cases (split_space s)) [
    | inl n ↦ absurd (let bad : none ≡ some (scheme, token) = rw (e, n) at h in cc)
    | inr (parts, f) ↦
        let known : ◌≡◌ {A = Option (String × String)} (some (String.◌∷◌ c (parts.0), parts.1))
            (some (scheme, token)) =
          rw (e, f) at h in
        let first : String.◌∷◌ c (parts.0) ≡ scheme = cc in
        let second : parts.1 ≡ token = cc in
        rw (sym first, sym second, cons-append c (parts.0) (" " <> parts.1))
          (ap (String.◌∷◌ c) (split_space_joins s (parts.0) (parts.1) f))
  ]
]

not_empty :
    (c : Crypto) (r : Request) (scheme token expected : String)
    → split_space (text_at r.headers "Authorization") ≡ some (scheme, token)
    → validate_bearer c r expected ≡ (c.equal_fold scheme "Bearer" && token == expected)
unfolding validate_bearer split_space
not_empty c r scheme token expected h =
    elim (Bool-cases (text_at r.headers "Authorization" == "")) [
      | inl e ↦ absurd (
          let empty : text_at r.headers "Authorization" ≡ "" =
            ground (arith, eq_iff (text_at r.headers "Authorization") "") in
          let bad : ◌≡◌ {A = Option (String × String)} none (some (scheme, token)) =
            rw empty at h in
          cc)
      | inr e ↦ rw (e, h) refl
    ]

-- The header is read as a scheme with no space, one space, and a token.
pub validate_bearer-splits :
    (c : Crypto) (r : Request) (scheme token expected : String)
    → text_at r.headers "Authorization" ≡ scheme <> " " <> token
    → has_space scheme ≡ false
    → validate_bearer c r expected ≡ (c.equal_fold scheme "Bearer" && token == expected)
validate_bearer-splits c r scheme token expected h plain =
    not_empty c r scheme token expected (ap split_space h ∙ split_space-append scheme token plain)

refused :
    (c : Crypto) (r : Request) (expected : String)
    → split_space (text_at r.headers "Authorization") ≡ none
    → validate_bearer c r expected ≡ false
unfolding validate_bearer
refused c r expected h = ground (arith, h)

pub validate_bearer_sound :
    (c : Crypto) (r : Request) (expected : String)
    → validate_bearer c r expected ≡ true
    → (scheme : String) × (text_at r.headers "Authorization" ≡ scheme <> " " <> expected)
      × (c.equal_fold scheme "Bearer" ≡ true)
validate_bearer_sound c r expected h =
    elim (Option-cases (split_space (text_at r.headers "Authorization"))) [
      | inl n ↦
          absurd (let no : validate_bearer c r expected ≡ false = refused c r expected n in cc)
      | inr (parts, f) ↦
          let both : (c.equal_fold (parts.0) "Bearer" && parts.1 == expected) ≡ true =
            sym (not_empty c r (parts.0) (parts.1) expected f) ∙ h in
          let same : parts.1 ≡ expected = ground (arith, eq_iff (parts.1) expected) in
          (
            parts.0,
            rw (sym same)
                (split_space_joins (text_at r.headers "Authorization") (parts.0) (parts.1) f),
            ground arith,
          )
    ]
