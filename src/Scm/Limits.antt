-- ===== src/Scm/Limits.antt =====
-- limits.go: how long a field may be at each provider.
use Prim.Native.String.{String}
use tekton_events_relay.Prelude.{
  ℕ, zero, suc, ◌-◌, ◌≤◌, ◌<◌, Option, none, some, ◌≡◌, sym, ap, ◌∙◌, arith, ◌==◌, ◌<>◌, Map,
  lookup, ltb, leb, nat_eq, rune_count, rune_count-append, if◌then◌else◌, [], ◌∷◌,
}
use tekton_events_relay.Errors.{Err, plain}

pub record FieldLimits : Type 0 where
  pub status_description : ℕ
  pub status_context : ℕ
  pub comment_body : ℕ
  pub label_name : ℕ

abbrev pub limits_of : ℕ → ℕ → ℕ → ℕ → FieldLimits
limits_of description context body label = record {
  status_description = description;
  status_context = context;
  comment_body = body;
  label_name = label;
}

-- Limits
abbrev pub limits : Map FieldLimits
limits =
    ("github", limits_of 140 255 65000 50)
    ∷ ("gitlab", limits_of 255 0 1000000 255)
    ∷ ("bitbucket-cloud", limits_of 255 255 65000 0)
    ∷ ("bitbucket-server", limits_of 255 255 65000 0)
    ∷ ("azure-devops", limits_of 4000 0 65000 255)
    ∷ ("gitea", limits_of 255 255 65000 50)
    ∷ ("sourcehut", limits_of 0 0 0 0)
    ∷ []

-- `string(runes[:n])`
unfoldable pub first_runes : ℕ → String → String
first_runes n String.[] = ""
first_runes zero (String.◌∷◌ c s) = ""
first_runes (suc n) (String.◌∷◌ c s) = String.◌∷◌ c (first_runes n s)

-- Truncate
unfoldable pub truncate : String → ℕ → String
unfolding first_runes
truncate s limit =
    if nat_eq limit 0
    then s
    else if leb (rune_count s) limit
    then s
    else if ltb limit 3
    then first_runes limit s
    else first_runes (limit - 3) s <> "..."

abbrev pub limit_of : FieldLimits → String → Option ℕ
limit_of l field =
    if field == "status_description"
    then some l.status_description
    else if field == "status_context"
    then some l.status_context
    else if field == "comment_body"
    then some l.comment_body
    else if field == "label_name"
    then some l.label_name
    else none

abbrev pub provider_limit : String → String → Option FieldLimits → Option ℕ
provider_limit provider field none = none
provider_limit provider field (some l) = limit_of l field

-- The error of Validate, without the numbers in its text.
abbrev pub too_long : String → String → Err
too_long provider field = plain ("field " <> field <> " exceeds " <> provider <> " limit")

abbrev pub over_limit : String → String → String → Option ℕ → Option Err
over_limit provider field value none = none
over_limit provider field value (some limit) =
    if nat_eq limit 0
    then none
    else if ltb limit (rune_count value)
    then some (too_long provider field)
    else none

-- Validate
unfoldable pub validate : String → String → String → Option Err
validate provider field value =
    over_limit provider field value (provider_limit provider field (lookup provider limits))

rune_count-first_runes : (n : ℕ) (s : String) → rune_count (first_runes n s) ≤ n
unfolding first_runes rune_count
rune_count-first_runes n String.[] = ground arith
rune_count-first_runes zero (String.◌∷◌ c s) = ground arith
rune_count-first_runes (suc n) (String.◌∷◌ c s) = ground (arith, rune_count-first_runes n s)

rune_count-truncate : (s : String) (limit : ℕ) → 0 < limit → rune_count (truncate s limit) ≤ limit
unfolding truncate rune_count
rune_count-truncate s limit h = ground (
  arith,
  rune_count-first_runes limit s,
  rune_count-first_runes (limit - 3) s,
  rune_count-append (first_runes (limit - 3) s) "...",
)

over_limit-truncate :
    (provider field value : String) (limit : ℕ)
    → over_limit provider field (truncate value limit) (some limit) ≡ none
over_limit-truncate provider field value limit = ground (arith, rune_count-truncate value limit)

over_limit-same :
    (provider field value : String) (limit : ℕ)
    → over_limit provider field value (some limit) ≡ none
    → truncate value limit ≡ value
unfolding truncate
over_limit-same provider field value limit h = ground arith

limit_held :
    (provider field value : String) (limit : ℕ)
    → provider_limit provider field (lookup provider limits) ≡ some limit
    → validate provider field value ≡ none
    → over_limit provider field value (some limit) ≡ none
unfolding validate
limit_held provider field value limit h ok = sym (ap (over_limit provider field value) h) ∙ ok

-- Truncating a value to the limit that its provider has for the field makes it pass Validate.
pub validate-truncate :
    (provider field value : String) (limit : ℕ)
    → provider_limit provider field (lookup provider limits) ≡ some limit
    → validate provider field (truncate value limit) ≡ none
unfolding validate
validate-truncate provider field value limit h =
    rw h (over_limit-truncate provider field value limit)

-- A value that passes Validate is not changed by Truncate to its provider's limit.
pub truncate_valid :
    (provider field value : String) (limit : ℕ)
    → provider_limit provider field (lookup provider limits) ≡ some limit
    → validate provider field value ≡ none
    → truncate value limit ≡ value
truncate_valid provider field value limit h ok =
    over_limit-same provider field value limit (limit_held provider field value limit h ok)
