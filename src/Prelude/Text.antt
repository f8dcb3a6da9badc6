-- ===== src/Prelude/Text.antt =====
-- What the program uses of Go's packages strings and strconv, on native texts.
use Prim.Native.String.{String, ◌++◌}
use native.Mathlib.Omega.{arith}
use text.Mathlib.TextLemmas.{nil-append, cons-append}
use Prim.Native.Nat.{ℕ, zero, suc, ◌<◌, ◌+◌, ◌-◌, ◌*◌, ◌^◌}
use Prim.Native.Char.{code}
use mathlib.Core.Path.{◌≡◌, refl}
use mathlib.Core.Bool.{Bool, ◌||◌, ◌&&◌}
use mathlib.Core.Option.{Option, none, some}
use tekton_events_relay.Prelude.Tests.{◌==◌, nat_eq, leb, if◌then◌else◌}

-- `+` on texts.
infixr 66 ◌<>◌
abbrev pub ◌<>◌ : String → String → String
s <> t = s ++ t

-- strings.HasSuffix
unfoldable pub ends_with : String → String → Bool
ends_with String.[] suffix = "" == suffix
ends_with (String.◌∷◌ c s) suffix = (String.◌∷◌ c s) == suffix || ends_with s suffix

-- Go's int; `negsuc n` is -(n + 1).
pub data ℤ : Type 0 where
  pos : ℕ → ℤ
  negsuc : ℕ → ℤ

-- `if v <= 0 { v = d }`, for a default that is positive.
abbrev pub positive_or : ℤ → ℕ → ℕ
positive_or (pos zero) d = d
positive_or (pos (suc n)) d = suc n
positive_or (negsuc n) d = d

pub positive_or-pos : (z : ℤ) (d : ℕ) → 0 < d → 0 < positive_or z d
positive_or-pos (pos zero) d h = h
positive_or-pos (pos (suc n)) d h = omega arith
positive_or-pos (negsuc n) d h = h

-- The value of a run of decimal digits, read after `n`; `none` at any other character.
decimal : ℕ → String → Option ℕ
decimal n String.[] = some n
decimal n (String.◌∷◌ c s) =
    let d = code c in
    let rest = decimal (n * 10 + (d - 48)) s in if leb 48 d && leb d 57 then rest else none

-- At least one digit, as strconv wants.
magnitude : String → Option ℕ
unfolding decimal
magnitude String.[] = none
magnitude (String.◌∷◌ c s) = decimal 0 (String.◌∷◌ c s)

abbrev non_negative : Option ℕ → Option ℤ
non_negative none = none
non_negative (some n) = if leb (n + 1) (2 ^ 63) then some (pos n) else none

abbrev negative : Option ℕ → Option ℤ
negative none = none
negative (some n) =
    if nat_eq n 0 then some (pos 0) else if leb n (2 ^ 63) then some (negsuc (n - 1)) else none

-- strconv.Atoi on 64-bit int: `none` is its error.
unfoldable pub atoi : String → Option ℤ
unfolding magnitude
atoi String.[] = none
atoi (String.◌∷◌ c s) =
    if nat_eq (code c) b'+'
    then non_negative (magnitude s)
    else if nat_eq (code c) b'-'
    then negative (magnitude s)
    else non_negative (magnitude (String.◌∷◌ c s))

-- utf8.RuneCountInString
unfoldable pub rune_count : String → ℕ
rune_count String.[] = 0
rune_count (String.◌∷◌ c s) = suc (rune_count s)

pub rune_count-append : (s t : String) → rune_count (s <> t) ≡ rune_count s + rune_count t
unfolding rune_count
rune_count-append String.[] t = rw (nil-append t) (ground arith)
rune_count-append (String.◌∷◌ c s) t =
    rw (cons-append c s t) (ground (arith, rune_count-append s t))

ends_with_runs : ends_with "dev.tekton.event.taskrun.unknown.v1" ".unknown.v1" ≡ Bool.true
unfolding ends_with
ends_with_runs = refl

atoi_runs : atoi "-17" ≡ some (negsuc 16)
unfolding atoi
atoi_runs = refl

atoi_refuses : atoi "12x" ≡ none
unfolding atoi
atoi_refuses = refl
