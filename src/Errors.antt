-- ===== src/Errors.antt =====
-- Go's error values as the program builds them, and internal/errors/classification.go.
use tekton_events_relay.Prelude.{
  String, Bool, true, false, ◌||◌, Option, none, some, List, [], ◌∷◌, any, ◌<>◌, ◌==◌,
  if◌then◌else◌, ◌≡◌, refl, ap,
}

-- `plain` is errors.New, or fmt.Errorf with no %w; `wrap` is fmt.Errorf with one %w; `join` is
-- errors.Join, or fmt.Errorf with several; `retryable` is *RetryableError.
mutual
  pub data Err : Type 0 where
    plain : String → Err
    wrap : String → Err → Err
    join : Errs → Err
    retryable : Err → String → Err
    canceled deadline_exceeded : Err

  pub data Errs : Type 0 where
    nil : Errs
    cons : Err → Errs → Errs

-- errors.As walks the tree of wrapped errors, depth first.
unfoldable mutual
  pub is_retryable : Err → Bool
  is_retryable (plain m) = false
  is_retryable (wrap m e) = is_retryable e
  is_retryable (join es) = any_retryable es
  is_retryable (retryable e r) = true
  is_retryable canceled = false
  is_retryable deadline_exceeded = false

  pub any_retryable : Errs → Bool
  any_retryable nil = false
  any_retryable (cons e es) = is_retryable e || any_retryable es

-- The text of `Error()`; errors.Join puts each on a line of its own.
unfoldable mutual
  pub error_text : Err → String
  error_text (plain m) = m
  error_text (wrap m e) = m <> error_text e
  error_text (join es) = errors_text es
  error_text (retryable e reason) =
      (if reason == "" then "retryable error: " else "retryable error (" <> reason <> "): ")
      <> error_text e
  error_text canceled = "context canceled"
  error_text deadline_exceeded = "context deadline exceeded"

  pub errors_text : Errs → String
  errors_text nil = ""
  errors_text (cons e nil) = error_text e
  errors_text (cons e es) = error_text e <> "\n" <> errors_text es

pub to_errs : List Err → Errs
to_errs [] = nil
to_errs (e ∷ es) = cons e (to_errs es)

-- errors.Join of the collected errors: nil when there is none.
unfoldable pub join_all : List Err → Option Err
unfolding to_errs
join_all [] = none
join_all (e ∷ es) = some (join (to_errs (e ∷ es)))

-- The value and error pair of a fallible Go function.
pub data Result {ℓ} (A : Type ℓ) : Type ℓ where
  ok : A → Result A
  err : Err → Result A

abbrev pub is_retryable? : Option Err → Bool
is_retryable? none = false
is_retryable? (some e) = is_retryable e

any_retryable-to_errs : (es : List Err) → any_retryable (to_errs es) ≡ any is_retryable es
unfolding is_retryable any_retryable to_errs
any_retryable-to_errs [] = refl
any_retryable-to_errs (e ∷ es) = ap (λ b. is_retryable e || b) (any_retryable-to_errs es)

-- A joined error is retryable exactly when one of the joined errors is.
pub is_retryable-join_all : (es : List Err) → is_retryable? (join_all es) ≡ any is_retryable es
unfolding join_all is_retryable
is_retryable-join_all [] = refl
is_retryable-join_all (e ∷ es) = any_retryable-to_errs (e ∷ es)
