-- ===== src/Password/Policy.antt =====
-- auth/password/policy.go and lockout.go.
use gotchi.Base.{
  ℕ, pos, ltb_ℤ, leb_ℤ, Bool, true, false, ◌&&◌, if◌then◌else◌, List, [], ◌∷◌, length, Text,
  is_empty,
}
use gotchi.Errors.{
  password_policy_violation, Detail, at_least, at_most, detail, Error, password_error, Result, ok,
  err,
}
use gotchi.Strings.{to_lower, contains, has_control}
use gotchi.Password.Config.{PasswordPolicy, LockoutConfig}

unfoldable pub is_locked_out : ℕ → LockoutConfig → Bool
is_locked_out failed cfg = leb_ℤ cfg.max_attempts (pos failed)

abbrev pub violation : Detail → Error
violation d = password_error password_policy_violation 400 d

module _ (unicode_lower : Text → Text) where
  -- the loop over the context words
  unfoldable pub mentions : Text → List Text → Bool
  mentions lower_password [] = false
  mentions lower_password (word ∷ words) =
      if is_empty word
      then mentions lower_password words
      else if contains lower_password (to_lower unicode_lower word)
      then true
      else mentions lower_password words

  unfoldable pub validate : PasswordPolicy → Text → List Text → Result (Unit {0})
  validate p password words =
      if ltb_ℤ (pos (length password)) p.min_length
      then err (violation (at_least p.min_length))
      else if ltb_ℤ p.max_length (pos (length password))
      then err (violation (at_most p.max_length))
      else if p.reject_contextual && mentions (to_lower unicode_lower password) words
      then err (violation (detail "password must not contain your email or username"))
      else if has_control password
      then err (violation (detail "password must not contain control characters"))
      else ok tt
