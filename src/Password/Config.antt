-- ===== src/Password/Config.antt =====
-- auth/password/config.go. An `int` and a `time.Duration` (in nanoseconds) are integers, an
-- unsigned number is a ℕ; the length of a token is a ℕ, since a negative one panics.
use gotchi.Base.{ℕ, ℤ, pos, is_zero, Bool, ◌==◌, if◌then◌else◌, Option, Text, codes, is_empty}
use gotchi.Errors.{Result}

pub record HashingConfig : Type 0 where
  pub memory : ℕ
  pub iterations : ℕ
  pub parallelism : ℕ
  pub salt_length : ℕ
  pub key_length : ℕ

pub record LockoutConfig : Type 0 where
  pub max_attempts : ℤ
  pub window : ℤ

pub record TokenConfig : Type 0 where
  pub reset_token_expiry : ℤ
  pub verification_token_expiry : ℤ
  pub token_length : ℕ

pub record PasswordPolicy : Type 0 where
  pub min_length : ℤ
  pub max_length : ℤ
  pub reject_contextual : Bool

-- The sender is not this program's: what each send returns.
pub record EmailSender : Type 0 where
  pub send_password_reset : Text → Text → Result (Unit {0})
  pub send_email_verification : Text → Text → Result (Unit {0})
  pub send_password_changed : Text → Result (Unit {0})

pub record PasswordConfig : Type 0 where
  pub path_prefix : Text
  pub issuer : Text
  pub session_key : Text
  pub require_email_verification : Bool
  pub default_tenant_name : Text
  pub hashing : HashingConfig
  pub policy : PasswordPolicy
  pub lockout : LockoutConfig
  pub tokens : TokenConfig
  pub email_sender : Option EmailSender

abbrev pub or_default : Text → Text → Text
or_default s d = if is_empty s then d else s

abbrev pub or_number : ℕ → ℕ → ℕ
or_number n d = if n == 0 then d else n

abbrev pub or_integer : ℤ → ℕ → ℤ
or_integer z d = if is_zero z then pos d else z

unfoldable pub hashing_with_defaults : HashingConfig → HashingConfig
hashing_with_defaults c = record {
  memory = or_number c.memory 19456;
  iterations = or_number c.iterations 2;
  parallelism = or_number c.parallelism 1;
  salt_length = or_number c.salt_length 16;
  key_length = or_number c.key_length 32;
}

unfoldable pub lockout_with_defaults : LockoutConfig → LockoutConfig
lockout_with_defaults c = record {
  max_attempts = or_integer c.max_attempts 5;
  window = or_integer c.window 900_000_000_000;
}

unfoldable pub tokens_with_defaults : TokenConfig → TokenConfig
tokens_with_defaults c = record {
  reset_token_expiry = or_integer c.reset_token_expiry 3_600_000_000_000;
  verification_token_expiry = or_integer c.verification_token_expiry 86_400_000_000_000;
  token_length = or_number c.token_length 32;
}

unfoldable pub policy_with_defaults : PasswordPolicy → PasswordPolicy
policy_with_defaults c = record c {
  min_length = or_integer c.min_length 8;
  max_length = or_integer c.max_length 128;
}

unfoldable pub with_defaults : PasswordConfig → PasswordConfig
unfolding hashing_with_defaults lockout_with_defaults tokens_with_defaults policy_with_defaults
with_defaults c = record c {
  path_prefix = or_default c.path_prefix (codes "/auth/password");
  issuer = or_default c.issuer (codes "local");
  session_key = or_default c.session_key (codes "auth");
  default_tenant_name = or_default c.default_tenant_name (codes "Default");
  hashing = hashing_with_defaults c.hashing;
  lockout = lockout_with_defaults c.lockout;
  tokens = tokens_with_defaults c.tokens;
  policy = policy_with_defaults c.policy;
}
