-- ===== src/Password/Fixture.antt =====
-- A small store, tables and draws, on which the theorems are tried.
use gotchi.Base.{pos, true, false, none, some, [], ◌∷◌, ◌++◌, codes, same}
use gotchi.Errors.{ok}
use gotchi.Database.{User, Database, member}
use gotchi.Password.Config.{PasswordConfig}
use gotchi.Password.Store.{Hasher, Services, PasswordIdentityStore, Draws}

-- a hash that is the salt before the password; the salt of the stored one is "s"
abbrev pub toy_hasher : Hasher
toy_hasher = record {
  hash = λ salt password. salt ++ password;
  verify = λ password encoded. ok (same encoded (codes "s" ++ password), false);
}

abbrev pub toy_services : Services
toy_services = record {
  sha256_sum = λ t. 1 ∷ t;
  parse_addr = λ t. some t;
  unicode_lower = λ t. t;
  encode_url = λ t. t;
}

abbrev pub config : PasswordConfig
config = record {
  path_prefix = codes "/auth/password";
  issuer = codes "local";
  session_key = codes "auth";
  require_email_verification = false;
  default_tenant_name = codes "Default";
  hashing = record {
    memory = 19456;
    iterations = 2;
    parallelism = 1;
    salt_length = 16;
    key_length = 32;
  };
  policy = record { min_length = pos 3; max_length = pos 128; reject_contextual = true };
  lockout = record { max_attempts = pos 2; window = pos 900 };
  tokens = record {
    reset_token_expiry = pos 3600;
    verification_token_expiry = pos 86400;
    token_length = 32;
  };
  email_sender = none;
}

abbrev pub toy_store : PasswordIdentityStore
toy_store = record {
  inner = record { has_pool = true; default_tenant_name = codes "Default" };
  hasher = toy_hasher;
  services = toy_services;
  cfg = config;
}

abbrev pub toy_draws : Draws
toy_draws = record {
  ids = record { user_v7 = some 41; user_v4 = 42; tenant_v7 = none; tenant_v4 = 43 };
  salt = some (codes "s");
  dummy_salt = some (codes "d");
  token = some (codes "tok");
}

abbrev pub ann : User
ann = record {
  id = 7;
  email = codes "ann@x";
  email_verified = true;
  username = none;
  name = none;
  issuer = codes "local";
  identifier_subject = codes "ann@x";
  last_login_at = none;
}

-- one user, with the password "pw"
abbrev pub tables : Database
tables = record {
  users = ann ∷ [];
  tenants = record { tenant_id = 5; name = codes "Default" } ∷ [];
  memberships = record { user_id = 7; tenant_id = 5; role = member } ∷ [];
  credentials =
      record { user_id = 7; password_hash = codes "spw"; hash_algorithm = codes "argon2id" } ∷ [];
  attempts = [];
  tokens = [];
}
