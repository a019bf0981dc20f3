-- ===== src/Password/Store/Tokens/Spent.antt =====
-- Tokens that are spent: no row of the tables answers to the hash any more.
use gotchi.Base.{
  ap, ℕ, ℤ, pos, negsuc, ltb_ℤ, leb_ℤ, ◌≡◌, ◌≢◌, refl, true, false, Bool-cases, inl, inr, Option,
  none, some, List, [], ◌∷◌, Text, find?, update_by, arith,
}
use gotchi.Errors.{no_rows, pg_error, plain, wrap, password_error, Result, ok, err}
use gotchi.Database.{Database, AuthToken, TokenType}
use gotchi.Database.Passwords.{is_usable, consume_at, consumed, consume_auth_token}
use gotchi.Database.Connection.{
  Connection, finish, spend, unchanged, exec, query, count_hashing, ◌>>=◌,
}
use gotchi.Database.Connection.Runs.{exec_cases}
use gotchi.Database.Connection.Keeps.{Keeps, keeps_rules}
use gotchi.Password.Store.{Hasher, hash_password}

-- from `now` on, no row answers to the hash
abbrev pub Spent : Text → TokenType → ℤ → List AuthToken → Type 0
Spent hash type now ts =
    (later : ℤ) → leb_ℤ now later ≡ true → find? (is_usable hash type later) ts ≡ none

ltb_ℤ_later :
    (now later e : ℤ) → leb_ℤ now later ≡ true → ltb_ℤ now e ≡ false → ltb_ℤ later e ≡ false
ltb_ℤ_later (pos a) (pos b) (pos c) h k = ground arith
ltb_ℤ_later (pos a) (pos b) (negsuc c) h k = ground arith
ltb_ℤ_later (pos a) (negsuc b) (pos c) h k = ground arith
ltb_ℤ_later (pos a) (negsuc b) (negsuc c) h k = ground arith
ltb_ℤ_later (negsuc a) (pos b) (pos c) h k = ground arith
ltb_ℤ_later (negsuc a) (pos b) (negsuc c) h k = ground arith
ltb_ℤ_later (negsuc a) (negsuc b) (pos c) h k = ground arith
ltb_ℤ_later (negsuc a) (negsuc b) (negsuc c) h k = ground arith

module _ (hash : Text) (type : TokenType) (now : ℤ) where
  usable_later :
      (later : ℤ) (t : AuthToken)
      → leb_ℤ now later ≡ true
      → is_usable hash type now t ≡ false
      → is_usable hash type later t ≡ false
  usable_later later t h k = ground (arith, ltb_ℤ_later now later t.expires_at h)

  consumed_unusable :
      (later : ℤ) (t : AuthToken) → is_usable hash type later (consume_at now t) ≡ false
  consumed_unusable later t = ground arith

  Spent-update_by :
      (ts : List AuthToken)
      → Spent hash type now (update_by (is_usable hash type now) (consume_at now) ts)
  Spent-update_by [] later h = refl
  Spent-update_by (t ∷ ts) later h = elim (Bool-cases (is_usable hash type now t)) [
    | inl usable ↦ rw (usable, consumed_unusable later t) (Spent-update_by ts later h)
    | inr idle ↦ rw (idle, usable_later later t h idle) (Spent-update_by ts later h)
  ]

  -- a connection on whose tables no row answers to the hash any more
  abbrev pub SpentOn : Connection → Type 0
  SpentOn c = Spent hash type now c.tables.tokens

  module _ {ℓ} {A : Type ℓ} where
    finish_tokens :
        (r : Result (A × Database)) (c : Connection) (ts : List AuthToken)
        → ((a : A) (d : Database) → r ≡ ok (a, d) → d.tokens ≡ ts)
        → c.tables.tokens ≡ ts
        → (finish r c).1.tables.tokens ≡ ts
    finish_tokens (ok (a, d)) c ts new old = new a d refl
    finish_tokens (err no_rows) c ts new old = old
    finish_tokens (err (pg_error code)) c ts new old = old
    finish_tokens (err (plain text)) c ts new old = old
    finish_tokens (err (wrap text e)) c ts new old = old
    finish_tokens (err (password_error n status d)) c ts new old = old

    exec_tokens :
        (q : Database → Result (A × Database)) (c : Connection)
        → ((a : A) (d : Database) → q c.tables ≡ ok (a, d) → d.tokens ≡ c.tables.tokens)
        → (exec q c).1.tables.tokens ≡ c.tables.tokens
    exec_tokens q c keeps = elim (exec_cases q c) [
      | inl (e, c', internal, same_tables, stopped) ↦ rw (stopped, same_tables)
      | inr runs ↦ rw runs (finish_tokens (q c.tables) (spend c) c.tables.tokens keeps refl)
    ]

    pub exec-Spent :
        (q : Database → Result (A × Database))
        → ((c : Database) (a : A) (d : Database) → q c ≡ ok (a, d) → d.tokens ≡ c.tokens)
        → Keeps SpentOn (exec q)
    exec-Spent q keeps = record {
      at = λ c h later g. rw (exec_tokens q c (keeps c.tables)) (h later g);
    }

    unchanged_tokens :
        (r : Result A) (c : Database) (a : A) (d : Database)
        → unchanged c r ≡ ok (a, d)
        → d.tokens ≡ c.tokens
    unchanged_tokens (ok b) c a d e = cc
    unchanged_tokens (err f) c a d e = absurd (cc)

    pub query-Spent : (q : Database → Result A) → Keeps SpentOn (query q)
    query-Spent q = exec-Spent (λ d. unchanged d (q d)) (λ c. unchanged_tokens (q c) c)

  pub hash_password-Spent :
      (h : Hasher) (salt : Option Text) (password : Text)
      → Keeps SpentOn (hash_password h salt password)
  unfolding hash_password count_hashing ◌>>=◌
  hash_password-Spent h none password = search keeps_rules
  hash_password-Spent h (some salt) password = record { at = λ c k. k }

  consumed-Spent :
      (d : Database) (o : Option AuthToken) (c : Connection) (id : ℕ)
      → (finish (consumed hash type now d o) c).0 ≡ ok id
      → Spent hash type now (update_by (is_usable hash type now) (consume_at now) d.tokens)
      → SpentOn (finish (consumed hash type now d o) c).1
  consumed-Spent d none c id e h = absurd (cc)
  consumed-Spent d (some t) c id e h = h

  pub consume-Spent :
      (c : Connection) (id : ℕ)
      → (exec (consume_auth_token hash type now) c).0 ≡ ok id
      → SpentOn (exec (consume_auth_token hash type now) c).1
  unfolding consume_auth_token
  consume-Spent c id e = elim (exec_cases (consume_auth_token hash type now) c) [
    | inl (f, c', internal, same_tables, stopped) ↦ absurd (let r = ap (λ x. x.0) stopped in cc)
    | inr runs ↦
        rw runs
          (consumed-Spent c.tables _ (spend c) id (rw runs at e) (Spent-update_by c.tables.tokens))
  ]

  -- what is spent is not consumed again
  pub Spent-consume :
      (c : Connection) (id : ℕ)
      → leb_ℤ now c.clock ≡ true
      → SpentOn c
      → (exec (consume_auth_token hash type c.clock) c).0 ≢ ok id
  unfolding consume_auth_token
  Spent-consume c id after spent e = elim (exec_cases (consume_auth_token hash type c.clock) c) [
    | inl (f, c', internal, same_tables, stopped) ↦ (let r = ap (λ x. x.0) stopped in cc)
    | inr runs ↦ (let nothing = spent c.clock after in let r = rw (runs, nothing) at e in cc)
  ]
