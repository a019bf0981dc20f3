-- ===== src/Password/Store/Tokens/Evolves.antt =====
-- What may happen to the table auth_tokens between two calls of auth/password/store.go.
use gotchi.Base.{
  ℕ, ℤ, ◌≡◌, refl, Bool, false, Bool-cases, inl, inr, Option, none, some, List, [], ◌∷◌, Text, same,
  any, find?, update_by, remove_by, arith,
}
use gotchi.Errors.{ok}
use gotchi.Database.{Database, AuthToken, TokenType}
use gotchi.Database.Users.{has_user_id}
use gotchi.Database.Passwords.{
  is_usable, is_open_of, consume_at, consumed, insert_auth_token, consume_auth_token,
  invalidate_user_tokens,
}
use gotchi.Password.Store.Tokens.Spent.{Spent}

-- One statement on the tables: it issues a token of another hash, consumes a token or those of a user,
-- deletes tokens, or leaves them alone.
pub data Step (hash : Text) : Database → Database → Type 0 where
  issues :
      {d d' : Database} (t : AuthToken)
      → same t.token_hash hash ≡ false
      → insert_auth_token t d ≡ ok (tt, d')
      → Step hash d d'
  consumes :
      {d d' : Database} (h : Text) (type : TokenType) (time : ℤ) (id : ℕ)
      → consume_auth_token h type time d ≡ ok (id, d')
      → Step hash d d'
  invalidates :
      {d d' : Database} (id : ℕ) (type : TokenType) (time : ℤ)
      → invalidate_user_tokens id type time d ≡ ok (tt, d')
      → Step hash d d'
  -- a clean-up of old rows, as migrations/password advises
  cleans :
      {d d' : Database} (q : AuthToken → Bool) → d'.tokens ≡ remove_by q d.tokens → Step hash d d'
  keeps : {d d' : Database} → d'.tokens ≡ d.tokens → Step hash d d'

-- any number of statements, of any calls, in any order
pub data Evolves (hash : Text) (d : Database) : Database → Type 0 where
  here : Evolves hash d d
  next : {e f : Database} → Evolves hash d e → Step hash e f → Evolves hash d f

module _ (hash : Text) (type : TokenType) (now : ℤ) where
  consumed_unusable :
      (later time : ℤ) (t : AuthToken) → is_usable hash type later (consume_at time t) ≡ false
  consumed_unusable later time t = ground arith

  none_usable :
      (q : AuthToken → Bool) (later time : ℤ) (ts : List AuthToken)
      → find? (is_usable hash type later) ts ≡ none
      → find? (is_usable hash type later) (update_by q (consume_at time) ts) ≡ none
  none_usable q later time [] h = refl
  none_usable q later time (t ∷ ts) h = elim (Bool-cases (is_usable hash type later t)) [
    | inl usable ↦ absurd (let e = rw usable at h in cc)
    | inr idle ↦
        let rest = none_usable q later time ts (rw idle at h) in
        elim (Bool-cases (q t)) [
          | inl hit ↦ rw (hit, consumed_unusable later time t) rest
          | inr miss ↦ rw (miss, idle) rest
        ]
  ]

  none_left :
      (p q : AuthToken → Bool) (ts : List AuthToken)
      → find? p ts ≡ none
      → find? p (remove_by q ts) ≡ none
  none_left p q [] h = refl
  none_left p q (t ∷ ts) h = elim (Bool-cases (p t)) [
    | inl hit ↦ absurd (let e = rw hit at h in cc)
    | inr miss ↦
        let rest = none_left p q ts (rw miss at h) in
        elim (Bool-cases (q t)) [ inl gone ↦ rw gone rest | inr stays ↦ rw (stays, miss) rest ]
  ]

  other_unusable :
      (later : ℤ) (t : AuthToken)
      → same t.token_hash hash ≡ false
      → is_usable hash type later t ≡ false
  other_unusable later t other = rw other refl

  insert-Spent :
      (t : AuthToken) (d d' : Database)
      → same t.token_hash hash ≡ false
      → insert_auth_token t d ≡ ok (tt, d')
      → Spent hash type now d.tokens
      → Spent hash type now d'.tokens
  unfolding insert_auth_token
  insert-Spent t d d' other e spent later h =
      elim (Bool-cases (any (has_user_id t.user_id) d.users)) [
        | inl user ↦
            let tokens : d'.tokens ≡ t ∷ d.tokens = let r = rw user at e in cc in
            rw (tokens, other_unusable later t other) (spent later h)
        | inr stranger ↦ absurd (let r = rw stranger at e in cc)
      ]

  consumed-tokens :
      (d d' : Database) (h : Text) (ty : TokenType) (time : ℤ) (o : Option AuthToken) (id : ℕ)
      → consumed h ty time d o ≡ ok (id, d')
      → d'.tokens ≡ update_by (is_usable h ty time) (consume_at time) d.tokens
  consumed-tokens d d' h ty time none id e = absurd (cc)
  consumed-tokens d d' h ty time (some t) id e = cc

  Step-Spent :
      (d d' : Database)
      → Step hash d d'
      → Spent hash type now d.tokens
      → Spent hash type now d'.tokens
  unfolding consume_auth_token invalidate_user_tokens
  Step-Spent d d' (Step.issues t other e) spent later after =
      insert-Spent t d d' other e spent later after
  Step-Spent d d' (Step.consumes h ty time id e) spent later after =
      let tokens = consumed-tokens d d' h ty time _ id e in
      rw tokens (none_usable (is_usable h ty time) later time d.tokens (spent later after))
  Step-Spent d d' (Step.invalidates id ty time e) spent later after =
      let tokens : d'.tokens ≡ update_by (is_open_of id ty) (consume_at time) d.tokens = cc in
      rw tokens (none_usable (is_open_of id ty) later time d.tokens (spent later after))
  Step-Spent d d' (Step.cleans q e) spent later after =
      rw e (none_left (is_usable hash type later) q d.tokens (spent later after))
  Step-Spent d d' (Step.keeps e) spent later after = rw e (spent later after)

  -- what is spent stays spent
  pub Evolves-Spent :
      (d d' : Database)
      → Evolves hash d d'
      → Spent hash type now d.tokens
      → Spent hash type now d'.tokens
  Evolves-Spent d _ Evolves.here spent = spent
  Evolves-Spent d _ (Evolves.next {e} {f} r s) spent = Step-Spent e f s (Evolves-Spent d e r spent)
