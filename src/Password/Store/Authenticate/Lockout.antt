-- ===== src/Password/Store/Authenticate/Lockout.antt =====
-- Lockout and enumeration, as consequences of the reference.
use gotchi.Base.{
  ℕ, zero, suc, Bool-cases, inl, inr, ◌+◌, ℤ, pos, ◌-ℤ◌, ltb_ℤ, leb_ℤ, ◌≡◌, refl, Bool, true, false,
  Option, none, some, Text, find?, ==_self, arith,
}
use gotchi.Errors.{err}
use gotchi.Database.{Database, User}
use gotchi.Database.Passwords.{is_credential_of, has_email}
use gotchi.Database.Connection.Calm.{idle}
use gotchi.Password.Policy.{is_locked_out}
use gotchi.Password.Store.{PasswordIdentityStore, Draws}
use gotchi.Password.Store.Authenticate.{bad_credentials, locked, authenticate}
use gotchi.Password.Store.Authenticate.Reference.{
  with_attempt, failures, verdict, mismatch, accepted, authenticate-eq-login, after_accept, blocked,
  renewed,
}

module _ (s : PasswordIdentityStore) (draws : Draws) where
  -- The same user tries again and again with one password, at one instant.
  unfoldable pub insist : ℕ → Text → Text → Text → Database → ℤ → ℕ → Database
  insist zero email password ip d now n = d
  insist (suc k) email password ip d now n =
      insist k email password ip (authenticate s draws email password ip (idle d now n)).1.tables
        now n

  failures-with_attempt :
      (user : User) (ip : Text) (now : ℤ) (d : Database)
      → ltb_ℤ (now -ℤ s.cfg.lockout.window) now ≡ true
      → failures s draws user now (with_attempt s draws user ip now false d)
        ≡ suc (failures s draws user now d)
  failures-with_attempt user ip now d h = rw (==_self user.id, h) (omega arith)

  -- A wrong password, tried `k` times, leaves `k` more failures, or the account locked before.
  pub record Guessing (email password : Text) (user : User) (d : Database) : Type 0 where
    pub found : find? (has_email email s.cfg.issuer) d.users ≡ some user
    pub wrong : verdict s draws user password d ≡ mismatch

  module _ (email password ip : Text) (user : User) (now : ℤ) (n : ℕ)
      (window : ltb_ℤ (now -ℤ s.cfg.lockout.window) now ≡ true) where
    guess :
        (d : Database)
        → Guessing email password user d
        → is_locked_out (failures s draws user now d) s.cfg.lockout ≡ false
        → (authenticate s draws email password ip (idle d now n)).1.tables
          ≡ with_attempt s draws user ip now false d
    guess d g free =
        rw (authenticate-eq-login s draws email password ip d now n, g.found, free, g.wrong)

    stays :
        (d : Database)
        → Guessing email password user d
        → is_locked_out (failures s draws user now d) s.cfg.lockout ≡ true
        → (authenticate s draws email password ip (idle d now n)).1.tables ≡ d
    stays d g full = rw (authenticate-eq-login s draws email password ip d now n, g.found, full)

    insist_locked :
        (k : ℕ) (d : Database)
        → Guessing email password user d
        → is_locked_out (failures s draws user now d) s.cfg.lockout ≡ true
        → insist k email password ip d now n ≡ d
    unfolding insist
    insist_locked zero d g full = refl
    insist_locked (suc k) d g full = rw (stays d g full) (insist_locked k d g full)

    insist_guess :
        (k : ℕ) (d : Database)
        → Guessing email password user d
        → is_locked_out (failures s draws user now d) s.cfg.lockout ≡ false
        → insist (suc k) email password ip d now n
          ≡ insist k email password ip (with_attempt s draws user ip now false d) now n
    unfolding insist
    insist_guess k d g free = rw (guess d g free)

    insist-Guessing :
        (k : ℕ) (d : Database)
        → Guessing email password user d
        → Guessing email password user (insist k email password ip d now n)
    unfolding insist
    insist-Guessing zero d g = g
    insist-Guessing (suc k) d g =
        elim (Bool-cases (is_locked_out (failures s draws user now d) s.cfg.lockout)) [
          | inl full ↦ rw (insist_locked (suc k) d g full) g
          | inr free ↦ rw (insist_guess k d g free) (
              insist-Guessing k (with_attempt s draws user ip now false d)
                (record { found = g.found; wrong = g.wrong }))
        ]

    insist-failures :
        (k : ℕ) (d : Database)
        → Guessing email password user d
        → leb_ℤ s.cfg.lockout.max_attempts (pos (failures s draws user now d + k)) ≡ true
        → is_locked_out
            (failures s draws user now (insist k email password ip d now n))
            s.cfg.lockout
          ≡ true
    insist-failures zero d g h = unfold is_locked_out insist in ground arith
    insist-failures (suc k) d g h =
        elim (Bool-cases (is_locked_out (failures s draws user now d) s.cfg.lockout)) [
          | inl full ↦ rw (insist_locked (suc k) d g full) full
          | inr free ↦ rw (insist_guess k d g free) (
              insist-failures k (with_attempt s draws user ip now false d)
                (record { found = g.found; wrong = g.wrong })
                (rw (failures-with_attempt user ip now d window) (ground arith)))
        ]

  -- On connections on which no statement fails, with all attempts and the further login at one instant
  -- of the clock and a window that is not empty: if a user whose stored hash refuses `password` has,
  -- with the failures already in the window, as many wrong attempts as `MaxAttempts` wants, then the
  -- account is locked. The further login, also with the right password and from elsewhere, is
  -- answered with ErrAccountLocked and changes no table.
  pub lockout_after_guesses :
      (email password ip right elsewhere : Text) (user : User) (d : Database) (now : ℤ) (n k : ℕ)
      → ltb_ℤ (now -ℤ s.cfg.lockout.window) now ≡ true
      → Guessing email password user d
      → leb_ℤ s.cfg.lockout.max_attempts (pos (failures s draws user now d + k)) ≡ true
      → let d' = insist k email password ip d now n in
        ((authenticate s draws email right elsewhere (idle d' now n)).0 ≡ err locked)
        × ((authenticate s draws email right elsewhere (idle d' now n)).1.tables ≡ d')
  lockout_after_guesses email password ip right elsewhere user d now n k window g enough =
      let d' = insist k email password ip d now n in
      let g' = insist-Guessing email password ip user now n window k d g in
      let full = insist-failures email password ip user now n window k d g enough in
      rw (authenticate-eq-login s draws email right elsewhere d' now n, g'.found, full) (refl, refl)

  renewed_attempts :
      (user : User) (password : Text) (b : Bool) (salt : Option Text) (d : Database)
      → (renewed s draws user password b salt d).attempts ≡ d.attempts
  renewed_attempts user password true (some salt) d = refl
  renewed_attempts user password true none d = refl
  renewed_attempts user password false salt d = refl

  after_accept_attempts :
      (user : User) (password ip : Text) (b : Bool) (now : ℤ) (d : Database)
      → (after_accept s draws user password ip b now d).attempts
        ≡ (with_attempt s draws user ip now true d).attempts
  after_accept_attempts user password ip b now d = elim (Bool-cases (blocked s draws user)) [
    | inl stop ↦ rw stop
    | inr free ↦ rw free (renewed_attempts user password b draws.salt _)
  ]

  success_count :
      (user other : User) (ip : Text) (now later : ℤ) (d : Database)
      → failures s draws other later (with_attempt s draws user ip now true d)
        ≡ failures s draws other later d
  success_count user other ip now later d = ground arith

  -- A login whose password is right, also one held back for an unverified address, takes no failure
  -- out of the window: whoever's failures are counted afterwards, and at whatever time, their number
  -- is that from before.
  pub success_resets_nothing :
      (email password ip : Text) (user other : User) (b : Bool) (d : Database) (now later : ℤ)
      (n : ℕ)
      → find? (has_email email s.cfg.issuer) d.users ≡ some user
      → verdict s draws user password d ≡ accepted b
      → is_locked_out (failures s draws user now d) s.cfg.lockout ≡ false
      → failures s draws other later
          (authenticate s draws email password ip (idle d now n)).1.tables
        ≡ failures s draws other later d
  success_resets_nothing email password ip user other b d now later n found right free =
      rw (authenticate-eq-login s draws email password ip d now n, found, free, right)
        (rw (after_accept_attempts user password ip b now d)
          (success_count user other ip now later d))

  -- Where no statement fails, the salt of the dummy hash can be drawn, the account is not locked and
  -- its stored hash refuses the password, an address that is unknown and this wrong password cannot
  -- be told apart: the same answer, after one hashing each.
  pub unknown_like_wrong :
      (email unknown password ip salt : Text) (user : User) (d : Database) (now : ℤ) (n : ℕ)
      → draws.dummy_salt ≡ some salt
      → find? (has_email unknown s.cfg.issuer) d.users ≡ none
      → Guessing email password user d
      → is_locked_out (failures s draws user now d) s.cfg.lockout ≡ false
      → ((authenticate s draws unknown password ip (idle d now n)).0
          ≡ (authenticate s draws email password ip (idle d now n)).0)
        × ((authenticate s draws unknown password ip (idle d now n)).1.hashings ≡ n + 1)
        × ((authenticate s draws email password ip (idle d now n)).1.hashings ≡ n + 1)
  unknown_like_wrong email unknown password ip salt user d now n drawn missing g free =
      rw
        (
          authenticate-eq-login s draws unknown password ip d now n,
          authenticate-eq-login s draws email password ip d now n,
          missing,
          g.found,
          free,
          g.wrong,
          drawn,
        )
        (refl, refl, refl)

  -- A user who exists without a password credential is told apart from both: the answer is the
  -- same, and it takes no hashing at all.
  pub no_credential_takes_no_hashing :
      (email password ip : Text) (user : User) (d : Database) (now : ℤ) (n : ℕ)
      → find? (has_email email s.cfg.issuer) d.users ≡ some user
      → find? (is_credential_of user.id) d.credentials ≡ none
      → is_locked_out (failures s draws user now d) s.cfg.lockout ≡ false
      → ((authenticate s draws email password ip (idle d now n)).0 ≡ err bad_credentials)
        × ((authenticate s draws email password ip (idle d now n)).1.hashings ≡ n)
  no_credential_takes_no_hashing email password ip user d now n found none' free =
      rw (authenticate-eq-login s draws email password ip d now n, found, free, none') (refl, refl)
