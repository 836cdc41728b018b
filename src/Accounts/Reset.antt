-- ===== src/Accounts/Reset.antt =====
-- Resetting a forgotten password.
use shadow_trust_security.Prelude.{
  ℕ, ◌+◌, ◌*◌, ◌≤◌, ◌≡◌, refl, sym, ap, ◌∙◌, subst, String, Bool, true, false, none, some, List, [],
  ◌∷◌, arith, eq_refl, Bool-cases, inl, inr, length, codes, ltb,
}
use shadow_trust_security.Accounts.{
  User, Response, ok, http, Libraries, IsSound, find_user, update_user_row, by_email, by_otp,
}
use shadow_trust_security.Accounts.Rows.{
  find_user-passes, find_user-update, find_user-update_same, find_user-update_makes,
}
use shadow_trust_security.Accounts.Auth.{minute, forgot_password, reset_password}

-- Nobody holds the token once its holder is written without it.
find_user-cleared :
    (p : User → Bool) (g : User → User) (us : List User)
    → ((v : User) → p (g v) ≡ false)
    → find_user p us ≡ none
    → find_user p (update_user_row p g us) ≡ none
find_user-cleared p g [] clears h = refl
find_user-cleared p g (v ∷ us) clears h = elim (Bool-cases (p v)) [
  | inl y ↦ let at : find_user p (v ∷ us) ≡ some v = rw y refl in absurd (cc)
  | inr n ↦
      let at : find_user p (v ∷ us) ≡ find_user p us = rw n refl in
      rw n (rw n (find_user-cleared p g us clears (sym at ∙ h)))
]

find_user-given_and_cleared :
    (p q : User → Bool) (f g : User → User) (us : List User)
    → ((v : User) → p (g v) ≡ false)
    → find_user p us ≡ none
    → find_user p (update_user_row p g (update_user_row q f us)) ≡ none
find_user-given_and_cleared p q f g [] clears h = refl
find_user-given_and_cleared p q f g (v ∷ us) clears h = elim (Bool-cases (p v)) [
  | inl y ↦ let at : find_user p (v ∷ us) ≡ some v = rw y refl in absurd (cc)
  | inr n ↦
      let at : find_user p (v ∷ us) ≡ find_user p us = rw n refl in
      let rest : find_user p us ≡ none = sym at ∙ h in
      elim (Bool-cases (q v)) [
        | inl z ↦ elim (Bool-cases (p (f v))) [
          | inl made ↦ rw z (rw made (rw (clears (f v)) rest))
          | inr other ↦ rw z (rw other (rw other (find_user-cleared p g us clears rest)))
        ]
        | inr m ↦ rw m (rw n (rw n (find_user-given_and_cleared p q f g us clears rest)))
      ]
]

module _ (lib : Libraries) (now later : ℕ) (email token salt password : String)
    (users : List User) where
  abbrev asked : List User
  asked = (forgot_password now email token users).1

  abbrev reset : Response (Unit {0}) × List User
  reset = reset_password lib later salt token password asked

  -- The account with the token that it was mailed, and then with its new password.
  abbrev holding : User → User
  holding v = record v { otp_code = some token; otp_expires_at = some (now + 60 * minute) }

  abbrev renewed : User → User
  renewed v = record v {
    password_hash = lib.hashpw salt password;
    otp_code = none;
    otp_expires_at = none;
  }

  asked_rows :
      (u : User)
      → find_user (by_email email) users ≡ some u
      → asked ≡ update_user_row (by_email email) holding users
  unfolding forgot_password
  asked_rows u found =
      let run : forgot_password now email token users
          ≡ (some token, update_user_row (by_email email) holding users) =
        rw (forgot_password, found) refl in
      ap (λ r. r.1) run

  reset_rows :
      (us : List User) (u : User)
      → 8 ≤ length (codes password)
      → find_user (by_otp token) us ≡ some (holding u)
      → later ≤ now + 60 * minute
      → reset_password lib later salt token password us
        ≡ (ok tt, update_user_row (by_otp token) renewed us)
  unfolding reset_password
  reset_rows us u long found in_time =
      let enough : ltb (length (codes password)) 8 ≡ false = ground arith in
      let alive : ltb (now + 60 * minute) later ≡ false = ground arith in
      rw (reset_password, enough, found, alive) refl

  -- Who asks for a reset of an account and uses the mailed token within the hour, with a password of
  -- at least 8 characters, has the new password, and the token is spent: another reset with it is
  -- refused. The token must be one that no account held before, and bcrypt check a password against
  -- its own hash.
  pub reset_password-forgot_password :
      (u : User)
      → IsSound lib
      → find_user (by_email email) users ≡ some u
      → find_user (by_otp token) users ≡ none
      → 8 ≤ length (codes password)
      → later ≤ now + 60 * minute
      → (reset.0 ≡ ok tt)
        × (find_user (by_email email) reset.1 ≡ some (renewed u))
        × (lib.checkpw password (renewed u).password_hash ≡ true)
        × (reset_password lib later salt token password reset.1
            ≡ (http 400 "Invalid or expired reset token.", reset.1))
  unfolding reset_password
  reset_password-forgot_password u sound found fresh long in_time =
      let given = update_user_row (by_email email) holding users in
      let after = update_user_row (by_otp token) renewed given in
      let held : find_user (by_otp token) given ≡ some (holding u) =
        find_user-update_makes (by_otp token) (by_email email) holding users u fresh found
          (eq_refl token) in
      let kept : find_user (by_email email) given ≡ some (holding u) =
        find_user-update (by_email email) holding users u found
          (find_user-passes (by_email email) users u found) in
      let whole : reset ≡ (ok tt, after) =
        ap (reset_password lib later salt token password) (asked_rows u found)
        ∙ reset_rows given u long held in_time in
      let mail : find_user (by_email email) after ≡ some (renewed u) =
        find_user-update_same (by_email email) (by_otp token) renewed (λ v. refl) given (holding u)
          kept held in
      let spent : find_user (by_otp token) after ≡ none =
        find_user-given_and_cleared (by_otp token) (by_email email) holding renewed users
          (λ v. refl) fresh in
      let enough : ltb (length (codes password)) 8 ≡ false = ground arith in
      let again : reset_password lib later salt token password after
          ≡ (http 400 "Invalid or expired reset token.", after) =
        rw (reset_password, enough, spent) refl in
      subst
        (λ (r : Response (Unit {0}) × List User).
          (r.0 ≡ ok tt)
          × (find_user (by_email email) r.1 ≡ some (renewed u))
          × (lib.checkpw password (renewed u).password_hash ≡ true)
          × (reset_password lib later salt token password r.1
              ≡ (http 400 "Invalid or expired reset token.", r.1)))
        (sym whole) (refl, mail, sound.checks salt password, again)
