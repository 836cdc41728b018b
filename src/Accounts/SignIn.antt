-- ===== src/Accounts/SignIn.antt =====
-- Signing in, and the user of a request with the token that was given.
use shadow_trust_security.Prelude.{
  ℕ, ◌+◌, ◌*◌, ◌<◌, ◌≡◌, ◌≢◌, refl, ap, ◌∙◌, String, true, false, none, some, List, str_eq, eq_iff,
  Bool-cases, inl, inr,
}
use shadow_trust_security.Accounts.{
  User, ok, http, Libraries, IsSound, is, find_user, by_email, by_username, by_id,
}
use shadow_trust_security.Accounts.Rows.{
  find_user-passes, find_user-update_none, find_user-update_some,
}
use shadow_trust_security.Accounts.Auth.{
  Login, Bypass, minute, access_token_expire_minutes, create_access_token, claims_of,
  verify_otp_and_token, find_login, touch, login, resolve_user, get_current_user,
}

-- The account may sign in with the password.
pub record MaySignIn (lib : Libraries) (password : String) (u : User) : Type 0 where
  pub checked : lib.checkpw password u.password_hash ≡ true
  pub not_pending : is u.status "PENDING" ≡ false
  pub not_blocked : is u.status "BLOCKED" ≡ false

str_eq-ne : (s t : String) → s ≢ t → str_eq s t ≡ false
str_eq-ne s t n = elim (Bool-cases (str_eq s t)) [
  | inl e ↦ absurd (n ((eq_iff s t).0 e))
  | inr e ↦ e
]

module _ (lib : Libraries) (now : ℕ) (email password : String) (users : List User) where
  -- What a login does once the account is found.
  login-found :
      (u : User)
      → find_login email users ≡ some u
      → MaySignIn lib password u
      → login lib now email password users
        ≡ (verify_otp_and_token lib now email (touch now u users), touch now u users)
  unfolding login
  login-found u found may = rw (login, found, may.checked, may.not_pending, may.not_blocked) refl

  verify-none :
      (us : List User)
      → find_user (by_email email) us ≡ none
      → verify_otp_and_token lib now email us ≡ http 400 "User not found"
  unfolding verify_otp_and_token
  verify-none us nothing = rw (verify_otp_and_token, nothing) refl

  verify-found :
      (us : List User) (w : User)
      → find_user (by_email email) us ≡ some w
      → verify_otp_and_token lib now email us
        ≡ ok (record { access_token = create_access_token lib now w; user = w })
  unfolding verify_otp_and_token
  verify-found us w found = rw (verify_otp_and_token, found) refl

  -- Who signs in with a user name that is nobody's address passes every check and is then refused:
  -- the second query looks for the name among the addresses only.
  pub login-by_username :
      (u : User)
      → find_user (by_email email) users ≡ none
      → find_user (by_username email) users ≡ some u
      → MaySignIn lib password u
      → login lib now email password users ≡ (http 400 "User not found", touch now u users)
  unfolding find_login verify_otp_and_token
  login-by_username u no_address found may =
      let at : find_login email users ≡ some u = rw (find_login, no_address) found in
      let still : find_user (by_email email) (touch now u users) ≡ none =
        find_user-update_none (by_email email) (by_id u.id)
          (λ v. record v { last_login = some now }) (λ v. refl) users no_address in
      login-found u at may
      ∙ ap (λ r. (r, touch now u users)) (verify-none (touch now u users) still)

  -- The account after the login, and that its address finds it.
  touched :
      (u : User)
      → find_user (by_email email) users ≡ some u
      → (w : User) × (find_user (by_email email) (touch now u users) ≡ some w)
        × (w.status ≡ u.status)
        × (w.id ≡ u.id)
  touched u found =
      let (w, again, from) =
        find_user-update_some (by_email email) (by_id u.id)
          (λ v. record v { last_login = some now }) (λ v. refl) users u found in
      elim from [
        | inl same ↦ (w, again, ap (λ v. v.status) same, ap (λ v. v.id) same)
        | inr new ↦ (w, again, ap (λ v. v.status) new, ap (λ v. v.id) new)
      ]

  module _ (b : Bypass) (later : ℕ) where
    -- The request's user, from a token that was made for a row that its address finds.
    token-get_current_user :
        (us : List User) (w : User)
        → IsSound lib
        → find_user (by_email email) us ≡ some w
        → w.status ≡ some "ACTIVE"
        → later < now + access_token_expire_minutes * minute
        → get_current_user lib b later (create_access_token lib now w) us ≡ (ok w, us)
    unfolding get_current_user create_access_token resolve_user
    token-get_current_user us w sound found active in_time =
        let own : w.email ≡ email = (eq_iff _ _).0 (find_user-passes (by_email email) us w found) in
        let decoded : lib.decode later (create_access_token lib now w) ≡ some (some email) =
          sound.decodes later (claims_of now w) in_time ∙ ap (λ s. some (some s)) own in
        let plain : str_eq (create_access_token lib now w) "dev_bypass_token" ≡ false =
          str_eq-ne _ _ (sound.dotted (claims_of now w)) in
        let resolved : resolve_user (some email) us ≡ ok w =
          rw (resolve_user, found, active) refl in
        rw (get_current_user, plain, decoded) (ap (λ r. (r, us)) resolved)

    -- With the address and the password of an active account the login gives a token, and until it
    -- expires, a request with it is that account's own, where tokens keep the documented laws: they
    -- decode to their subject until then, and none is the word of the bypass.
    pub login-get_current_user :
        (u : User)
        → IsSound lib
        → find_user (by_email email) users ≡ some u
        → lib.checkpw password u.password_hash ≡ true
        → u.status ≡ some "ACTIVE"
        → later < now + access_token_expire_minutes * minute
        → (l : Login) × ((login lib now email password users).0 ≡ ok l)
          × ((get_current_user lib b later l.access_token (login lib now email password users).1).0
              ≡ ok l.user)
          × (l.user.id ≡ u.id)
    unfolding find_login
    login-get_current_user u sound found checked active in_time =
        let (w, again, status, same_id) = touched u found in
        let may : MaySignIn lib password u = record {
          checked = checked;
          not_pending = rw active refl;
          not_blocked = rw active refl;
        } in
        let at : find_login email users ≡ some u = rw (find_login, found) refl in
        let run = login-found u at may in
        let l : Login = record { access_token = create_access_token lib now w; user = w } in
        let result : (login lib now email password users).0 ≡ ok l =
          ap (λ r. r.0) run ∙ verify-found (touch now u users) w again in
        let after : (login lib now email password users).1 ≡ touch now u users =
          ap (λ r. r.1) run in
        let resolved =
          token-get_current_user (touch now u users) w sound again (status ∙ active) in_time in
        (
          l,
          result,
          ap (λ us. (get_current_user lib b later l.access_token us).0) after
              ∙ ap (λ r. r.0) resolved,
          same_id,
        )
