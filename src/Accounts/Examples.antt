-- ===== src/Accounts/Examples.antt =====
-- The accounts on concrete rows: an active super administrator, an approved analyst and a pending
-- registration.

use Prim.Native.Char.{code}
use shadow_trust_security.Prelude.{
  ap, length, codes, ℕ, ◌≤◌, ◌≡◌, refl, String, true, false, Option, none, some, List, [], ◌∷◌,
  str_eq, eq_refl, arith,
}
use shadow_trust_security.Accounts.{User, ok, http, Libraries, IsSound, find_user, by_email}
use shadow_trust_security.Accounts.Auth.{
  check_role, verify_otp_and_token, resolve_user, get_current_user, reset_password, find_login,
  require_role, touch, forgot_password, Bypass, Login, login,
}
use shadow_trust_security.Accounts.Manage.{
  deny_user, delete_user, approve, Database, approve_user, manage, Draws,
}
use shadow_trust_security.Accounts.Authority.{delete_user-approve_user}
use shadow_trust_security.Accounts.SignIn.{login-get_current_user, login-by_username, MaySignIn}
use shadow_trust_security.Accounts.Reset.{reset_password-forgot_password}

-- The subject of a token.
abbrev subject : String → Option (Option String)
subject String.[] = none
subject (String.◌∷◌ c s) = some (some s)

-- The first code point of a text.
abbrev first : String → ℕ
first String.[] = 0
first (String.◌∷◌ c s) = code c

-- A password is its own hash, and a token is its subject behind a mark with a dot.
abbrev plain : Libraries
plain = record {
  hashpw = λ salt password. password;
  checkpw = λ password hash. str_eq password hash;
  encode = λ c. String.◌∷◌ "." c.sub;
  decode = λ now token. subject token;
  upper_other = λ c. c ∷ [];
}

plain-IsSound : IsSound plain
plain-IsSound = record {
  checks = λ salt password. eq_refl password;
  decodes = λ now c in_time. refl;
  dotted = λ c same. absurd (omega (arith, ap first same));
}

abbrev account : String → String → String → String → String → User
account id email password role status = record {
  id = id;
  username = id;
  email = email;
  password_hash = password;
  first_name = none;
  last_name = none;
  department = none;
  clearance_level = some 1;
  requested_clearance_level = none;
  role = some role;
  status = some status;
  otp_code = none;
  otp_expires_at = none;
  system_code = none;
  last_login = none;
}

abbrev root : User
root = account "root" "root@lab" "rootroot" "SUPER_ADMIN" "ACTIVE"

abbrev ann : User
ann = account "ann" "ann@lab" "annspass" "OPERATIVE" "ACTIVE"

abbrev ben : User
ben = account "ben" "ben@lab" "benspass" "OPERATIVE" "PENDING"

abbrev people : List User
people = root ∷ ann ∷ ben ∷ []

abbrev off : Bypass
off = record { enabled = false; id = "b"; salt = ""; drawn = "X" }

abbrev draws : Draws
draws = record { referenced = λ id. false; id = "n"; salt = ""; code = "CODE" }

abbrev db : Database
db = record { users = people; access_logs = [] }

abbrev root_token : String
root_token = ".root@lab"

abbrev ann_token : String
ann_token = ".ann@lab"

-- The address of the analyst does not hold a user name, and her user name signs nobody in.
login_username :
    login plain 7 "ann" "annspass" people ≡ (http 400 "User not found", touch 7 ann people)
unfolding login find_login verify_otp_and_token
login_username = refl

-- An analyst is refused by the check of the role.
manage_refused :
    manage plain off draws 7 ann_token (approve "ben" "OPERATIVE" 1) db
    ≡ (http 403 "Operation not permitted.", db)
unfolding manage require_role get_current_user resolve_user check_role
manage_refused = refl

approve_ben : (approve_user root "CODE" "ben" "OPERATIVE" 1 db).0 ≡ ok tt
unfolding approve_user
approve_ben = refl

delete_user-approve_user_example :
    let after = (approve_user root "CODE" "ben" "OPERATIVE" 1 db).1 in
    (delete_user draws "ben" after ≡ (http 500 "IntegrityError", after))
    × (deny_user root draws "ben" after ≡ (http 500 "IntegrityError", after))
delete_user-approve_user_example =
    delete_user-approve_user root root draws "CODE" "ben" "OPERATIVE" 1 db approve_ben

ann_may : MaySignIn plain "annspass" ann
ann_may = record { checked = refl; not_pending = refl; not_blocked = refl }

login-by_username_example :
    login plain 7 "ann" "annspass" people ≡ (http 400 "User not found", touch 7 ann people)
login-by_username_example = login-by_username plain 7 "ann" "annspass" people ann refl refl ann_may

login-get_current_user_example :
    (l : Login) × ((login plain 7 "ann@lab" "annspass" people).0 ≡ ok l)
    × ((get_current_user plain off 9 l.access_token (login plain 7 "ann@lab" "annspass" people).1).0
        ≡ ok l.user)
    × (l.user.id ≡ "ann")
login-get_current_user_example =
    login-get_current_user plain 7 "ann@lab" "annspass" people off 9 ann plain-IsSound refl refl
      refl (omega arith)

long : 8 ≤ length (codes "newsecret")
unfolding codes
long = omega arith

reset_password-forgot_password_example :
    let asked = (forgot_password 7 "ann@lab" "tok" people).1 in
    let reset = reset_password plain 9 "" "tok" "newsecret" asked in
    (reset.0 ≡ ok tt)
    × (find_user (by_email "ann@lab") reset.1
        ≡ some (record ann { password_hash = "newsecret"; otp_code = none; otp_expires_at = none }))
    × (str_eq "newsecret" "newsecret" ≡ true)
    × (reset_password plain 9 "" "tok" "newsecret" reset.1
        ≡ (http 400 "Invalid or expired reset token.", reset.1))
reset_password-forgot_password_example =
    reset_password-forgot_password plain 7 9 "ann@lab" "tok" "" "newsecret" people ann plain-IsSound
      refl refl long (omega arith)
