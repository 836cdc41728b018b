-- ===== src/Accounts/Auth.antt =====
-- The methods of AuthService, and the dependencies that resolve a request's user. Times are in
-- microseconds.
use shadow_trust_security.Prelude.{
  ℕ, ◌+◌, ◌*◌, String, Bool, true, false, not, ◌&&◌, ◌||◌, Option, none, some, List, [], ◌∷◌, ◌++◌,
  leb, ltb, ◌==◌, if◌then◌else◌, str_eq, elem, length, codes, same_codes, upper,
}
use shadow_trust_security.Telemetry.Text.{strip}
use shadow_trust_security.Accounts.{
  User, Response, ok, http, raised, Claims, Libraries, is, find_user, update_user_row, by_email,
  by_username, by_id, by_otp,
}

abbrev pub minute : ℕ
minute = 60000000

abbrev pub access_token_expire_minutes : ℕ
access_token_expire_minutes = 60

-- The response of a login.
pub record Login : Type 0 where
  pub access_token : String
  pub user : User

abbrev pub claims_of : ℕ → User → Claims
claims_of now u = record {
  sub = u.email;
  role = u.role;
  clearance = u.clearance_level;
  user_id = u.id;
  exp = now + access_token_expire_minutes * minute;
}

unfoldable pub create_access_token : Libraries → ℕ → User → String
create_access_token lib now u = lib.encode (claims_of now u)

abbrev pub role_for : ℕ → String
role_for level = if level == 1 then "OPERATIVE" else if level == 2 then "SPECIALIST" else "OVERSEER"

pub record Registration : Type 0 where
  pub username : String
  pub email : String
  pub password : String
  pub first_name : String
  pub last_name : String
  pub department : String
  pub clearance_level : ℕ

abbrev pub new_user : Libraries → String → String → Registration → User
new_user lib id salt r = record {
  id = id;
  username = r.username;
  email = r.email;
  password_hash = lib.hashpw salt r.password;
  first_name = some r.first_name;
  last_name = some r.last_name;
  department = some r.department;
  clearance_level = none;
  requested_clearance_level = some r.clearance_level;
  role = some (role_for r.clearance_level);
  status = some "PENDING";
  otp_code = none;
  otp_expires_at = none;
  system_code = none;
  last_login = none;
}

-- `failure` is the text of the exception that the commit raises, if it raises one; `id` and `salt`
-- are what uuid4 and gensalt draw.
unfoldable pub register_user :
    Libraries
    → String
    → String
    → Registration
    → Option String
    → List User
    → Response User × List User
register_user lib id salt r failure users = elim (find_user (by_email r.email) users) [
  | some u ↦ (http 400 "Email already registered", users)
  | none ↦ elim (find_user (by_username r.username) users) [
    | some u ↦ (http 400 "Username already taken", users)
    | none ↦
        if not (leb 1 r.clearance_level && leb r.clearance_level 3)
        then (http 400 "Clearance level must be 1, 2, or 3", users)
        else elim failure [
          | some message ↦ (http 500 message, users)
          | none ↦ (ok (new_user lib id salt r), users ++ new_user lib id salt r ∷ [])
        ]
  ]
]

unfoldable pub verify_otp_and_token : Libraries → ℕ → String → List User → Response Login
unfolding create_access_token
verify_otp_and_token lib now email users = elim (find_user (by_email email) users) [
  | none ↦ http 400 "User not found"
  | some u ↦ ok (record { access_token = create_access_token lib now u; user = u })
]

-- By email first, then by username.
unfoldable pub find_login : String → List User → Option User
find_login email users = elim (find_user (by_email email) users) [
  | some u ↦ some u
  | none ↦ find_user (by_username email) users
]

-- `user.last_login = utcnow()`; the row is written by its id.
abbrev pub touch : ℕ → User → List User → List User
touch now u users = update_user_row (by_id u.id) (λ v. record v { last_login = some now }) users

unfoldable pub login : Libraries → ℕ → String → String → List User → Response Login × List User
unfolding find_login verify_otp_and_token
login lib now email password users = elim (find_login email users) [
  | none ↦ (http 401 "Invalid credentials", users)
  | some u ↦
      if not (lib.checkpw password u.password_hash)
      then (http 401 "Invalid credentials", users)
      else if is u.status "PENDING"
      then (http 403 "Account pending approval by Admin", users)
      else if is u.status "BLOCKED"
      then (http 403 "Account is blocked", users)
      else (verify_otp_and_token lib now email (touch now u users), touch now u users)
]

-- The token is mailed; the response says the same for an unknown address.
unfoldable pub forgot_password : ℕ → String → String → List User → Option String × List User
forgot_password now email token users = elim (find_user (by_email email) users) [
  | none ↦ (none, users)
  | some u ↦ (
    some token,
    update_user_row (by_email email)
        (λ v. record v { otp_code = some token; otp_expires_at = some (now + 60 * minute) }) users,
  )
]

abbrev pub has_expired : ℕ → Option ℕ → Bool
has_expired now none = true
has_expired now (some t) = ltb t now

unfoldable pub reset_password :
    Libraries → ℕ → String → String → String → List User → Response (Unit {0}) × List User
reset_password lib now salt token new_password users =
    if ltb (length (codes new_password)) 8
    then (http 400 "Password must be at least 8 characters.", users)
    else elim (find_user (by_otp token) users) [
      | none ↦ (http 400 "Invalid or expired reset token.", users)
      | some u ↦
          if has_expired now u.otp_expires_at
          then (http 400 "Reset token has expired. Please request a new one.", users)
          else (
            ok tt,
            update_user_row (by_otp token)
                (λ v. record v {
                  password_hash = lib.hashpw salt new_password;
                  otp_code = none;
                  otp_expires_at = none;
                })
                users,
          )
    ]

abbrev pub admin_roles : List String
admin_roles = "SUPER_ADMIN" ∷ "ADMIN" ∷ "OVERSEER" ∷ []

abbrev pub has_role : Option String → List String → Bool
has_role none roles = false
has_role (some r) roles = elem r roles

-- `.strip().upper()`
abbrev pub normal_code : Libraries → String → List ℕ
normal_code lib s = upper lib.upper_other (strip (codes s))

abbrev pub is_given : Option String → Bool
is_given none = false
is_given (some s) = not (str_eq s "")

abbrev pub code_matches : Libraries → Option String → String → Bool
code_matches lib none given = false
code_matches lib (some s) given = same_codes (normal_code lib s) (normal_code lib given)

unfoldable pub admin_login :
    Libraries → ℕ → String → String → String → List User → Response Login × List User
unfolding create_access_token
admin_login lib now email password system_code users = elim (find_user (by_email email) users) [
  | none ↦ (http 401 "Invalid credentials", users)
  | some u ↦
      if not (lib.checkpw password u.password_hash)
      then (http 401 "Invalid credentials", users)
      else if not (is u.status "ACTIVE")
      then (http 403 "Account is not active", users)
      else if not (has_role u.role admin_roles)
      then (http 403 "This account does not have admin privileges", users)
      else if not (is_given u.system_code)
      then (http 403 "No admin access code is set for this account. Contact a Super Admin.", users)
      else if not (code_matches lib u.system_code system_code)
      then (http 401 "Invalid admin access code", users)
      else (
        ok (record { access_token = create_access_token lib now u; user = u }),
        touch now u users,
      )
]

abbrev pub dev_bypass_email : String
dev_bypass_email = "admin@gmail.com"

-- `enabled` is `dev_bypass_enabled()`, on the environment variables.
abbrev pub with_code : String → User → User
with_code drawn u = if is_given u.system_code then u else record u { system_code = some drawn }

abbrev pub as_super_admin : User → User
as_super_admin u =
    if not (is u.status "ACTIVE") || not (is u.role "SUPER_ADMIN")
    then record u { status = some "ACTIVE"; role = some "SUPER_ADMIN"; clearance_level = some 5 }
    else u

abbrev pub bypass_user : Libraries → String → String → String → User
bypass_user lib id salt drawn = record {
  id = id;
  username = "admin_bypass";
  email = dev_bypass_email;
  password_hash = lib.hashpw salt "password123";
  first_name = some "Dev";
  last_name = some "Bypass";
  department = none;
  clearance_level = some 5;
  requested_clearance_level = none;
  role = some "SUPER_ADMIN";
  status = some "ACTIVE";
  otp_code = none;
  otp_expires_at = none;
  system_code = some drawn;
  last_login = none;
}

unfoldable pub dev_bypass : Libraries → String → String → String → List User → List User
dev_bypass lib id salt drawn users = elim (find_user (by_email dev_bypass_email) users) [
  | none ↦ users ++ bypass_user lib id salt drawn ∷ []
  | some u ↦
      update_user_row (by_email dev_bypass_email) (λ v. with_code drawn (as_super_admin v)) users
]

-- The user of a request by the subject of its token.
unfoldable pub resolve_user : Option String → List User → Response User
resolve_user none users = http 401 "Could not validate credentials"
resolve_user (some email) users = elim (find_user (by_email email) users) [
  | none ↦ http 401 "Could not validate credentials"
  | some u ↦ if is u.status "ACTIVE" then ok u else http 400 "Inactive user"
]

pub record Bypass : Type 0 where
  pub enabled : Bool
  pub id : String
  pub salt : String
  pub drawn : String

-- An account is made for the bypass if there is none.
abbrev pub with_bypass_user : Libraries → Bypass → List User → List User
with_bypass_user lib b users = elim (find_user (by_email dev_bypass_email) users) [
  | none ↦ dev_bypass lib b.id b.salt b.drawn users
  | some u ↦ users
]

unfoldable pub get_current_user :
    Libraries → Bypass → ℕ → String → List User → Response User × List User
unfolding resolve_user dev_bypass
get_current_user lib b now token users =
    if str_eq token "dev_bypass_token"
    then (if b.enabled
        then (
          resolve_user (some dev_bypass_email) (with_bypass_user lib b users),
          with_bypass_user lib b users,
        )
        else (http 401 "Could not validate credentials", users))
    else elim (lib.decode now token) [
      | none ↦ (http 401 "Could not validate credentials", users)
      | some sub ↦ (resolve_user sub users, users)
    ]

-- The detail of the response also lists the allowed roles.
unfoldable pub check_role : List String → User → Response User
check_role allowed u =
    if not (has_role u.role allowed) && not (is u.role "SUPER_ADMIN")
    then http 403 "Operation not permitted."
    else ok u

-- `require_role(allowed)`; the check of `get_current_active_user` repeats that of the user's status.
unfoldable pub require_role :
    Libraries → Bypass → List String → ℕ → String → List User → Response User × List User
unfolding get_current_user check_role
require_role lib b allowed now token users =
    let (r, users') = get_current_user lib b now token users in
    elim r [
      | ok u ↦ (check_role allowed u, users')
      | http s d ↦ (http s d, users')
      | raised ↦ (raised, users')
    ]
