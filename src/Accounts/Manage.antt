-- ===== src/Accounts/Manage.antt =====
-- The endpoints by which a super administrator manages accounts. Each runs behind
-- `require_role(["SUPER_ADMIN"])`, and its `except Exception` turns every exception, HTTPException
-- included, into a response 500 with the exception's text.
use shadow_trust_security.Prelude.{
  ◌||◌, ℕ, String, Option, none, some, List, [], ◌∷◌, ◌++◌, if◌then◌else◌, str_eq, elem,
}
use shadow_trust_security.Accounts.{
  false, Bool, is, User, Response, ok, http, raised, Libraries, find_user, update_user_row,
  by_email, by_username, by_id,
}
use shadow_trust_security.Accounts.Auth.{Bypass, admin_roles, require_role}

-- The columns that `UserUpdate` may set.
pub data Field : Type 0 where
  first_name last_name user_role status : Option String → Field
  clearance : Option ℕ → Field

abbrev pub set_field : Field → User → User
set_field (first_name v) u = record u { first_name = v }
set_field (last_name v) u = record u { last_name = v }
set_field (user_role v) u = record u { role = v }
set_field (status v) u = record u { status = v }
set_field (clearance v) u = record u { clearance_level = v }

abbrev pub set_fields : List Field → User → User
set_fields [] u = u
set_fields (f ∷ fs) u = set_fields fs (set_field f u)

pub record Creation : Type 0 where
  pub email : String
  pub password : String
  pub first_name : String
  pub last_name : String
  pub role : String
  pub clearance_level : ℕ

-- What an administrator asks for. `name` is `email.split('@')[0]`, `drawn` the code that is drawn.
pub data Order : Type 0 where
  create : Creation → String → Order
  update : String → List Field → Order
  delete : String → Order
  approve : String → String → ℕ → Order
  regenerate : String → Order
  deny : String → Order

-- What a call meets: the id, salt and code that it draws, and whether the credential tables hold a
-- foreign key to an account.
pub record Draws : Type 0 where
  pub referenced : String → Bool
  pub id : String
  pub salt : String
  pub code : String

-- A row of access_logs: the administrator, the target and the action.
pub record AccessLog : Type 0 where
  pub admin_id : String
  pub target_user_id : Option String
  pub action : String

pub record Database : Type 0 where
  pub users : List User
  pub access_logs : List AccessLog

abbrev pub created_user : Libraries → Draws → Creation → String → User
created_user lib draws c name = record {
  id = draws.id;
  username = name;
  email = c.email;
  password_hash = lib.hashpw draws.salt c.password;
  first_name = some c.first_name;
  last_name = some c.last_name;
  department = none;
  clearance_level = some c.clearance_level;
  requested_clearance_level = none;
  role = some c.role;
  status = some "ACTIVE";
  otp_code = none;
  otp_expires_at = none;
  system_code = none;
  last_login = none;
}

-- A handler's own HTTPException is caught as well: `str(exc)` is the status and the detail.
abbrev pub caught : String → Response (Unit {0})
caught text = http 500 text

-- The unique columns make the commit raise where the username is taken.
unfoldable pub create_user :
    Libraries → Draws → Creation → String → Database → Response (Unit {0}) × Database
create_user lib draws c name db = elim (find_user (by_email c.email) db.users) [
  | some u ↦ (caught "400: User already exists", db)
  | none ↦ elim (find_user (by_username name) db.users) [
    | some u ↦ (caught "IntegrityError", db)
    | none ↦ (ok tt, record db { users = db.users ++ created_user lib draws c name ∷ [] })
  ]
]

unfoldable pub update_user : String → List Field → Database → Response (Unit {0}) × Database
update_user id [] db = elim (find_user (by_id id) db.users) [
  | none ↦ (caught "404: User not found", db)
  | some u ↦ (caught "400: No fields to update", db)
]
update_user id (f ∷ fs) db = elim (find_user (by_id id) db.users) [
  | none ↦ (caught "404: User not found", db)
  | some u ↦
      (ok tt, record db { users = update_user_row (by_id id) (set_fields (f ∷ fs)) db.users })
]

abbrev pub remove_user : String → List User → List User
remove_user id [] = []
remove_user id (u ∷ us) = if str_eq u.id id then us else u ∷ remove_user id us

-- A row of access_logs has the account as its administrator or target.
abbrev pub is_logged : String → List AccessLog → Bool
is_logged id [] = false
is_logged id (l ∷ ls) = str_eq l.admin_id id || is l.target_user_id id || is_logged id ls

-- The foreign keys make the delete of a referenced account raise.
abbrev pub is_referenced : Draws → String → Database → Bool
is_referenced draws id db = is_logged id db.access_logs || draws.referenced id

unfoldable pub delete_user : Draws → String → Database → Response (Unit {0}) × Database
delete_user draws id db = elim (find_user (by_id id) db.users) [
  | none ↦ (caught "404: User not found", db)
  | some u ↦
      if is_referenced draws id db
      then (caught "IntegrityError", db)
      else (ok tt, record db { users = remove_user id db.users })
]

abbrev pub approved : String → String → ℕ → User → User
approved drawn role level u =
    let active = record u {
      status = some "ACTIVE";
      role = some role;
      clearance_level = some level;
    } in
    if elem role admin_roles then record active { system_code = some drawn } else active

unfoldable pub approve_user :
    User → String → String → String → ℕ → Database → Response (Unit {0}) × Database
approve_user admin drawn id role level db = elim (find_user (by_id id) db.users) [
  | none ↦ (caught "404: User not found", db)
  | some u ↦ (
    ok tt,
    record {
      users = update_user_row (by_id id) (approved drawn role level) db.users;
      access_logs =
          db.access_logs
          ++ record { admin_id = admin.id; target_user_id = some u.id; action = "APPROVE" } ∷ [];
    },
  )
]

-- This endpoint has no `try`.
unfoldable pub regenerate_admin_code : String → String → Database → Response (Unit {0}) × Database
regenerate_admin_code drawn id db = elim (find_user (by_id id) db.users) [
  | none ↦ (http 404 "User not found", db)
  | some u ↦ (
    ok tt,
    record db {
      users = update_user_row (by_id id) (λ v. record v { system_code = some drawn }) db.users;
    },
  )
]

unfoldable pub deny_user : User → Draws → String → Database → Response (Unit {0}) × Database
deny_user admin draws id db = elim (find_user (by_id id) db.users) [
  | none ↦ (caught "404: User not found", db)
  | some u ↦ if is_referenced draws id db then (caught "IntegrityError", db) else (
    ok tt,
    record {
      users = remove_user id db.users;
      access_logs =
          db.access_logs
          ++ record { admin_id = admin.id; target_user_id = none; action = "DENY" } ∷ [];
    },
  )
]

unfoldable pub execute :
    Libraries → Draws → User → Order → Database → Response (Unit {0}) × Database
execute lib draws admin (create c name) db = create_user lib draws c name db
execute lib draws admin (update id fields) db = update_user id fields db
execute lib draws admin (delete id) db = delete_user draws id db
execute lib draws admin (approve id role level) db = approve_user admin draws.code id role level db
execute lib draws admin (regenerate id) db = regenerate_admin_code draws.code id db
execute lib draws admin (deny id) db = deny_user admin draws id db

-- A request with its token: the dependency first, then the handler.
unfoldable pub manage :
    Libraries → Bypass → Draws → ℕ → String → Order → Database → Response (Unit {0}) × Database
unfolding require_role execute
manage lib b draws now token order db =
    let (r, users) = require_role lib b ("SUPER_ADMIN" ∷ []) now token db.users in
    let db' = record db { users = users } in
    elim r [
      | ok admin ↦ execute lib draws admin order db'
      | http s d ↦ (http s d, db')
      | raised ↦ (raised, db')
    ]
