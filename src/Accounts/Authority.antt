-- ===== src/Accounts/Authority.antt =====
-- Who may change the accounts.
use mathlib.Core.Path.{subst}
use shadow_trust_security.Prelude.{
  elem, eq_refl, ◌≢◌, ◌++◌, ℕ, ◌≡◌, ◌⊎◌, refl, sym, ap, String, true, some, List, [], ◌∷◌, arith,
  str_eq, eq_iff, Bool-cases, Option-cases, inl, inr,
}
use shadow_trust_security.Accounts.{
  update_user_row, by_id, find_user, User, Response, ok, http, raised, Libraries,
}
use shadow_trust_security.Accounts.Auth.{admin_roles, Bypass, get_current_user, require_role}
use shadow_trust_security.Accounts.Manage.{
  approved, deny_user, execute, delete_user, Database, is_logged, Order, manage, Draws,
  approve_user, AccessLog,
}
use shadow_trust_security.Accounts.Rows.{find_user-update, find_user-passes}

pub Response-cases {ℓ} :
    {A : Type ℓ} (r : Response A)
    → ((a : A) × (r ≡ ok a)) ⊎ (((s : ℕ) × (d : String) × (r ≡ http s d)) ⊎ (r ≡ raised))
Response-cases (ok a) = inl (a, refl)
Response-cases (http s d) = inr (inl (s, d, refl))
Response-cases raised = inr (inr refl)

-- An active super administrator.
pub record IsAuthority (u : User) : Type 0 where
  pub active : u.status ≡ some "ACTIVE"
  pub super : u.role ≡ some "SUPER_ADMIN"

-- The tables after the check of the token.
abbrev pub entered : Libraries → Bypass → ℕ → String → Database → Database
entered lib b now token db = record db {
  users = (require_role lib b ("SUPER_ADMIN" ∷ []) now token db.users).1;
}

-- What a management request has come to: the token names an active super administrator, in whose
-- name the order was executed, or it names no super administrator, and the request was refused, with
-- the accounts as the token check left them.
pub data Managed (lib : Libraries) (b : Bypass) (draws : Draws) (now : ℕ) (token : String)
    (order : Order) (db : Database) : Type 0 where
  granted :
      (admin : User)
      → (get_current_user lib b now token db.users).0 ≡ ok admin
      → IsAuthority admin
      → manage lib b draws now token order db
        ≡ execute lib draws admin order (entered lib b now token db)
      → Managed lib b draws now token order db
  refused :
      (r : Response (Unit {0}))
      → r ≢ ok tt
      → ((u : User)
          → (get_current_user lib b now token db.users).0 ≡ ok u
          → u.role ≢ some "SUPER_ADMIN")
      → manage lib b draws now token order db ≡ (r, entered lib b now token db)
      → Managed lib b draws now token order db

is_logged-append :
    (id : String) (logs : List AccessLog) (l : AccessLog)
    → l.target_user_id ≡ some id
    → is_logged id (logs ++ l ∷ []) ≡ true
is_logged-append id [] l h = rw (h, eq_refl id) (ground arith)
is_logged-append id (m ∷ logs) l h = ground (arith, is_logged-append id logs l h)

id-approved : (code role : String) (level : ℕ) (u : User) → (approved code role level u).id ≡ u.id
id-approved code role level u = elim (Bool-cases (elem role admin_roles)) [
  | inl y ↦ rw y refl
  | inr n ↦ rw n refl
]

undeletable :
    (other : User) (draws : Draws) (id : String) (db : Database) (u : User)
    → find_user (by_id id) db.users ≡ some u
    → is_logged id db.access_logs ≡ true
    → (delete_user draws id db ≡ (http 500 "IntegrityError", db))
      × (deny_user other draws id db ≡ (http 500 "IntegrityError", db))
unfolding delete_user deny_user
undeletable other draws id db u found logged =
    (rw (delete_user, found, logged) refl, rw (deny_user, found, logged) refl)

-- An account that was approved cannot be deleted or denied any more: the log of the approval refers
-- to it, so the delete fails with status 500 and leaves everything as it was.
pub delete_user-approve_user :
    (admin other : User) (draws : Draws) (code id role : String) (level : ℕ) (db : Database)
    → (approve_user admin code id role level db).0 ≡ ok tt
    → let db' = (approve_user admin code id role level db).1 in
      (delete_user draws id db' ≡ (http 500 "IntegrityError", db'))
      × (deny_user other draws id db' ≡ (http 500 "IntegrityError", db'))
unfolding approve_user
delete_user-approve_user admin other draws code id role level db h =
    elim (Option-cases (find_user (by_id id) db.users)) [
      | inl nothing ↦ absurd (ground arith)
      | inr (u, found) ↦
          let own : by_id id u ≡ true = find_user-passes (by_id id) db.users u found in
          let kept : by_id id (approved code role level u) ≡ true =
            subst (λ i. str_eq i id ≡ true) (sym (id-approved code role level u)) own in
          let again =
            find_user-update (by_id id) (approved code role level) db.users u found kept in
          let logged =
            is_logged-append id db.access_logs
              (record { admin_id = admin.id; target_user_id = some u.id; action = "APPROVE" })
              (ap some ((eq_iff u.id id).0 own)) in
          let db' : Database = record {
            users = update_user_row (by_id id) (approved code role level) db.users;
            access_logs =
                db.access_logs
                ++ record { admin_id = admin.id; target_user_id = some u.id; action = "APPROVE" }
                  ∷ [];
          } in
          let done : (approve_user admin code id role level db).1 ≡ db' =
            rw (approve_user, found) refl in
          subst
            (λ d.
              (delete_user draws id d ≡ (http 500 "IntegrityError", d))
              × (deny_user other draws id d ≡ (http 500 "IntegrityError", d)))
            (sym done) (undeletable other draws id db' (approved code role level u) again logged)
    ]
