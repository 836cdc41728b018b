-- ===== src/Accounts.antt =====
-- backend/app/services/auth_service.py, backend/app/api/v1/dependencies.py and
-- backend/app/api/v1/endpoints/users.py: the accounts, how they sign in, and who manages them. The
-- state is the committed rows of the users table, oldest first; calls do not
-- overlap, and a query compares texts exactly.
pub mod Auth
pub mod Manage
pub mod Authority
pub mod Rows
pub mod SignIn
pub mod Reset
mod Examples
use shadow_trust_security.Prelude.{
  ◌≢◌, ◌<◌, ◌≡◌, ℕ, String, Bool, true, false, Option, none, some, List, [], ◌∷◌, if◌then◌else◌,
  str_eq, ◌&&◌, not,
}

pub record User : Type 0 where
  pub id : String
  pub username : String
  pub email : String
  pub password_hash : String
  pub first_name : Option String
  pub last_name : Option String
  pub department : Option String
  pub clearance_level : Option ℕ
  pub requested_clearance_level : Option ℕ
  pub role : Option String
  pub status : Option String
  pub otp_code : Option String
  pub otp_expires_at : Option ℕ
  pub system_code : Option String
  pub last_login : Option ℕ

-- What a handler gives: its result, an HTTPException with its status and detail, or another
-- exception.
pub data Response {ℓ} (A : Type ℓ) : Type ℓ where
  ok : A → Response A
  http : ℕ → String → Response A
  raised : Response A

-- The claims of an access token.
pub record Claims : Type 0 where
  pub sub : String
  pub role : Option String
  pub clearance : Option ℕ
  pub user_id : String
  pub exp : ℕ

-- The libraries that the services call: bcrypt with the salt that it draws, PyJWT with the secret
-- key, and what `upper` makes of a character outside ASCII.
pub record Libraries : Type 0 where
  pub hashpw : String → String → String
  pub checkpw : String → String → Bool
  pub encode : Claims → String
  pub decode : ℕ → String → Option (Option String)
  pub upper_other : ℕ → List ℕ

-- The documented laws that the proofs use: a password checks against its own hash, a token decodes
-- to its subject until it expires, and a token has dots, so it is not the word of the bypass. PyJWT
-- keeps the expiry in whole seconds, a fraction of a second that is passed over here.
pub record IsSound (lib : Libraries) : Type 0 where
  pub checks : (salt password : String) → lib.checkpw password (lib.hashpw salt password) ≡ true
  pub decodes :
      (now : ℕ) (c : Claims) → now < c.exp → lib.decode now (lib.encode c) ≡ some (some c.sub)
  pub dotted : (c : Claims) → lib.encode c ≢ "dev_bypass_token"

-- `value == text`
abbrev pub is : Option String → String → Bool
is none t = false
is (some s) t = str_eq s t

-- The first row that passes a test.
abbrev pub find_user : (User → Bool) → List User → Option User
find_user p [] = none
find_user p (u ∷ us) = if p u then some u else find_user p us

-- The first row that passes a test is written back.
abbrev pub update_user_row : (User → Bool) → (User → User) → List User → List User
update_user_row p f [] = []
update_user_row p f (u ∷ us) = if p u then f u ∷ us else u ∷ update_user_row p f us

abbrev pub by_email : String → User → Bool
by_email email u = str_eq u.email email

abbrev pub by_username : String → User → Bool
by_username username u = str_eq u.username username

abbrev pub by_id : String → User → Bool
by_id id u = str_eq u.id id

abbrev pub by_otp : String → User → Bool
by_otp token u = is u.otp_code token
