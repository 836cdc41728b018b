-- ===== src/Credentials.antt =====
-- backend/app/services/credential_service.py: one-time login tokens, their delivery, and the limit
-- on what an administrator issues. The state is the committed rows of three tables, oldest first;
-- one call reads the clock once, in microseconds.
pub mod Delivery
pub mod Operations
pub mod History
pub mod SingleUse
pub mod Limit
pub mod Issuing
mod Examples
use shadow_trust_security.Prelude.{ℕ, String, Bool, Option, List}

pub record CredentialToken : Type 0 where
  pub id : String
  pub username : String
  pub token : String
  pub issued_by : String
  pub expires_at : ℕ
  pub used : Bool
  pub used_at : Option ℕ
  pub force_password_change : Bool

pub record CredentialAuditLog : Type 0 where
  pub id : String
  pub username : String
  pub recipient_email : Option String
  pub recipient_phone : Option String
  pub issued_by : String
  pub delivery_method : String
  pub email_status : String
  pub whatsapp_status : String
  pub token_id : Option String
  pub token_status : String

pub record AdminActivity : Type 0 where
  pub admin_id : String
  pub action : String
  pub affected_user : String
  pub timestamp : ℕ
  pub result : String

pub record Database : Type 0 where
  pub tokens : List CredentialToken
  pub audits : List CredentialAuditLog
  pub activities : List AdminActivity
