-- ===== src/Credentials/Operations.antt =====
-- The operations of the service on its tables. What is outside is a parameter: the two tests by
-- regular expression, the statuses of the senders, and the identifiers that uuid4 draws.
use shadow_trust_security.Prelude.{
  ℕ, suc, ◌+◌, ◌-◌, ◌*◌, String, Bool, true, false, not, ◌&&◌, Option, none, some, List, [], ◌∷◌,
  ◌++◌, leb, ltb, if◌then◌else◌, str_eq, elem, length, keep,
}
use shadow_trust_security.Credentials.{CredentialToken, CredentialAuditLog, AdminActivity, Database}
use shadow_trust_security.Credentials.Delivery.{
  Recipient, Extra, recipients_of, method_of, sent_status,
}

abbrev pub hour : ℕ
hour = 3600000000

abbrev pub limited_actions : List String
limited_actions = "ISSUE_CREDENTIALS" ∷ "RESET_PASSWORD" ∷ "RESEND_CREDENTIALS" ∷ []

-- The rows that the query of `rate_limit_check` selects.
abbrev pub counts_for : String → ℕ → AdminActivity → Bool
counts_for admin_id now a =
    str_eq a.admin_id admin_id && leb (now - hour) a.timestamp && elem a.action limited_actions

unfoldable pub recent : String → ℕ → List AdminActivity → ℕ
recent admin_id now activities = length (keep (counts_for admin_id now) activities)

unfoldable pub rate_limit_check : ℕ → String → ℕ → Database → Bool
unfolding recent
rate_limit_check rate_limit_max admin_id now db =
    ltb (recent admin_id now db.activities) rate_limit_max

unfoldable pub log_activity : AdminActivity → Database → Database
log_activity activity db = record db { activities = db.activities ++ activity ∷ [] }

unfoldable pub find_token : String → List CredentialToken → Option CredentialToken
find_token token [] = none
find_token token (t ∷ ts) = if str_eq t.token token then some t else find_token token ts

unfoldable pub find_token_id : String → List CredentialToken → Option CredentialToken
find_token_id id [] = none
find_token_id id (t ∷ ts) = if str_eq t.id id then some t else find_token_id id ts

unfoldable pub find_audit : String → List CredentialAuditLog → Option CredentialAuditLog
find_audit id [] = none
find_audit id (a ∷ rest) = if str_eq a.id id then some a else find_audit id rest

-- The row that `find_token` gives is written back as used.
unfoldable pub mark_used : String → ℕ → List CredentialToken → List CredentialToken
mark_used token now [] = []
mark_used token now (t ∷ ts) =
    if str_eq t.token token
    then record t { used = true; used_at = some now } ∷ ts
    else t ∷ mark_used token now ts

abbrev pub has_token_id : String → Option String → Bool
has_token_id id none = false
has_token_id id (some i) = str_eq i id

unfoldable pub mark_audits : String → List CredentialAuditLog → List CredentialAuditLog
mark_audits id [] = []
mark_audits id (a ∷ rest) =
    (if has_token_id id a.token_id then record a { token_status = "USED" } else a)
    ∷ mark_audits id rest

pub data Validation : Type 0 where
  not_found : Validation
  already_used : Option ℕ → Validation
  expired : ℕ → Validation
  valid : String → Bool → ℕ → Validation

unfoldable pub use_token : ℕ → Database → CredentialToken → Validation × Database
unfolding mark_used mark_audits
use_token now db t =
    if t.used
    then (already_used t.used_at, db)
    else if ltb t.expires_at now
    then (expired t.expires_at, db)
    else (
      valid t.username t.force_password_change t.expires_at,
      record db { tokens = mark_used t.token now db.tokens; audits = mark_audits t.id db.audits },
    )

unfoldable pub validate_one_time_token : ℕ → String → Database → Validation × Database
unfolding find_token use_token
validate_one_time_token now token db = elim (find_token token db.tokens) [
  | none ↦ (not_found, db)
  | some t ↦ use_token now db t
]

pub record Request : Type 0 where
  pub username : String
  pub email : Option String
  pub phone : Option String
  pub delivery : List String
  pub token_expires_hours : ℕ
  pub force_password_change : Bool
  pub admin_id : String
  pub additional_recipients : List Extra

pub record Environment : Type 0 where
  pub rate_limit_max : ℕ
  pub valid_email : String → Bool
  pub valid_phone : String → Bool
  pub email_status : String → String
  pub whatsapp_status : String → String

-- What uuid4 draws in one call: the token, its id, and the ids of the audit rows.
pub record Draw : Type 0 where
  pub token : String
  pub token_id : String
  pub audit_id : ℕ → String

pub data Issued : Type 0 where
  rate_limited invalid_email invalid_phone : Issued
  raised : Issued
  issued : String → ℕ → String → Issued

abbrev pub fails : (String → Bool) → Option String → Bool
fails test none = false
fails test (some s) = not (str_eq s "") && not (test s)

-- The audit row of one recipient.
abbrev pub audit_of : Environment → Request → String → String → Recipient → CredentialAuditLog
audit_of env r token_id id to = record {
  id = id;
  username = r.username;
  recipient_email = to.email;
  recipient_phone = to.phone;
  issued_by = r.admin_id;
  delivery_method = method_of to.do_email to.do_whatsapp;
  email_status = sent_status env.email_status to.do_email to.email;
  whatsapp_status = sent_status env.whatsapp_status to.do_whatsapp to.phone;
  token_id = some token_id;
  token_status = "GENERATED";
}

unfoldable pub audits_of :
    Environment → Request → Draw → ℕ → List Recipient → List CredentialAuditLog
audits_of env r draw i [] = []
audits_of env r draw i (to ∷ rest) =
    audit_of env r draw.token_id (draw.audit_id i) to ∷ audits_of env r draw (suc i) rest

abbrev pub token_of : ℕ → Request → Draw → CredentialToken
token_of now r draw = record {
  id = draw.token_id;
  username = r.username;
  token = draw.token;
  issued_by = r.admin_id;
  expires_at = now + r.token_expires_hours * hour;
  used = false;
  used_at = none;
  force_password_change = r.force_password_change;
}

abbrev pub activity_of : ℕ → String → String → String → AdminActivity
activity_of now admin_id action username = record {
  admin_id = admin_id;
  action = action;
  affected_user = username;
  timestamp = now;
  result = "SUCCESS";
}

-- The token, its audit rows and the activity, committed together.
unfoldable pub record_issue : Environment → ℕ → Request → Draw → Database → Database
unfolding recipients_of audits_of
record_issue env now r draw db = record {
  tokens = db.tokens ++ token_of now r draw ∷ [];
  audits =
      db.audits
      ++ audits_of env r draw 0 (recipients_of r.email r.phone r.delivery r.additional_recipients);
  activities = db.activities ++ activity_of now r.admin_id "ISSUE_CREDENTIALS" r.username ∷ [];
}

-- The unique column `token` makes the flush raise on a value that is there. What a refused call has
-- added is not committed.
unfoldable pub issue_credentials : Environment → ℕ → Request → Draw → Database → Issued × Database
unfolding rate_limit_check find_token record_issue
issue_credentials env now r draw db =
    if not (rate_limit_check env.rate_limit_max r.admin_id now db)
    then (rate_limited, db)
    else if fails env.valid_email r.email
    then (invalid_email, db)
    else if fails env.valid_phone r.phone
    then (invalid_phone, db)
    else elim (find_token draw.token db.tokens) [
      | some t ↦ (raised, db)
      | none ↦ (
        issued draw.token (now + r.token_expires_hours * hour) draw.token_id,
        record_issue env now r draw db,
      )
    ]

pub data Resent : Type 0 where
  no_audit too_many : Resent
  resent : Option String → String → String → Resent

-- The token that the link carries: none where the plain login page is linked.
abbrev pub live_token : ℕ → Option CredentialToken → Option String
live_token now none = none
live_token now (some t) = if not t.used && ltb now t.expires_at then some t.token else none

unfoldable pub linked_token : ℕ → CredentialAuditLog → List CredentialToken → Option String
unfolding find_token_id
linked_token now audit tokens = elim audit.token_id [
  | none ↦ none
  | some id ↦ if str_eq id "" then none else live_token now (find_token_id id tokens)
]

abbrev pub resent_status : (String → String) → Option String → Bool → String → String
resent_status send to asked old = elim to [
  | none ↦ old
  | some a ↦ if not (str_eq a "") && asked then send a else old
]

unfoldable pub set_statuses :
    String → String → String → List CredentialAuditLog → List CredentialAuditLog
set_statuses id email whatsapp [] = []
set_statuses id email whatsapp (a ∷ rest) =
    if str_eq a.id id
    then record a { email_status = email; whatsapp_status = whatsapp } ∷ rest
    else a ∷ set_statuses id email whatsapp rest

unfoldable pub resend : Environment → ℕ → String → Database → CredentialAuditLog → Resent × Database
unfolding set_statuses log_activity linked_token
resend env now admin_id db audit =
    let email =
      resent_status env.email_status audit.recipient_email
        (elem audit.delivery_method ("EMAIL" ∷ "BOTH" ∷ [])) audit.email_status in
    let whatsapp =
      resent_status env.whatsapp_status audit.recipient_phone
        (elem audit.delivery_method ("WHATSAPP" ∷ "BOTH" ∷ [])) audit.whatsapp_status in
    (
      resent (linked_token now audit db.tokens) email whatsapp,
      log_activity (activity_of now admin_id "RESEND_CREDENTIALS" audit.username)
          (record db { audits = set_statuses audit.id email whatsapp db.audits }),
    )

unfoldable pub resend_credentials : Environment → ℕ → String → String → Database → Resent × Database
unfolding find_audit rate_limit_check resend
resend_credentials env now audit_id admin_id db = elim (find_audit audit_id db.audits) [
  | none ↦ (no_audit, db)
  | some audit ↦
      if rate_limit_check env.rate_limit_max admin_id now db
      then resend env now admin_id db audit
      else (too_many, db)
]
