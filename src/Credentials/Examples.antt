-- ===== src/Credentials/Examples.antt =====
-- The credential service on concrete calls.
use shadow_trust_security.Prelude.{
  ℕ, ◌+◌, ◌*◌, ◌≤◌, ◌≡◌, refl, true, none, some, List, [], ◌∷◌, arith,
}
use shadow_trust_security.Credentials.{Database}
use shadow_trust_security.Credentials.Operations.{
  rate_limit_check, recent, find_token, Request, Environment, Draw, issued, valid, hour,
  issue_credentials, validate_one_time_token,
}
use shadow_trust_security.Credentials.History.{Call, issue, validate, resend, run, IsOrdered}
use shadow_trust_security.Credentials.SingleUse.{count, run_accepts_once}
use shadow_trust_security.Credentials.Limit.{IsWithinLimit, run-IsWithinLimit}
use shadow_trust_security.Credentials.Issuing.{issue_credentials-validate}

abbrev env : Environment
env = record {
  rate_limit_max = 2;
  valid_email = λ s. true;
  valid_phone = λ s. true;
  email_status = λ s. "SENT";
  whatsapp_status = λ s. "FAILED";
}

abbrev request : Request
request = record {
  username = "analyst";
  email = some "analyst@lab";
  phone = none;
  delivery = "EMAIL" ∷ [];
  token_expires_hours = 24;
  force_password_change = true;
  admin_id = "admin-1";
  additional_recipients = [];
}

abbrev draw : Draw
draw = record { token = "t1"; token_id = "id1"; audit_id = λ i. "audit" }

abbrev empty : Database
empty = record { tokens = []; audits = []; activities = [] }

abbrev calls : List (ℕ × Call)
calls =
    (10, issue request draw)
    ∷ (20, validate "t1")
    ∷ (30, validate "t1")
    ∷ (40, resend "audit" "admin-1")
    ∷ (50, validate "t1")
    ∷ []

run_accepts_once_example : count "t1" (run env calls empty).0 ≤ 1
run_accepts_once_example = run_accepts_once env calls "t1" empty

ordered : IsOrdered 10 calls
ordered = (omega arith, (omega arith, (omega arith, (omega arith, (omega arith, tt)))))

nothing_yet : IsWithinLimit env 10 empty
unfolding recent
nothing_yet = λ admin. omega arith

run-IsWithinLimit_example : IsWithinLimit env 50 (run env calls empty).1
run-IsWithinLimit_example = run-IsWithinLimit env 10 calls empty ordered nothing_yet

is_issued : (issue_credentials env 10 request draw empty).0 ≡ issued "t1" (10 + 24 * hour) "id1"
unfolding issue_credentials rate_limit_check recent find_token
is_issued = refl

issue_credentials-validate_example :
    (validate_one_time_token 20 "t1" (issue_credentials env 10 request draw empty).1).0
    ≡ valid "analyst" true (10 + 24 * hour)
issue_credentials-validate_example =
    issue_credentials-validate env 10 20 request draw empty "t1" "id1" (10 + 24 * hour) is_issued
      (omega arith)
