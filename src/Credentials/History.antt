-- ===== src/Credentials/History.antt =====
-- Histories of calls of the service.
use shadow_trust_security.Prelude.{ℕ, ◌≤◌, String, List, [], ◌∷◌, ◌++◌}
use shadow_trust_security.Credentials.{Database}
use shadow_trust_security.Credentials.Operations.{
  Validation, Request, Environment, Draw, validate_one_time_token, issue_credentials,
  resend_credentials,
}

pub data Call : Type 0 where
  issue : Request → Draw → Call
  validate : String → Call
  resend : String → String → Call

-- The token, if it was accepted.
abbrev pub accepted : String → Validation → List String
accepted token Validation.not_found = []
accepted token (Validation.already_used at) = []
accepted token (Validation.expired at) = []
accepted token (Validation.valid username force expires) = token ∷ []

unfoldable pub step : Environment → ℕ → Call → Database → List String × Database
step env now (issue r draw) db = ([], (issue_credentials env now r draw db).1)
step env now (validate token) db =
    let (v, db') = validate_one_time_token now token db in (accepted token v, db')
step env now (resend audit_id admin_id) db =
    ([], (resend_credentials env now audit_id admin_id db).1)

-- The tokens that the calls of a history accept, in order, and the tables after it.
unfoldable pub run : Environment → List (ℕ × Call) → Database → List String × Database
run env [] db = ([], db)
run env ((now, call) ∷ calls) db =
    let (xs, db') = step env now call db in let (ys, db'') = run env calls db' in (xs ++ ys, db'')

-- The clock does not run backwards.
abbrev pub IsOrdered : ℕ → List (ℕ × Call) → Type 0
IsOrdered now [] = Unit
IsOrdered now ((t, call) ∷ calls) = (now ≤ t) × IsOrdered t calls

abbrev pub last_time : ℕ → List (ℕ × Call) → ℕ
last_time now [] = now
last_time now ((t, call) ∷ calls) = last_time t calls
