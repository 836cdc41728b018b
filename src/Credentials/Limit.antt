-- ===== src/Credentials/Limit.antt =====
-- What an administrator may do within an hour.
use shadow_trust_security.Prelude.{
  Option-cases, sym, ◌⊎◌, ℕ, suc, ◌≤◌, ◌<◌, ◌≡◌, String, true, List, [], ◌∷◌, ◌++◌, arith, keep,
  keep-append, length-append, str_eq, eq_iff, Bool-cases, inl, inr, ltb→lt,
}
use shadow_trust_security.Credentials.History.{
  step, run, Call, issue, validate, resend, IsOrdered, last_time,
}
use shadow_trust_security.Credentials.{AdminActivity, Database}
use shadow_trust_security.Credentials.Operations.{find_audit, log_activity, resend as resend_audit}
use shadow_trust_security.Credentials.Operations.{
  use_token, resend_credentials, validate_one_time_token, Request, Environment, Draw, recent,
  rate_limit_check, counts_for, activity_of, issue_credentials, record_issue,
}

-- Fewer activities are recent at a later time.
recent_mono :
    (admin : String) (now later : ℕ) (activities : List AdminActivity)
    → now ≤ later
    → recent admin later activities ≤ recent admin now activities
unfolding recent
recent_mono admin now later [] h = omega arith
recent_mono admin now later (a ∷ rest) h = ground (arith, recent_mono admin now later rest h)

-- A new activity counts once, for its administrator alone.
recent_step :
    (admin owner action username : String) (now : ℕ) (activities : List AdminActivity)
    → (recent admin now (activities ++ activity_of now owner action username ∷ [])
        ≤ recent admin now activities)
      ⊎ ((owner ≡ admin)
          × (recent admin now (activities ++ activity_of now owner action username ∷ [])
              ≤ suc (recent admin now activities)))
unfolding recent
recent_step admin owner action username now activities =
    let a = activity_of now owner action username in
    elim (Bool-cases (str_eq owner admin)) [
      | inl same ↦ inr (
        (eq_iff _ _).0 same,
        rw (keep-append (counts_for admin now) activities (a ∷ [])) (
            ground (
              arith,
              length-append (keep (counts_for admin now) activities)
                  (keep (counts_for admin now) (a ∷ [])),
            )),
      )
      | inr differs ↦ inl (
          rw (keep-append (counts_for admin now) activities (a ∷ [])) (
            ground (
              arith,
              length-append (keep (counts_for admin now) activities)
                  (keep (counts_for admin now) (a ∷ [])),
            )))
    ]

-- No administrator has more recent activities than the limit.
abbrev pub IsWithinLimit : Environment → ℕ → Database → Type 0
IsWithinLimit env now db = (admin : String) → recent admin now db.activities ≤ env.rate_limit_max

-- One new activity, behind the check.
logged :
    (env : Environment) (owner action username : String) (now : ℕ) (db : Database)
    → IsWithinLimit env now db
    → rate_limit_check env.rate_limit_max owner now db ≡ true
    → (admin : String)
    → recent admin now (db.activities ++ activity_of now owner action username ∷ [])
      ≤ env.rate_limit_max
unfolding rate_limit_check
logged env owner action username now db within passed admin =
    elim (recent_step admin owner action username now db.activities) [
      | inl same ↦ omega (arith, same, within admin)
      | inr (is_owner, more) ↦
          let below : recent owner now db.activities < env.rate_limit_max = ltb→lt _ _ passed in
          let below' : recent admin now db.activities < env.rate_limit_max =
            rw (sym is_owner) below in
          omega (arith, more, below')
    ]

issue_credentials-IsWithinLimit :
    (env : Environment) (now : ℕ) (r : Request) (draw : Draw) (db : Database)
    → IsWithinLimit env now db
    → IsWithinLimit env now (issue_credentials env now r draw db).1
unfolding issue_credentials record_issue
issue_credentials-IsWithinLimit env now r draw db within admin =
    elim (Bool-cases (rate_limit_check env.rate_limit_max r.admin_id now db)) [
      | inl passed ↦ ground (
        arith,
        within admin,
        logged env r.admin_id "ISSUE_CREDENTIALS" r.username now db within passed admin,
      )
      | inr over ↦ ground (arith, within admin)
    ]

resend_credentials-IsWithinLimit :
    (env : Environment) (now : ℕ) (audit_id admin_id : String) (db : Database)
    → IsWithinLimit env now db
    → IsWithinLimit env now (resend_credentials env now audit_id admin_id db).1
unfolding resend_credentials resend_audit log_activity
resend_credentials-IsWithinLimit env now audit_id admin_id db within admin =
    elim (Option-cases (find_audit audit_id db.audits)) [
      | inl e ↦ rw (resend_credentials, e) (within admin)
      | inr (audit, e) ↦ elim (Bool-cases (rate_limit_check env.rate_limit_max admin_id now db)) [
        | inl passed ↦
            rw (resend_credentials, e, passed)
              (logged env admin_id "RESEND_CREDENTIALS" audit.username now db within passed admin)
        | inr over ↦ rw (resend_credentials, e, over) (within admin)
      ]
    ]

activities-validate_one_time_token :
    (now : ℕ) (token : String) (db : Database)
    → (validate_one_time_token now token db).1.activities ≡ db.activities
unfolding validate_one_time_token use_token
activities-validate_one_time_token now token db = ground arith

step-IsWithinLimit :
    (env : Environment) (now : ℕ) (call : Call) (db : Database)
    → IsWithinLimit env now db
    → IsWithinLimit env now (step env now call db).1
unfolding step
step-IsWithinLimit env now (issue r draw) db within =
    issue_credentials-IsWithinLimit env now r draw db within
step-IsWithinLimit env now (validate token) db within =
    λ admin. rw (activities-validate_one_time_token now token db) (within admin)
step-IsWithinLimit env now (resend audit_id admin_id) db within =
    resend_credentials-IsWithinLimit env now audit_id admin_id db within

-- Over a history whose clock does not run backwards, starting within the limit, no administrator
-- ever has more than the limit of recorded operations in the hour before the last call.
pub run-IsWithinLimit :
    (env : Environment) (now : ℕ) (calls : List (ℕ × Call)) (db : Database)
    → IsOrdered now calls
    → IsWithinLimit env now db
    → IsWithinLimit env (last_time now calls) (run env calls db).1
unfolding run
run-IsWithinLimit env now [] db ordered within = within
run-IsWithinLimit env now ((t, call) ∷ calls) db ordered within =
    let still : IsWithinLimit env t db =
      (λ admin. omega (arith, within admin, recent_mono admin now t db.activities ordered.0)) in
    run-IsWithinLimit env t calls (step env t call db).1 ordered.1
      (step-IsWithinLimit env t call db still)
