-- ===== src/Credentials/SingleUse.antt =====
-- A token is accepted at most once.
use shadow_trust_security.Prelude.{
  ap, sym, ◌∙◌, ◌⊎◌, ℕ, suc, ◌+◌, ◌≤◌, ◌≡◌, refl, String, Bool, true, false, Option, none, some,
  List, [], ◌∷◌, ◌++◌, arith, if◌then◌else◌, str_eq, eq_iff, inl, inr, Bool-cases, Option-cases,
  ltb,
}
use shadow_trust_security.Credentials.{CredentialToken, Database}
use shadow_trust_security.Credentials.Operations.{
  token_of, Request, Environment, Draw, find_token, mark_used, use_token, validate_one_time_token,
  issue_credentials, record_issue, resend_credentials, log_activity,
}
use shadow_trust_security.Credentials.Operations.{resend as resend_audit}
use shadow_trust_security.Credentials.History.{Call, issue, validate, resend, accepted, step, run}

abbrev used_of : Option CredentialToken → Bool
used_of none = false
used_of (some t) = t.used

-- The row of the token is marked as used.
unfoldable is_spent : String → List CredentialToken → Bool
is_spent token tokens = used_of (find_token token tokens)

abbrev pub count : String → List String → ℕ
count x [] = 0
count x (y ∷ ys) = if str_eq y x then suc (count x ys) else count x ys

pub count-append : (x : String) (xs ys : List String) → count x (xs ++ ys) ≡ count x xs + count x ys
count-append x [] ys = omega arith
count-append x (y ∷ xs) ys = ground (arith, count-append x xs ys)

pub find_token-append :
    (token : String) (ts us : List CredentialToken) (t : CredentialToken)
    → find_token token ts ≡ some t
    → find_token token (ts ++ us) ≡ some t
unfolding find_token
find_token-append token [] us t h = ground arith
find_token-append token (u ∷ ts) us t h = ground (arith, find_token-append token ts us t)

is_spent-append :
    (token : String) (ts us : List CredentialToken)
    → is_spent token ts ≡ true
    → is_spent token (ts ++ us) ≡ true
unfolding is_spent
is_spent-append token ts us h = elim (Option-cases (find_token token ts)) [
  | inl e ↦ absurd (ground arith)
  | inr (t, e) ↦ rw (find_token-append token ts us t e) (ground arith)
]

is_spent-mark_used :
    (token other : String) (now : ℕ) (ts : List CredentialToken)
    → is_spent token ts ≡ true
    → is_spent token (mark_used other now ts) ≡ true
unfolding is_spent find_token mark_used
is_spent-mark_used token other now [] h = h
is_spent-mark_used token other now (t ∷ ts) h =
    ground (arith, is_spent-mark_used token other now ts)

mark_used-is_spent :
    (token : String) (now : ℕ) (ts : List CredentialToken) (t : CredentialToken)
    → find_token token ts ≡ some t
    → is_spent token (mark_used token now ts) ≡ true
unfolding is_spent find_token mark_used
mark_used-is_spent token now [] t h = ground arith
mark_used-is_spent token now (u ∷ ts) t h = ground (arith, mark_used-is_spent token now ts t)

token-find_token :
    (token : String) (ts : List CredentialToken) (t : CredentialToken)
    → find_token token ts ≡ some t
    → t.token ≡ token
unfolding find_token
token-find_token token [] t h = ground arith
token-find_token token (u ∷ ts) t h = elim (Bool-cases (str_eq u.token token)) [
  | inl e ↦ let same : u.token ≡ token = (eq_iff _ _).0 e in ground arith
  | inr e ↦ token-find_token token ts t (ground arith)
]

-- A row that is not used is not that of a spent token.
unspent :
    (token other : String) (t : CredentialToken) (ts : List CredentialToken)
    → is_spent token ts ≡ true
    → find_token other ts ≡ some t
    → t.used ≡ false
    → count token (other ∷ []) ≡ 0
unfolding is_spent
unspent token other t ts h e u = elim (Bool-cases (str_eq other token)) [
  | inl same ↦ absurd (let s : other ≡ token = (eq_iff _ _).0 same in ground arith)
  | inr differs ↦ rw differs refl
]

use_token-is_spent :
    (token other : String) (now : ℕ) (db : Database) (t : CredentialToken)
    → is_spent token db.tokens ≡ true
    → find_token other db.tokens ≡ some t
    → (is_spent token (use_token now db t).1.tokens ≡ true)
      × (count token (accepted other (use_token now db t).0) ≡ 0)
unfolding use_token
use_token-is_spent token other now db t h e = elim (Bool-cases t.used) [
  | inl u ↦ rw (use_token, u) (h, refl)
  | inr u ↦ elim (Bool-cases (ltb t.expires_at now)) [
    | inl late ↦ rw (use_token, u, late) (h, refl)
    | inr in_time ↦
        rw (use_token, u, in_time)
          (is_spent-mark_used token t.token now db.tokens h, unspent token other t db.tokens h e u)
  ]
]

validate_one_time_token-is_spent :
    (token other : String) (now : ℕ) (db : Database)
    → is_spent token db.tokens ≡ true
    → (is_spent token (validate_one_time_token now other db).1.tokens ≡ true)
      × (count token (accepted other (validate_one_time_token now other db).0) ≡ 0)
unfolding validate_one_time_token
validate_one_time_token-is_spent token other now db h =
    elim (Option-cases (find_token other db.tokens)) [
      | inl e ↦ rw (validate_one_time_token, e) (h, refl)
      | inr (t, e) ↦ rw (validate_one_time_token, e) (use_token-is_spent token other now db t h e)
    ]

-- A validation accepts the token at most once, and then it is spent.
validate-once :
    (token other : String) (now : ℕ) (db : Database)
    → let (v, db') = validate_one_time_token now other db in
      (count token (accepted other v) ≡ 0)
      ⊎ ((count token (accepted other v) ≡ 1) × (is_spent token db'.tokens ≡ true))
unfolding validate_one_time_token use_token
validate-once token other now db = elim (Option-cases (find_token other db.tokens)) [
  | inl e ↦ rw (validate_one_time_token, e) (inl refl)
  | inr (t, e) ↦ elim (Bool-cases t.used) [
    | inl u ↦ rw (validate_one_time_token, e, use_token, u) (inl refl)
    | inr u ↦ elim (Bool-cases (ltb t.expires_at now)) [
      | inl late ↦ rw (validate_one_time_token, e, use_token, u, late) (inl refl)
      | inr in_time ↦
          rw (validate_one_time_token, e, use_token, u, in_time)
            (elim (Bool-cases (str_eq other token)) [
              | inl same ↦ inr (rw same refl, found t e ((eq_iff _ _).0 same))
              | inr differs ↦ inl (rw differs refl)
            ])
    ]
  ]
]
  where
    found :
        (t : CredentialToken)
        → find_token other db.tokens ≡ some t
        → other ≡ token
        → is_spent token (mark_used t.token now db.tokens) ≡ true
    found t e same =
        let own : t.token ≡ token = token-find_token other db.tokens t e ∙ same in
        let e' : find_token token db.tokens ≡ some t =
          ap (λ s. find_token s db.tokens) (sym same) ∙ e in
        rw own (mark_used-is_spent token now db.tokens t e')

issue_credentials-is_spent :
    (token : String) (env : Environment) (now : ℕ) (r : Request) (draw : Draw) (db : Database)
    → is_spent token db.tokens ≡ true
    → is_spent token (issue_credentials env now r draw db).1.tokens ≡ true
unfolding issue_credentials record_issue
issue_credentials-is_spent token env now r draw db h =
    ground (arith, is_spent-append token db.tokens (token_of now r draw ∷ []))

tokens-resend_credentials :
    (env : Environment) (now : ℕ) (audit_id admin_id : String) (db : Database)
    → (resend_credentials env now audit_id admin_id db).1.tokens ≡ db.tokens
unfolding resend_credentials resend_audit log_activity
tokens-resend_credentials env now audit_id admin_id db = ground arith

step-is_spent :
    (env : Environment) (now : ℕ) (call : Call) (token : String) (db : Database)
    → is_spent token db.tokens ≡ true
    → (is_spent token (step env now call db).1.tokens ≡ true)
      × (count token (step env now call db).0 ≡ 0)
unfolding step
step-is_spent env now (issue r draw) token db h =
    (issue_credentials-is_spent token env now r draw db h, refl)
step-is_spent env now (validate other) token db h =
    validate_one_time_token-is_spent token other now db h
step-is_spent env now (resend audit_id admin_id) token db h =
    (rw (tokens-resend_credentials env now audit_id admin_id db) h, refl)

-- A token that is marked as used is not accepted again.
run-is_spent :
    (env : Environment) (calls : List (ℕ × Call)) (token : String) (db : Database)
    → is_spent token db.tokens ≡ true
    → count token (run env calls db).0 ≡ 0
unfolding run
run-is_spent env [] token db h = refl
run-is_spent env ((now, call) ∷ calls) token db h =
    let first = step-is_spent env now call token db h in
    let rest = run-is_spent env calls token (step env now call db).1 first.0 in
    omega (
      arith,
      first.1,
      rest,
      count-append token (step env now call db).0 (run env calls (step env now call db).1).0,
    )

step-once :
    (env : Environment) (now : ℕ) (call : Call) (token : String) (db : Database)
    → (count token (step env now call db).0 ≡ 0)
      ⊎ ((count token (step env now call db).0 ≡ 1)
          × (is_spent token (step env now call db).1.tokens ≡ true))
unfolding step
step-once env now (issue r draw) token db = inl refl
step-once env now (validate other) token db = validate-once token other now db
step-once env now (resend audit_id admin_id) token db = inl refl

-- Over any history of issuing, validating and resending, whatever the tables and the clock, a token
-- is accepted at most once.
pub run_accepts_once :
    (env : Environment) (calls : List (ℕ × Call)) (token : String) (db : Database)
    → count token (run env calls db).0 ≤ 1
unfolding run
run_accepts_once env [] token db = omega arith
run_accepts_once env ((now, call) ∷ calls) token db =
    let db' = (step env now call db).1 in
    let xs = (step env now call db).0 in
    let ys = (run env calls db').0 in
    elim (step-once env now call token db) [
      | inl none_yet ↦
          omega (arith, none_yet, run_accepts_once env calls token db', count-append token xs ys)
      | inr (once, spent) ↦
          omega (arith, once, run-is_spent env calls token db' spent, count-append token xs ys)
    ]
