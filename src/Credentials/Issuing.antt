-- ===== src/Credentials/Issuing.antt =====
-- What is issued can be used, and is accounted for.
use shadow_trust_security.Prelude.{
  ℕ, ◌+◌, ◌*◌, ◌≤◌, ◌≡◌, refl, String, none, some, List, [], ◌∷◌, ◌++◌, arith, eq_refl,
}
use shadow_trust_security.Credentials.{CredentialToken, Database}
use shadow_trust_security.Credentials.Operations.{
  Request, Environment, Draw, issued, valid, issue_credentials, record_issue, token_of, hour,
  validate_one_time_token, use_token, find_token,
}

-- What a call that issues has done.
issued_facts :
    (env : Environment) (now : ℕ) (r : Request) (draw : Draw) (db : Database) (token id : String)
    (expires : ℕ)
    → (issue_credentials env now r draw db).0 ≡ issued token expires id
    → (find_token draw.token db.tokens ≡ none)
      × (token ≡ draw.token)
      × (expires ≡ now + r.token_expires_hours * hour)
      × ((issue_credentials env now r draw db).1 ≡ record_issue env now r draw db)
unfolding issue_credentials
issued_facts env now r draw db token id expires h = ground arith

find_token-append_none :
    (token : String) (ts us : List CredentialToken)
    → find_token token ts ≡ none
    → find_token token (ts ++ us) ≡ find_token token us
unfolding find_token
find_token-append_none token [] us h = refl
find_token-append_none token (t ∷ ts) us h = ground (arith, find_token-append_none token ts us)

find_new :
    (env : Environment) (now : ℕ) (r : Request) (draw : Draw) (db : Database)
    → find_token draw.token db.tokens ≡ none
    → find_token draw.token (record_issue env now r draw db).tokens ≡ some (token_of now r draw)
unfolding record_issue find_token
find_new env now r draw db fresh =
    rw
      (
        find_token-append_none draw.token db.tokens (token_of now r draw ∷ []) fresh,
        find_token,
        eq_refl draw.token,
      )
      refl

validate_new :
    (env : Environment) (now later : ℕ) (r : Request) (draw : Draw) (db : Database)
    → find_token draw.token db.tokens ≡ none
    → later ≤ now + r.token_expires_hours * hour
    → (validate_one_time_token later draw.token (record_issue env now r draw db)).0
      ≡ valid r.username r.force_password_change (now + r.token_expires_hours * hour)
unfolding validate_one_time_token use_token
validate_new env now later r draw db fresh in_time =
    rw (validate_one_time_token, find_new env now r draw db fresh) (ground arith)

-- A token that was issued is accepted until it expires, for the user and with the password policy
-- that it was issued for, whatever was in the tables.
pub issue_credentials-validate :
    (env : Environment) (now later : ℕ) (r : Request) (draw : Draw) (db : Database)
    (token id : String) (expires : ℕ)
    → (issue_credentials env now r draw db).0 ≡ issued token expires id
    → later ≤ expires
    → (validate_one_time_token later token (issue_credentials env now r draw db).1).0
      ≡ valid r.username r.force_password_change expires
issue_credentials-validate env now later r draw db token id expires h in_time =
    let (fresh, is_token, is_expires, after) = issued_facts env now r draw db token id expires h in
    let new = validate_new env now later r draw db fresh (omega (arith, in_time, is_expires)) in cc
