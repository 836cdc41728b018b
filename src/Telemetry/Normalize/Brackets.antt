-- ===== src/Telemetry/Normalize/Brackets.antt =====
-- The connection in brackets that older builds of dionaea write.
use shadow_trust_security.Prelude.{
  and_right, ◌≢◌, and_left, ℕ, ◌≡◌, refl, ap, ◌∙◌, Bool, true, false, none, some, List, [], ◌∷◌,
  ◌++◌, arith, all, not, ◌==◌,
}
use shadow_trust_security.Telemetry.Normalize.Endpoint.{
  endpoint, match, search_connection, span, group, is_address_char, is_digit, Connection,
}
use shadow_trust_security.Telemetry.Normalize.Json.{Python}

span-all :
    (p : ℕ → Bool) (cs : List ℕ) (d : ℕ) (rest : List ℕ)
    → all p cs ≡ true
    → p d ≡ false
    → span p (cs ++ d ∷ rest) ≡ (cs, d ∷ rest)
span-all p [] d rest h stop = rw stop refl
span-all p (c ∷ cs) d rest h stop =
    let own = and_left (p c) (all p cs) h in
    rw own (ap (λ r. (c ∷ r.0, r.1)) (span-all p cs d rest (and_right (p c) (all p cs) h) stop))

-- A text with at least one character, all of a class.
pub record IsText (p : ℕ → Bool) (cs : List ℕ) : Type 0 where
  pub nonempty : cs ≢ []
  pub chars : all p cs ≡ true

group-all :
    (p : ℕ → Bool) (cs : List ℕ) (d : ℕ) (rest : List ℕ)
    → IsText p cs
    → p d ≡ false
    → group p (cs ++ d ∷ rest) ≡ some (cs, d ∷ rest)
unfolding group
group-all p [] d rest t stop = absurd (t.nonempty refl)
group-all p (c ∷ cs) d rest t stop =
    let e = span-all p (c ∷ cs) d rest t.chars stop in
    let found : (span p ((c ∷ cs) ++ d ∷ rest)).0 ≡ c ∷ cs = ap (λ r. r.0) e in
    let left : (span p ((c ∷ cs) ++ d ∷ rest)).1 ≡ d ∷ rest = ap (λ r. r.1) e in
    rw (group, found, left) refl

endpoint-all :
    (py : Python) (ip port : List ℕ) (d : ℕ) (rest : List ℕ)
    → IsText is_address_char ip
    → IsText (is_digit py) port
    → is_digit py d ≡ false
    → endpoint py (ip ++ 58 ∷ (port ++ d ∷ rest)) ≡ some ((ip, port), d ∷ rest)
unfolding endpoint
endpoint-all py ip port d rest is_ip is_port stop =
    rw
      (
        endpoint,
        group-all is_address_char ip 58 (port ++ d ∷ rest) is_ip refl,
        group-all (is_digit py) port d rest is_port stop,
      )
      refl

-- `[local:port->remote:port]`, with what comes after it.
abbrev pub bracketed : Connection → List ℕ → List ℕ
bracketed c after =
    91
    ∷ (c.local_ip
        ++ 58 ∷ (c.local_port ++ 45 ∷ 62 ∷ (c.remote_ip ++ 58 ∷ (c.remote_port ++ 93 ∷ after))))

-- Addresses of digits and dots, ports of digits.
pub record IsConnection (py : Python) (c : Connection) : Type 0 where
  pub local_ip : IsText is_address_char c.local_ip
  pub local_port : IsText (is_digit py) c.local_port
  pub remote_ip : IsText is_address_char c.remote_ip
  pub remote_port : IsText (is_digit py) c.remote_port

match-bracketed :
    (py : Python) (c : Connection) (after : List ℕ)
    → IsConnection py c
    → match py (bracketed c after) ≡ some c
unfolding match
match-bracketed py c after is_c =
    let remote = c.remote_ip ++ 58 ∷ (c.remote_port ++ 93 ∷ after) in
    rw
      (
        match,
        endpoint-all py c.local_ip c.local_port 45 (62 ∷ remote) is_c.local_ip is_c.local_port refl,
        endpoint-all py c.remote_ip c.remote_port 93 after is_c.remote_ip is_c.remote_port refl,
      )
      refl

no_match : (py : Python) (c : ℕ) (cs : List ℕ) → (c == 91) ≡ false → match py (c ∷ cs) ≡ none
unfolding match
no_match py c cs other = rw other refl

search_connection-skip :
    (py : Python) (before cs : List ℕ)
    → all (λ c. not (c == 91)) before ≡ true
    → search_connection py (before ++ cs) ≡ search_connection py cs
unfolding search_connection
search_connection-skip py [] cs h = refl
search_connection-skip py (c ∷ before) cs h =
    let other : (c == 91) ≡ false = ground arith in
    let rest : all (λ c. not (c == 91)) before ≡ true = and_right _ _ h in
    rw (search_connection, no_match py c (before ++ cs) other)
      (search_connection-skip py before cs rest)

-- The search finds exactly the connection that was written in brackets, whatever comes after it
-- and whatever without an opening bracket comes before it, where the addresses are digits and dots
-- and the ports digits.
pub search_connection-bracketed :
    (py : Python) (before after : List ℕ) (c : Connection)
    → all (λ c. not (c == 91)) before ≡ true
    → IsConnection py c
    → search_connection py (before ++ bracketed c after) ≡ some c
unfolding search_connection
search_connection-bracketed py before after c plain is_c =
    search_connection-skip py before (bracketed c after) plain
    ∙ rw (search_connection, match-bracketed py c after is_c) refl
