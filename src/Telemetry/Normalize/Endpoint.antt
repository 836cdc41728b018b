-- ===== src/Telemetry/Normalize/Endpoint.antt =====
-- Addresses and ports: `_clean_ip`, `_clean_port`, and the search for the connection in brackets,
-- `\[([0-9.]+):(\d+)->([0-9.]+):(\d+)\]`. Where a step may raise, `none` is that it raises.
use shadow_trust_security.Prelude.{
  ◌&&◌, ◌||◌, not, leb, some, ◌==◌, codes, none, if◌then◌else◌, Option, Bool, ℕ, String, [], ltb,
  ◌∷◌, List,
}
use shadow_trust_security.Telemetry.Normalize.Json.{
  is_blank, Json, Python, int, str, null, number, invalid, overflow,
}
use shadow_trust_security.Telemetry.Text.{strip}
use shadow_trust_security.Telemetry.Normalize.Sensor.{is_word}

infixl 5 ◌>>=◌
abbrev pub ◌>>=◌ {ℓ κ} : {A : Type ℓ} {B : Type κ} → Option A → (A → Option B) → Option B
none >>= f = none
some a >>= f = f a

abbrev pub empty_ips : List String
empty_ips = "" ∷ "0.0.0.0" ∷ "::" ∷ "None" ∷ "null" ∷ []

unfoldable pub clean_ip : Python → Json → Option (List ℕ)
unfolding str codes strip
clean_ip py null = none
clean_ip py v = let ip = strip (str py v) in if is_word ip empty_ips then none else some ip

-- `port if 0 < port <= 65535 else None`
abbrev pub in_range : Bool → ℕ → Option ℕ
in_range negative size = if not negative && (ltb 0 size && leb size 65535) then some size else none

-- The OverflowError of an infinite number is not caught.
unfoldable pub clean_port : Python → Json → Option (Option ℕ)
unfolding int
clean_port py v = if is_blank v then some none else elim (int py v) [
  | number negative size ↦ some (in_range negative size)
  | invalid ↦ some none
  | overflow ↦ none
]

abbrev pub is_address_char : ℕ → Bool
is_address_char c = (c == 46) || (leb 48 c && leb c 57)

abbrev pub is_digit : Python → ℕ → Bool
is_digit py c = if leb 128 c then py.digit_other c else leb 48 c && leb c 57

-- The longest start whose characters pass, and the rest.
abbrev pub span : (ℕ → Bool) → List ℕ → List ℕ × List ℕ
span p [] = ([], [])
span p (c ∷ cs) = if p c then (c ∷ (span p cs).0, (span p cs).1) else ([], c ∷ cs)

-- A group with at least one character. The character after it is not in its class, so the longest
-- start is the one that can match.
unfoldable pub group : (ℕ → Bool) → List ℕ → Option (List ℕ × List ℕ)
group p cs =
    let (found, rest) = span p cs in elim found [ [] ↦ none | d ∷ ds ↦ some (d ∷ ds, rest) ]

abbrev pub expect : ℕ → List ℕ → Option (List ℕ)
expect d [] = none
expect d (c ∷ cs) = if c == d then some cs else none

pub record Connection : Type 0 where
  pub local_ip : List ℕ
  pub local_port : List ℕ
  pub remote_ip : List ℕ
  pub remote_port : List ℕ

-- The address and the port with a colon between them.
unfoldable pub endpoint : Python → List ℕ → Option ((List ℕ × List ℕ) × List ℕ)
unfolding group
endpoint py cs = do
  (ip, after_ip) ← group is_address_char cs
  after_colon ← expect 58 after_ip
  (port, rest) ← group (is_digit py) after_colon
  some ((ip, port), rest)

-- A match at the start of the text.
unfoldable pub match : Python → List ℕ → Option Connection
unfolding endpoint
match py cs = do
  opened ← expect 91 cs
  ((local_ip, local_port), after_local) ← endpoint py opened
  dash ← expect 45 after_local
  arrow ← expect 62 dash
  ((remote_ip, remote_port), after_remote) ← endpoint py arrow
  closed ← expect 93 after_remote
  some (record {
    local_ip = local_ip;
    local_port = local_port;
    remote_ip = remote_ip;
    remote_port = remote_port;
  })

-- The first match anywhere in the text.
unfoldable pub search_connection : Python → List ℕ → Option Connection
unfolding match
search_connection py [] = match py []
search_connection py (c ∷ cs) =
    let later = search_connection py cs in
    elim (match py (c ∷ cs)) [ some m ↦ some m | none ↦ later ]
