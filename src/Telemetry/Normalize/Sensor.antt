-- ===== src/Telemetry/Normalize/Sensor.antt =====
-- The sensor, the protocol and the severity of a record.
use shadow_trust_security.Prelude.{
  str_eq, ◌||◌, if◌then◌else◌, ℕ, String, Bool, false, List, [], ◌∷◌, not, Option, none, some,
  codes, contains, has_prefix, same_codes, lower, ◌==◌,
}
use shadow_trust_security.Telemetry.Normalize.Json.{
  text, value_of, first, or_else, dict_of, is_present, Json, str, truth, Members, Python,
}
use shadow_trust_security.Telemetry.Text.{strip}

abbrev pub known_sensors : List String
known_sensors = "cowrie" ∷ "dionaea" ∷ "honeytrap" ∷ []

-- `text in words`
abbrev pub is_word : List ℕ → List String → Bool
is_word cs [] = false
is_word cs (w ∷ ws) = same_codes cs (codes w) || is_word cs ws

-- `any(word in text for word in words)`
abbrev pub has_word : List ℕ → List String → Bool
has_word cs [] = false
has_word cs (w ∷ ws) = contains cs (codes w) || has_word cs ws

-- The first name that the text contains.
abbrev pub named : List ℕ → List String → Option String
named cs [] = none
named cs (name ∷ names) = if contains cs (codes name) then some name else named cs names

-- `str(_first(event, *keys) or "").lower()`
abbrev pub lower_first : Python → Members → List String → List ℕ
lower_first py event keys = lower py.lower_other (str py (or_else (first event keys) (text [])))

-- Once no sensor is named: what its record looks like.
unfoldable pub sensor_by_shape : Members → List ℕ → String
unfolding codes
sensor_by_shape event event_id =
    if has_prefix event_id (codes "cowrie.")
    then "cowrie"
    else if is_present "source-ip" event || is_present "destination-ip" event
    then "honeytrap"
    else elim (dict_of (value_of "connection" event)) [ some ms ↦ "dionaea" | none ↦ "unknown" ]

unfoldable pub detect_sensor : Python → Members → String
unfolding sensor_by_shape
detect_sensor py event =
    let declared = lower_first py event ("sensor" ∷ "system" ∷ "sensor_name" ∷ "honeypot" ∷ []) in
    let event_id = lower_first py event ("eventid" ∷ "event" ∷ "type" ∷ []) in
    elim (named declared known_sensors) [
      | some name ↦ name
      | none ↦ elim (named event_id known_sensors) [
        | some name ↦ name
        | none ↦ sensor_by_shape event event_id
      ]
    ]

abbrev pub port_protocol : List (ℕ × String)
port_protocol =
    (21, "ftp")
    ∷ (22, "ssh")
    ∷ (23, "telnet")
    ∷ (25, "smtp")
    ∷ (80, "http")
    ∷ (135, "msrpc")
    ∷ (139, "netbios")
    ∷ (443, "https")
    ∷ (445, "smb")
    ∷ (1433, "mssql")
    ∷ (3306, "mysql")
    ∷ (3389, "rdp")
    ∷ (5060, "sip")
    ∷ (5432, "postgres")
    ∷ (8022, "ssh")
    ∷ (8023, "telnet")
    ∷ (8080, "http")
    ∷ (2222, "ssh")
    ∷ (2223, "ssh")
    ∷ []

abbrev pub at_port : ℕ → List (ℕ × String) → Option String
at_port port [] = none
at_port port ((p, name) ∷ rows) = if p == port then some name else at_port port rows

-- `if port and port in PORT_PROTOCOL`
abbrev pub known_protocol : Option ℕ → Option String
known_protocol none = none
known_protocol (some port) = if port == 0 then none else at_port port port_protocol

-- `text or word`
abbrev pub or_word : List ℕ → String → List ℕ
or_word [] w = codes w
or_word (c ∷ cs) w = c ∷ cs

unfoldable pub derive_protocol : Python → Option ℕ → Json → List ℕ
unfolding truth str codes lower strip
derive_protocol py port declared =
    if truth declared
    then (let label = lower py.lower_other (strip (str py declared)) in
        if not (is_word label ("tcp" ∷ "udp" ∷ "" ∷ "unknown" ∷ []))
        then label
        else elim (known_protocol port) [ some name ↦ codes name | none ↦ or_word label "tcp" ])
    else elim (known_protocol port) [ some name ↦ codes name | none ↦ codes "tcp" ]

abbrev pub is_outcome : Option String → String → Bool
is_outcome none t = false
is_outcome (some s) t = str_eq s t

unfoldable pub derive_severity : Python → List ℕ → Option String → Json → String
unfolding truth codes lower
derive_severity py sensor_event_type auth_result command =
    let event_type = lower py.lower_other sensor_event_type in
    if has_word event_type ("file_download" ∷ "file_upload" ∷ "download" ∷ [])
    then "CRITICAL"
    else if truth command
    then "HIGH"
    else if is_outcome auth_result "SUCCESS"
    then "HIGH"
    else if is_outcome auth_result "FAILURE"
    then "MEDIUM"
    else if has_word event_type ("login" ∷ "auth" ∷ "credential" ∷ [])
    then "MEDIUM"
    else if has_word event_type ("connect" ∷ "session" ∷ "connection" ∷ [])
    then "LOW"
    else "INFO"
