-- ===== src/Telemetry/Normalize/Usable.antt =====
-- What a normalized event is like, and when a record is lost.
use shadow_trust_security.Prelude.{
  ◌&&◌, lower, eq_refl, str_eq, codes, if◌then◌else◌, contains, false≢true, has_prefix, ℕ, ◌≡◌,
  refl, sym, ◌∙◌, subst, String, Bool, true, false, Option, some, List, [], ◌∷◌, arith, Bool-cases,
  Option-cases, inl, inr, elem, ◌||◌,
}
use shadow_trust_security.Telemetry.Normalize.Event.{
  parse, parse_timestamp, built, event_type_of, default_port, normalize, finish, is_heartbeat,
  is_dropped_loopback, NormalizedEvent, dropped, raised, stored, Libraries,
}
use shadow_trust_security.Telemetry.Normalize.Sensor.{
  has_word, is_outcome, is_word, lower_first, named, detect_sensor, sensor_by_shape,
  derive_severity, known_sensors,
}
use shadow_trust_security.Telemetry.Normalize.Json.{
  first, value_of, dict_of, is_present, truth, Members, Json, Python,
}
use shadow_trust_security.Telemetry.Normalize.Clean.{
  placeholders, or_option-IsPort, parse-IsClean, IsClean, IsAddress, IsPort,
}
use shadow_trust_security.Telemetry.Normalize.Parsers.{Parsed}

abbrev pub sensors : List String
sensors = "unknown" ∷ "cowrie" ∷ "dionaea" ∷ "honeytrap" ∷ []

-- The texts of the own host.
abbrev pub local_addresses : List String
local_addresses = "127.0.0.1" ∷ "::1" ∷ "0.0.0.0" ∷ "::" ∷ "localhost" ∷ []

abbrev pub severities : List String
severities = "INFO" ∷ "LOW" ∷ "MEDIUM" ∷ "HIGH" ∷ "CRITICAL" ∷ []

-- An event that the dashboard can attribute.
pub record IsAttributable (py : Python) (lib : Libraries) (e : NormalizedEvent) : Type 0 where
  pub source : is_word e.source_ip placeholders ≡ false
  pub not_loopback :
      elem lib.drop_loopback ("1" ∷ "true" ∷ "yes" ∷ []) ≡ true
      → is_word e.source_ip local_addresses ≡ false
  pub source_port : IsPort e.source_port
  pub destination_ip : IsAddress e.destination_ip
  pub destination_port : IsPort e.destination_port
  pub no_heartbeat : contains (lower py.lower_other e.sensor_event_type) (codes "heartbeat") ≡ false
  pub known_sensor : elem e.sensor sensors ≡ true
  pub known_severity : elem e.severity severities ≡ true

-- The tests of `derive_severity` in their order.
abbrev ladder : Bool → Bool → Bool → Bool → Bool → Bool → String
ladder download command success failure login connection =
    if download
    then "CRITICAL"
    else if command
    then "HIGH"
    else if success
    then "HIGH"
    else if failure
    then "MEDIUM"
    else if login
    then "MEDIUM"
    else if connection
    then "LOW"
    else "INFO"

ladder-known : (a b c d e f : Bool) → elem (ladder a b c d e f) severities ≡ true
ladder-known true b c d e f = refl
ladder-known false true c d e f = refl
ladder-known false false true d e f = refl
ladder-known false false false true e f = refl
ladder-known false false false false true f = refl
ladder-known false false false false false true = refl
ladder-known false false false false false false = refl

ladder-high :
    (a b c d e f : Bool)
    → (b || c) ≡ true
    → elem (ladder a b c d e f) ("HIGH" ∷ "CRITICAL" ∷ []) ≡ true
ladder-high true b c d e f h = refl
ladder-high false true c d e f h = refl
ladder-high false false true d e f h = refl
ladder-high false false false d e f h = absurd (false≢true h)

derive_severity-known :
    (py : Python) (event_type : List ℕ) (auth : Option String) (command : Json)
    → elem (derive_severity py event_type auth command) severities ≡ true
unfolding derive_severity
derive_severity-known py event_type auth command =
    ladder-known
      (has_word (lower py.lower_other event_type)
        ("file_download" ∷ "file_upload" ∷ "download" ∷ []))
      (truth command) (is_outcome auth "SUCCESS") (is_outcome auth "FAILURE")
      (has_word (lower py.lower_other event_type) ("login" ∷ "auth" ∷ "credential" ∷ []))
      (has_word (lower py.lower_other event_type) ("connect" ∷ "session" ∷ "connection" ∷ []))

derive_severity-high :
    (py : Python) (event_type : List ℕ) (auth : Option String) (command : Json)
    → (truth command || is_outcome auth "SUCCESS") ≡ true
    → elem (derive_severity py event_type auth command) ("HIGH" ∷ "CRITICAL" ∷ []) ≡ true
unfolding derive_severity
derive_severity-high py event_type auth command h =
    ladder-high
      (has_word (lower py.lower_other event_type)
        ("file_download" ∷ "file_upload" ∷ "download" ∷ []))
      (truth command) (is_outcome auth "SUCCESS") (is_outcome auth "FAILURE")
      (has_word (lower py.lower_other event_type) ("login" ∷ "auth" ∷ "credential" ∷ []))
      (has_word (lower py.lower_other event_type) ("connect" ∷ "session" ∷ "connection" ∷ [])) h

elem-named :
    (cs : List ℕ) (names : List String) (name : String)
    → named cs names ≡ some name
    → elem name names ≡ true
elem-named cs [] name h = absurd (ground arith)
elem-named cs (n ∷ names) name h = elim (Bool-cases (contains cs (codes n))) [
  | inl y ↦
      let at : named cs (n ∷ names) ≡ some n = rw y refl in
      let same : n ≡ name = cc in rw same (rw (eq_refl name) refl)
  | inr other ↦
      let at : named cs (n ∷ names) ≡ named cs names = rw other refl in
      let rest : elem name names ≡ true = elem-named cs names name (sym at ∙ h) in ground arith
]

known-named :
    (cs : List ℕ) (name : String) → named cs known_sensors ≡ some name → elem name sensors ≡ true
known-named cs name h = let known = elem-named cs known_sensors name h in ground arith

sensor_by_shape-known :
    (event : Members) (id : List ℕ) → elem (sensor_by_shape event id) sensors ≡ true
unfolding sensor_by_shape
sensor_by_shape-known event id = elim (Bool-cases (has_prefix id (codes "cowrie."))) [
  | inl y ↦ rw y refl
  | inr n ↦ elim (Bool-cases (is_present "source-ip" event || is_present "destination-ip" event)) [
    | inl y ↦ rw (n, y) refl
    | inr m ↦ elim (Option-cases (dict_of (value_of "connection" event))) [
      | inl e ↦ rw (n, m, e) refl
      | inr (ms, e) ↦ rw (n, m, e) refl
    ]
  ]
]

detect_sensor-known : (py : Python) (event : Members) → elem (detect_sensor py event) sensors ≡ true
unfolding detect_sensor
detect_sensor-known py event =
    let declared = lower_first py event ("sensor" ∷ "system" ∷ "sensor_name" ∷ "honeypot" ∷ []) in
    let event_id = lower_first py event ("eventid" ∷ "event" ∷ "type" ∷ []) in
    elim (Option-cases (named declared known_sensors)) [
      | inr (name, e) ↦ rw (detect_sensor, e) (known-named declared name e)
      | inl e ↦ elim (Option-cases (named event_id known_sensors)) [
        | inr (name, e') ↦ rw (detect_sensor, e, e') (known-named event_id name e')
        | inl e' ↦ rw (detect_sensor, e, e') (sensor_by_shape-known event event_id)
      ]
    ]

finish-stored :
    (py : Python) (lib : Libraries) (raw : Members) (sensor : String) (p : Parsed)
    (e : NormalizedEvent)
    → finish py lib raw sensor p ≡ stored e
    → (ip : List ℕ) × (t : ℕ) × (p.source_ip ≡ some ip)
      × (is_dropped_loopback lib ip ≡ false)
      × (is_heartbeat py (event_type_of p) ≡ false)
      × (built py lib raw sensor p ip t ≡ e)
unfolding finish
finish-stored py lib raw sensor p e h = elim (Bool-cases (is_heartbeat py (event_type_of p))) [
  | inl y ↦ let at : finish py lib raw sensor p ≡ dropped = rw (finish, y) refl in absurd (cc)
  | inr other ↦ elim (Option-cases p.source_ip) [
    | inl nothing ↦
        let at : finish py lib raw sensor p ≡ dropped = rw (finish, other, nothing) refl in
        absurd (cc)
    | inr (ip, found) ↦ elim (Bool-cases (is_dropped_loopback lib ip)) [
      | inl y ↦
          let at : finish py lib raw sensor p ≡ dropped = rw (finish, other, found, y) refl in
          absurd (cc)
      | inr far ↦
          elim (Option-cases (
            parse_timestamp py lib
              (first raw ("timestamp" ∷ "time" ∷ "date" ∷ "@timestamp" ∷ [])))) [
                | inl none_read ↦
                    let at : finish py lib raw sensor p ≡ raised =
                      rw (finish, other, found, far, none_read) refl in
                    absurd (cc)
                | inr (t, read) ↦
                    let at : finish py lib raw sensor p ≡ stored (built py lib raw sensor p ip t) =
                      rw (finish, other, found, far, read) refl in
                    (ip, t, found, far, other, cc)
              ]
    ]
  ]
]

default_port-IsPort : (sensor : String) → IsPort (default_port sensor)
default_port-IsPort sensor = elim (Bool-cases (str_eq sensor "cowrie")) [
  | inl y ↦ rw y (omega arith, omega arith)
  | inr n ↦ elim (Bool-cases (str_eq sensor "dionaea")) [
    | inl y ↦ rw n (rw y (omega arith, omega arith))
    | inr m ↦ elim (Bool-cases (str_eq sensor "honeytrap")) [
      | inl y ↦ rw n (rw m (rw y (omega arith, omega arith)))
      | inr k ↦ rw n (rw m (rw k tt))
    ]
  ]
]

-- The parsed record behind an event.
normalize-stored :
    (py : Python) (lib : Libraries) (v : Json) (e : NormalizedEvent)
    → normalize py lib v ≡ stored e
    → (raw : Members) × (p : Parsed) × IsClean p
      × (finish py lib raw (detect_sensor py raw) p ≡ stored e)
unfolding normalize
normalize-stored py lib v e h = elim (Option-cases (dict_of v)) [
  | inl other ↦ let at : normalize py lib v ≡ dropped = rw (normalize, other) refl in absurd (cc)
  | inr (raw, found) ↦ elim (Option-cases (parse py (detect_sensor py raw) raw)) [
    | inl other ↦
        let at : normalize py lib v ≡ dropped = rw (normalize, found, other) refl in absurd (cc)
    | inr (p, parsed) ↦
        let at : normalize py lib v ≡ finish py lib raw (detect_sensor py raw) p =
          rw (normalize, found, parsed) refl in
        (raw, p, parse-IsClean py raw p (detect_sensor py raw) parsed, sym at ∙ h)
  ]
]

and_left_false : (a b : Bool) → (a && b) ≡ false → b ≡ true → a ≡ false
and_left_false a b h e = ground arith

-- An event that `normalize` makes of any value has a source address that is not empty, "0.0.0.0",
-- "::", "None" or "null", and none of "127.0.0.1", "::1", "0.0.0.0", "::" and "localhost" when
-- loopback is dropped; a destination address, if any, that is none of the first five; ports, if any,
-- from 1 to 65535; a type without the word heartbeat; a sensor that is cowrie, dionaea, honeytrap or
-- "unknown"; and one of the five severities.
pub normalize-IsAttributable :
    (py : Python) (lib : Libraries) (v : Json) (e : NormalizedEvent)
    → normalize py lib v ≡ stored e
    → IsAttributable py lib e
normalize-IsAttributable py lib v e h =
    let (raw, p, clean, made) = normalize-stored py lib v e h in
    let sensor = detect_sensor py raw in
    let (ip, t, found, far, calm, same) = finish-stored py lib raw sensor p e made in
    subst (IsAttributable py lib) same (record {
      source = subst IsAddress found clean.source_ip;
      not_loopback = λ dropping. and_left_false _ _ far dropping;
      source_port = clean.source_port;
      destination_ip = clean.destination_ip;
      destination_port = or_option-IsPort _ _ clean.destination_port (default_port-IsPort sensor);
      no_heartbeat = calm;
      known_sensor = detect_sensor-known py raw;
      known_severity = derive_severity-known py (event_type_of p) p.authentication_result p.command;
    })

-- An event with a command, or with a successful authentication, is of severity HIGH or CRITICAL.
pub normalize-severity :
    (py : Python) (lib : Libraries) (v : Json) (e : NormalizedEvent)
    → normalize py lib v ≡ stored e
    → (truth e.command || is_outcome e.authentication_result "SUCCESS") ≡ true
    → elem e.severity ("HIGH" ∷ "CRITICAL" ∷ []) ≡ true
normalize-severity py lib v e h serious =
    let (raw, p, clean, made) = normalize-stored py lib v e h in
    let sensor = detect_sensor py raw in
    let (ip, t, found, far, calm, same) = finish-stored py lib raw sensor p e made in
    let event_type = event_type_of p in
    let before =
      subst (λ e. (truth e.command || is_outcome e.authentication_result "SUCCESS") ≡ true)
        (sym same) serious in
    subst (λ e. elem e.severity ("HIGH" ∷ "CRITICAL" ∷ []) ≡ true) same
      (derive_severity-high py event_type p.authentication_result p.command before)
