-- ===== src/Telemetry/Normalize/Event.antt =====
-- `parse_timestamp`, `compute_event_id` and `normalize`.
use shadow_trust_security.Prelude.{
  leb, false, elem, lower, ltb, ◌==◌, ◌&&◌, str_eq, true, if◌then◌else◌, ℕ, ◌+◌, ◌-◌, String, Bool,
  List, [], ◌∷◌, ◌++◌, Option, none, some, codes, contains, take,
}
use shadow_trust_security.Telemetry.Normalize.Json.{
  set_default, or_else, null, first, str, dict_of, truth, Python, Members, Json, text,
}
use shadow_trust_security.Telemetry.Normalize.Parsers.{
  parse_honeytrap, parse_generic, Parsed, parse_cowrie,
}
use shadow_trust_security.Telemetry.Normalize.Sensor.{
  or_word, derive_severity, is_word, derive_protocol, detect_sensor,
}
use shadow_trust_security.Telemetry.Normalize.Dionaea.{parse_dionaea, or_option}
use shadow_trust_security.Telemetry.Text.{strip}

-- A datetime: the microseconds since the start of year 1, and the offset of its zone if it has one
-- (whether it is west of UTC, and its size).
pub record Datetime : Type 0 where
  pub local : ℕ
  pub offset : Option (Bool × ℕ)

-- The start of year 10000.
abbrev pub datetime_end : ℕ
datetime_end = 315537897600000000

-- What the code takes from json, hashlib, datetime and the environment: `dumps sort_keys event`,
-- the digest in hexadecimal, the clock, the two ways to read a date, and TELEMETRY_DROP_LOOPBACK.
pub record Libraries : Type 0 where
  pub dumps : Bool → Members → List ℕ
  pub sha256 : List ℕ → List ℕ
  pub utcnow : ℕ
  pub fromisoformat : List ℕ → Option Datetime
  pub strptime : String → List ℕ → Option Datetime
  pub drop_loopback : String

-- `dt.astimezone(utc)`, which raises OverflowError outside the years 1 to 9999.
abbrev pub to_utc : Datetime → Option ℕ
to_utc d = elim d.offset [
  | none ↦ some d.local
  | some (west, size) ↦
      if west
      then (if ltb (d.local + size) datetime_end then some (d.local + size) else none)
      else if leb size d.local
      then some (d.local - size)
      else none
]

-- `text.replace("Z", "+00:00")`
abbrev pub zone_spelled : List ℕ → List ℕ
zone_spelled [] = []
zone_spelled (c ∷ cs) = (if c == 90 then codes "+00:00" else c ∷ []) ++ zone_spelled cs

abbrev pub formats : List String
formats =
    "%Y-%m-%dT%H:%M:%S.%fZ" ∷ "%Y-%m-%dT%H:%M:%SZ" ∷ "%Y-%m-%d %H:%M:%S" ∷ "%d/%b/%Y:%H:%M:%S" ∷ []

abbrev pub by_format : Libraries → List ℕ → List String → Option Datetime
by_format lib cs [] = none
by_format lib cs (f ∷ fs) = elim (lib.strptime f cs) [
  | some d ↦ some d
  | none ↦ by_format lib cs fs
]

unfoldable pub parse_timestamp : Python → Libraries → Json → Option ℕ
unfolding truth str codes strip
parse_timestamp py lib v = elim (strip (str py (or_else v (text [])))) [
  | [] ↦ some lib.utcnow
  | c ∷ cs ↦ elim (lib.fromisoformat (zone_spelled (c ∷ cs))) [
    | some d ↦ to_utc d
    | none ↦ elim (by_format lib (c ∷ cs) formats) [ some d ↦ to_utc d | none ↦ some lib.utcnow ]
  ]
]

unfoldable pub compute_event_id : Libraries → Members → List ℕ
compute_event_id lib event = take 32 (lib.sha256 (lib.dumps true event))

abbrev pub loopback_ips : List String
loopback_ips = "127.0.0.1" ∷ "::1" ∷ "0.0.0.0" ∷ "::" ∷ "localhost" ∷ []

abbrev pub default_port : String → Option ℕ
default_port sensor =
    if str_eq sensor "cowrie"
    then some 2222
    else if str_eq sensor "dionaea"
    then some 445
    else if str_eq sensor "honeytrap"
    then some 8022
    else none

-- `PARSERS.get(sensor, parse_generic)`
unfoldable pub parser : String → Python → Members → Option Parsed
unfolding parse_cowrie parse_dionaea parse_honeytrap parse_generic
parser sensor =
    if str_eq sensor "cowrie"
    then parse_cowrie
    else if str_eq sensor "dionaea"
    then parse_dionaea
    else if str_eq sensor "honeytrap"
    then parse_honeytrap
    else parse_generic

-- The generic parser takes over when the sensor's raises.
unfoldable pub parse : Python → String → Members → Option Parsed
unfolding parser parse_generic
parse py sensor event = or_option (parser sensor py event) (parse_generic py event)

-- The columns of a stored event.
pub record NormalizedEvent : Type 0 where
  pub event_id : List ℕ
  pub timestamp : ℕ
  pub sensor : String
  pub sensor_event_type : List ℕ
  pub source_ip : List ℕ
  pub protocol : List ℕ
  pub severity : String
  pub raw_event : List ℕ
  pub source_port : Option ℕ
  pub destination_ip : Option (List ℕ)
  pub destination_port : Option ℕ
  pub username : Json
  pub password : Json
  pub authentication_result : Option String
  pub command : Json
  pub payload : Json
  pub session_id : Json
  pub metadata : Members

-- `None`, an event, or an exception.
pub data Result : Type 0 where
  dropped raised : Result
  stored : NormalizedEvent → Result

-- `parsed.get("sensor_event_type") or "event"`
abbrev pub event_type_of : Parsed → List ℕ
event_type_of p = or_word p.sensor_event_type "event"

abbrev pub destination_port_of : String → Parsed → Option ℕ
destination_port_of sensor p = or_option p.destination_port (default_port sensor)

abbrev pub built : Python → Libraries → Members → String → Parsed → List ℕ → ℕ → NormalizedEvent
built py lib raw sensor p source_ip timestamp =
    let event_type = event_type_of p in
    let destination_port = destination_port_of sensor p in
    record {
      event_id = compute_event_id lib raw;
      timestamp = timestamp;
      sensor = sensor;
      sensor_event_type = event_type;
      source_ip = source_ip;
      protocol = derive_protocol py destination_port p.protocol_hint;
      severity = derive_severity py event_type p.authentication_result p.command;
      raw_event = lib.dumps false raw;
      source_port = p.source_port;
      destination_ip = p.destination_ip;
      destination_port = destination_port;
      username = p.username;
      password = p.password;
      authentication_result = p.authentication_result;
      command = p.command;
      payload = null;
      session_id = p.session_id;
      metadata = set_default "detected_sensor" (text (codes sensor)) p.metadata;
    }

abbrev pub is_heartbeat : Python → List ℕ → Bool
is_heartbeat py event_type = contains (lower py.lower_other event_type) (codes "heartbeat")

abbrev pub is_dropped_loopback : Libraries → List ℕ → Bool
is_dropped_loopback lib source_ip =
    is_word source_ip loopback_ips && elem lib.drop_loopback ("1" ∷ "true" ∷ "yes" ∷ [])

-- Once the record is parsed. A parser never gives an empty address.
unfoldable pub finish : Python → Libraries → Members → String → Parsed → Result
unfolding derive_protocol derive_severity parse_timestamp compute_event_id
finish py lib raw sensor p =
    if is_heartbeat py (event_type_of p) then dropped else elim p.source_ip [
      | none ↦ dropped
      | some source_ip ↦
          if is_dropped_loopback lib source_ip
          then dropped
          else elim (parse_timestamp py lib
              (first raw ("timestamp" ∷ "time" ∷ "date" ∷ "@timestamp" ∷ []))) [
                | none ↦ raised
                | some t ↦ stored (built py lib raw sensor p source_ip t)
              ]
    ]

unfoldable pub normalize : Python → Libraries → Json → Result
unfolding detect_sensor parse finish
normalize py lib v = elim (dict_of v) [
  | none ↦ dropped
  | some raw ↦ elim (parse py (detect_sensor py raw) raw) [
    | none ↦ dropped
    | some p ↦ finish py lib raw (detect_sensor py raw) p
  ]
]
