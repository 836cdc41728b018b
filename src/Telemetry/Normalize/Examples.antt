-- ===== src/Telemetry/Normalize/Examples.antt =====
-- The normalizing of concrete records.
use shadow_trust_security.Prelude.{
  lower, ◌||◌, ◌==◌, all, ◌≡◌, refl, true, false, none, some, [], ◌∷◌, ◌++◌, codes, elem, not,
}
use shadow_trust_security.Telemetry.Normalize.Json.{
  dict_of, int, str, first, truth, null, Json, Members, done, member, text, integer, object, Python,
}
use shadow_trust_security.Telemetry.Normalize.Event.{
  compute_event_id, parse_timestamp, parser, parse, finish, Libraries, normalize, stored, raised,
  NormalizedEvent,
}
use shadow_trust_security.Telemetry.Normalize.Usable.{
  normalize-IsAttributable, IsAttributable, normalize-severity,
}
use shadow_trust_security.Telemetry.Normalize.Brackets.{
  search_connection-bracketed, bracketed, IsConnection,
}
use shadow_trust_security.Telemetry.Normalize.Timestamps.{normalize-raised, HasBadTime}
use shadow_trust_security.Telemetry.Normalize.Endpoint.{
  search_connection, clean_ip, clean_port, Connection,
}
use shadow_trust_security.Telemetry.Normalize.Sensor.{
  is_outcome, derive_protocol, derive_severity, derive_severity, detect_sensor,
}
use shadow_trust_security.Telemetry.Normalize.Fingerprint.{
  detect_sensor-sensor_by_names_and_fields, sensor_by_names_and_fields,
}
use shadow_trust_security.Telemetry.Normalize.Parsers.{with_ports, parse_cowrie}
use shadow_trust_security.Telemetry.Text.{is_space, rstrip, lstrip, strip}

abbrev py : Python
py = record {
  repr = λ v. [];
  int_text = λ cs. none;
  lower_other = λ c. c ∷ [];
  digit_other = λ c. false;
}

-- No text is a date.
abbrev lib : Libraries
lib = record {
  dumps = λ sorted ms. [];
  sha256 = λ cs. cs;
  utcnow = 7;
  fromisoformat = λ cs. none;
  strptime = λ f cs. none;
  drop_loopback = "";
}

-- Every text is the first hour of year 1, an hour east of UTC.
abbrev early : Libraries
early = record lib {
  fromisoformat = λ cs. some (record { local = 0; offset = some (false, 3600000000) });
}

-- A command in a session of Cowrie.
abbrev command_record : Json
command_record = object (
    member "eventid" (text (codes "cowrie.command.input")) (
      member "src_ip" (text (codes "10.0.0.9")) (
        member "src_port" (integer false 51000)
          (member "input" (text (codes "id")) (member "timestamp" (text (codes "t")) done)))))

abbrev command_event : NormalizedEvent
command_event = record {
  event_id = [];
  timestamp = 7;
  sensor = "cowrie";
  sensor_event_type = codes "cowrie.command.input";
  source_ip = codes "10.0.0.9";
  protocol = codes "ssh";
  severity = "HIGH";
  raw_event = [];
  source_port = some 51000;
  destination_ip = none;
  destination_port = some 2222;
  username = null;
  password = null;
  authentication_result = none;
  command = text (codes "id");
  payload = null;
  session_id = null;
  metadata = member "detected_sensor" (text (codes "cowrie")) done;
}

normalize_command : normalize py lib command_record ≡ stored command_event
unfolding normalize finish parse parser parse_cowrie with_ports clean_port clean_ip strip lstrip
    rstrip is_space codes detect_sensor derive_severity derive_protocol parse_timestamp
    compute_event_id first str truth int lower
normalize_command = refl

early_record_raises : normalize py early command_record ≡ raised
unfolding normalize finish parse parser parse_cowrie with_ports clean_port clean_ip strip lstrip
    rstrip is_space codes detect_sensor derive_severity derive_protocol parse_timestamp
    compute_event_id first str truth int lower
early_record_raises = refl

normalize-IsAttributable_example : IsAttributable py lib command_event
normalize-IsAttributable_example =
    normalize-IsAttributable py lib command_record command_event normalize_command

serious :
    (truth command_event.command || is_outcome command_event.authentication_result "SUCCESS") ≡ true
unfolding truth codes
serious = refl

normalize-severity_example : elem "HIGH" ("HIGH" ∷ "CRITICAL" ∷ []) ≡ true
normalize-severity_example =
    normalize-severity py lib command_record command_event normalize_command serious

normalize-raised_example :
    (raw : Members) × (dict_of command_record ≡ some raw) × HasBadTime py early raw
normalize-raised_example = normalize-raised py early command_record early_record_raises

abbrev declared : Members
declared = member "eventid" (text (codes "Cowrie.login.failed")) done

detect_sensor-sensor_by_names_and_fields_example :
    detect_sensor py declared ≡ sensor_by_names_and_fields py declared
detect_sensor-sensor_by_names_and_fields_example =
    detect_sensor-sensor_by_names_and_fields py declared

abbrev connection : Connection
connection = record {
  local_ip = codes "127.0.0.1";
  local_port = codes "445";
  remote_ip = codes "10.0.0.5";
  remote_port = codes "51823";
}

connection-IsConnection : IsConnection py connection
unfolding codes
connection-IsConnection = record {
  local_ip = record { nonempty = λ h. absurd (cc); chars = refl };
  local_port = record { nonempty = λ h. absurd (cc); chars = refl };
  remote_ip = record { nonempty = λ h. absurd (cc); chars = refl };
  remote_port = record { nonempty = λ h. absurd (cc); chars = refl };
}

before_plain : all (λ c. not (c == 91)) (codes "connection ") ≡ true
unfolding codes
before_plain = refl

search_connection-bracketed_example :
    search_connection py (codes "connection " ++ bracketed connection (codes " ok"))
    ≡ some connection
search_connection-bracketed_example =
    search_connection-bracketed py (codes "connection ") (codes " ok") connection before_plain
      connection-IsConnection
