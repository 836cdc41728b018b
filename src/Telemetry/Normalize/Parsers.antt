-- ===== src/Telemetry/Normalize/Parsers.antt =====
-- The parsers of the sensors. A parser raises, which is `none`, where a port is an infinite number.
use shadow_trust_security.Telemetry.Normalize.Endpoint.{◌>>=◌}
use shadow_trust_security.Prelude.{
  ◌&&◌, ◌++◌, if◌then◌else◌, ℕ, String, List, [], ◌∷◌, Option, none, some, codes, contains,
}
use shadow_trust_security.Telemetry.Normalize.Json.{
  or_else, selection, nested, value_of, truth, str, first, Python, Json, Members, done, null, text,
}
use shadow_trust_security.Telemetry.Normalize.Endpoint.{clean_port, clean_ip}

pub record Parsed : Type 0 where
  pub sensor_event_type : List ℕ
  pub source_ip : Option (List ℕ)
  pub source_port : Option ℕ
  pub destination_ip : Option (List ℕ)
  pub destination_port : Option ℕ
  pub username : Json
  pub password : Json
  pub authentication_result : Option String
  pub command : Json
  pub session_id : Json
  pub protocol_hint : Json
  pub metadata : Members

-- The two ports of a record are read, and the rest is made from them.
unfoldable pub with_ports {ℓ} :
    {A : Type ℓ} → Python → Json → Json → (Option ℕ → Option ℕ → Option A) → Option A
unfolding clean_port
with_ports py source destination build = do
  source_port ← clean_port py source
  destination_port ← clean_port py destination
  build source_port destination_port

-- `str(value or default)`
abbrev pub str_or : Python → Json → String → List ℕ
str_or py v default = if truth v then str py v else codes default

-- The four endpoints in the order of the columns, with the ports as they are read.
abbrev pub host_keys : List String
host_keys = "host" ∷ "ip" ∷ "address" ∷ []

abbrev pub port_key : List String
port_key = "port" ∷ []

abbrev pub auth_of : List ℕ → Option String
auth_of event_type =
    if contains event_type (codes "login.success")
    then some "SUCCESS"
    else if contains event_type (codes "login.failed")
    then some "FAILURE"
    else none

unfoldable pub parse_cowrie : Python → Members → Option Parsed
unfolding first str truth codes
parse_cowrie py event =
    with_ports py (first event ("src_port" ∷ "peerPort" ∷ []))
      (first event ("dst_port" ∷ "hostPort" ∷ []))
      (λ source_port destination_port.
        let event_type =
          str_or py (first event ("eventid" ∷ "event" ∷ [])) "cowrie.session.connect" in
        let command = first event ("input" ∷ "command" ∷ []) in
        some (record {
          sensor_event_type = event_type;
          source_ip = clean_ip py (first event ("src_ip" ∷ "peerIP" ∷ "srcIP" ∷ []));
          source_port = source_port;
          destination_ip = clean_ip py (first event ("dst_ip" ∷ "hostIP" ∷ []));
          destination_port = destination_port;
          username = first event ("username" ∷ "user" ∷ []);
          password = first event ("password" ∷ []);
          authentication_result = auth_of event_type;
          command = if truth command then text (str py command) else null;
          session_id = first event ("session" ∷ "session_id" ∷ []);
          protocol_hint = first event ("protocol" ∷ []);
          metadata =
              selection event
                ("message" ∷ "duration" ∷ "version" ∷ "shasum" ∷ "url" ∷ "outfile" ∷ "ttylog" ∷ []);
        }))

abbrev pub honeytrap_event_type : Python → Members → List ℕ
honeytrap_event_type py event =
    let category = value_of "category" event in
    let kind = value_of "type" event in
    if truth category && truth kind
    then codes "honeytrap." ++ str py category ++ codes "." ++ str py kind
    else str_or py (first event ("type" ∷ "eventid" ∷ "category" ∷ "event" ∷ []))
        "honeytrap.connection"

unfoldable pub parse_honeytrap : Python → Members → Option Parsed
unfolding first nested str truth codes
parse_honeytrap py event =
    with_ports py
      (or_else (first event ("source-port" ∷ "source_port" ∷ "src_port" ∷ []))
        (nested event ("source" ∷ "src" ∷ "origin" ∷ "peer" ∷ []) port_key))
      (or_else (first event ("destination-port" ∷ "destination_port" ∷ "dst_port" ∷ []))
        (nested event ("destination" ∷ "dst" ∷ "local" ∷ []) port_key))
      (λ source_port destination_port. some (record {
        sensor_event_type = honeytrap_event_type py event;
        source_ip = clean_ip py (
            or_else (first event ("source-ip" ∷ "source_ip" ∷ "src_ip" ∷ []))
              (nested event ("source" ∷ "src" ∷ "origin" ∷ "peer" ∷ []) host_keys));
        source_port = source_port;
        destination_ip = clean_ip py (
            or_else (first event ("destination-ip" ∷ "destination_ip" ∷ "dst_ip" ∷ []))
              (nested event ("destination" ∷ "dst" ∷ "local" ∷ []) host_keys));
        destination_port = destination_port;
        username = first event ("username" ∷ "user" ∷ []);
        password = first event ("password" ∷ []);
        authentication_result = none;
        command = first event ("command" ∷ "payload-command" ∷ []);
        session_id = first event ("session" ∷ "token" ∷ "id" ∷ []);
        protocol_hint = first event ("protocol" ∷ "transport" ∷ "category" ∷ []);
        metadata = selection event (
            "agent" ∷ "token" ∷ "payload-hex" ∷ "content-type" ∷ "http.method" ∷ "http.url"
            ∷ "http.host" ∷ []);
      }))

unfoldable pub parse_generic : Python → Members → Option Parsed
unfolding first nested str truth codes
parse_generic py event =
    with_ports py
      (or_else (first event ("src_port" ∷ "source_port" ∷ "source-port" ∷ "peerPort" ∷ []))
        (nested event ("source" ∷ "src" ∷ "remote" ∷ []) port_key))
      (or_else
        (first event
          ("dst_port" ∷ "destination_port" ∷ "destination-port" ∷ "hostPort" ∷ "port" ∷ []))
        (nested event ("destination" ∷ "dst" ∷ "local" ∷ []) port_key))
      (λ source_port destination_port. some (record {
        sensor_event_type = str_or py (first event ("eventid" ∷ "event" ∷ "type" ∷ [])) "event";
        source_ip = clean_ip py (
            or_else
              (first event (
                "src_ip" ∷ "source_ip" ∷ "source-ip" ∷ "peerIP" ∷ "remote_host" ∷ "remote_ip"
                ∷ "attacker" ∷ "client_ip" ∷ "ip" ∷ []))
              (nested event ("source" ∷ "src" ∷ "origin" ∷ "peer" ∷ "remote" ∷ [])
                ("host" ∷ "ip" ∷ "addr" ∷ "address" ∷ [])));
        source_port = source_port;
        destination_ip = clean_ip py (
            or_else (first event ("dst_ip" ∷ "destination_ip" ∷ "destination-ip" ∷ "hostIP" ∷ []))
              (nested event ("destination" ∷ "dst" ∷ "local" ∷ []) host_keys));
        destination_port = destination_port;
        username = first event ("username" ∷ "user" ∷ []);
        password = first event ("password" ∷ []);
        authentication_result = none;
        command = first event ("command" ∷ "input" ∷ []);
        session_id = first event ("session" ∷ "session_id" ∷ "id" ∷ []);
        protocol_hint = first event ("protocol" ∷ "transport" ∷ []);
        metadata = done;
      }))
