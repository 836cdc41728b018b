-- ===== src/Telemetry/Normalize/Dionaea.antt =====
-- `parse_dionaea`, with its three shapes of a record.
use shadow_trust_security.Telemetry.Normalize.Endpoint.{
  clean_port, clean_ip, ◌>>=◌, search_connection,
}
use shadow_trust_security.Prelude.{
  ◌||◌, false, true, if◌then◌else◌, Bool, ℕ, String, [], ◌∷◌, List, Option, none, some, ◌++◌, codes,
}
use shadow_trust_security.Telemetry.Normalize.Json.{
  selection, or_else, truth, str, nested, set_default, value_of, dict_of, first, Python, Json,
  Members, done, array, object, ◌⨾◌, text, null,
}
use shadow_trust_security.Telemetry.Normalize.Parsers.{with_ports, host_keys, port_key, Parsed}

-- `connection`, which is empty unless it is an object.
abbrev pub object_at : String → Members → Members
object_at key event = elim (dict_of (value_of key event)) [ some ms ↦ ms | none ↦ done ]

abbrev pub or_option {ℓ} : {A : Type ℓ} → Option A → Option A → Option A
or_option (some a) o = some a
or_option none o = o

abbrev pub first_credential : Json → Members
first_credential (array (object ms ⨾ vs)) = ms
first_credential v = done

-- Kept when there are at least two.
abbrev pub with_credentials : Json → Members → Members
with_credentials (array (v ⨾ (w ⨾ vs))) ms = set_default "credentials" (array (v ⨾ (w ⨾ vs))) ms
with_credentials v ms = ms

abbrev pub dionaea_event_type : Python → Members → Members → List ℕ
dionaea_event_type py event connection =
    let event_type = first event ("eventid" ∷ "event" ∷ "connection_type" ∷ []) in
    if truth event_type
    then str py event_type
    else if truth (value_of "type" connection)
    then codes "dionaea.connection." ++ str py (value_of "type" connection)
    else codes "dionaea.connection"

-- The endpoints of a record.
pub record Endpoints : Type 0 where
  pub source_ip : Option (List ℕ)
  pub source_port : Option ℕ
  pub destination_ip : Option (List ℕ)
  pub destination_port : Option ℕ

-- The last resort: what is missing is taken from the connection in brackets.
unfoldable pub from_brackets : Python → List ℕ → Endpoints → Option Endpoints
unfolding search_connection clean_port
from_brackets py event_type e = elim (search_connection py event_type) [
  | none ↦ some e
  | some m ↦ do
    local_port ← clean_port py (text m.local_port)
    remote_port ← clean_port py (text m.remote_port)
    some (record {
      source_ip = or_option e.source_ip (clean_ip py (text m.remote_ip));
      source_port = or_option e.source_port remote_port;
      destination_ip = or_option e.destination_ip (clean_ip py (text m.local_ip));
      destination_port = or_option e.destination_port local_port;
    })
]

abbrev pub is_none {ℓ} : {A : Type ℓ} → Option A → Bool
is_none none = true
is_none (some a) = false

unfoldable pub dionaea_endpoints : Python → Members → Members → List ℕ → Option Endpoints
unfolding first nested truth from_brackets
dionaea_endpoints py event connection event_type =
    with_ports py
      (or_else (first event ("src_port" ∷ "peerPort" ∷ "remote_port" ∷ [])) (
        or_else (nested connection ("remote" ∷ []) port_key)
          (nested event ("remote" ∷ "source" ∷ "src" ∷ []) port_key)))
      (or_else (first event ("dst_port" ∷ "hostPort" ∷ "local_port" ∷ [])) (
        or_else (nested connection ("local" ∷ []) port_key)
          (nested event ("local" ∷ "destination" ∷ "dst" ∷ []) port_key)))
      (λ source_port destination_port.
        let e : Endpoints = record {
          source_ip = clean_ip py (
              or_else (first event ("src_ip" ∷ "peerIP" ∷ "remote_host" ∷ "remote_ip" ∷ [])) (
                or_else (nested connection ("remote" ∷ []) host_keys)
                  (nested event ("remote" ∷ "source" ∷ "src" ∷ []) host_keys)));
          source_port = source_port;
          destination_ip = clean_ip py (
              or_else (first event ("dst_ip" ∷ "hostIP" ∷ "local_host" ∷ [])) (
                or_else (nested connection ("local" ∷ []) host_keys)
                  (nested event ("local" ∷ "destination" ∷ "dst" ∷ []) host_keys)));
          destination_port = destination_port;
        } in
        if is_none e.source_ip || is_none e.destination_port
        then from_brackets py event_type e
        else some e)

unfoldable pub dionaea_fields : Python → Members → Members → List ℕ → Endpoints → Parsed
unfolding first truth
dionaea_fields py event connection event_type e =
    let credentials = value_of "credentials" event in
    let credential = first_credential credentials in
    record {
      sensor_event_type = event_type;
      source_ip = e.source_ip;
      source_port = e.source_port;
      destination_ip = e.destination_ip;
      destination_port = e.destination_port;
      username =
          or_else (first event ("username" ∷ "user" ∷ "login" ∷ []))
            (value_of "username" credential);
      password = or_else (first event ("password" ∷ "pass" ∷ [])) (value_of "password" credential);
      authentication_result = none;
      command = null;
      session_id = first event ("connection_id" ∷ "id" ∷ "session" ∷ []);
      protocol_hint =
          or_else (first event ("connection_protocol" ∷ "protocol" ∷ []))
            (or_else (value_of "protocol" connection) (value_of "transport" connection));
      metadata = with_credentials credentials (
          selection event
            ("md5_hash" ∷ "sha512_hash" ∷ "url" ∷ "daddr" ∷ "saddr" ∷ "filename" ∷ []));
    }

unfoldable pub parse_dionaea : Python → Members → Option Parsed
unfolding first str truth dionaea_endpoints dionaea_fields codes
parse_dionaea py event = do
  let connection = object_at "connection" event
  let event_type = dionaea_event_type py event connection
  e ← dionaea_endpoints py event connection event_type
  some (dionaea_fields py event connection event_type e)
