-- ===== src/Labs.antt =====
-- backend/app/services/session_manager.py with guacamole_service.py and providers/base.py: the labs
-- of the analysts. The state is GLOBAL_LAB_STATE, the file that it is saved to, the rows of
-- vm_instances, and Guacamole's table of connections. The provider's answers are arguments.
pub mod Statuses
pub mod Readiness
pub mod Agreement
pub mod Cleanup
mod Examples
use shadow_trust_security.Prelude.{
  ◌&&◌, ℕ, suc, ◌+◌, ◌==◌, String, Bool, true, false, not, Option, none, some, List, [], ◌∷◌, ◌++◌,
  keep, Dict, get, put, elem, if◌then◌else◌, str_eq,
}

-- The statuses that count as a lab in use, for `load_local_state`.
abbrev pub active : List String
active = "PROVISIONING" ∷ "READY" ∷ "RUNNING" ∷ []

-- An entry of GLOBAL_LAB_STATE; `host` is also its "private_ip".
pub record Lab : Type 0 where
  pub status : String
  pub session_id : String
  pub protocol : String
  pub environment : String
  pub profile : String
  pub provider : String
  pub host : Option String
  pub guacamole_connection_id : Option ℕ

-- A row of vm_instances, by its id.
pub record VmInstance : Type 0 where
  pub status : String
  pub session_id : String
  pub private_ip : Option String

pub record LabConnection : Type 0 where
  pub host : String
  pub port : ℕ
  pub protocol : String
  pub username : String
  pub password : String

pub record LabInfo : Type 0 where
  pub lab_id : String
  pub status : String
  pub environment : String
  pub profile : String
  pub connection : Option LabConnection

-- A row of guacamole_connection with its parameters.
pub record GuacamoleRow : Type 0 where
  pub connection_id : ℕ
  pub connection_name : String
  pub protocol : String
  pub parameters : Dict String

-- The database of Guacamole: the next serial number, and the rows.
pub record Guacamole : Type 0 where
  pub next : ℕ
  pub rows : List GuacamoleRow

pub record World : Type 0 where
  pub labs : Dict Lab
  pub file : Option (Dict Lab)
  pub vms : Dict VmInstance
  pub guacamole : Guacamole

-- Whether a call can write the file, and reach the two databases.
pub record Reach : Type 0 where
  pub disk : Bool
  pub database : Bool
  pub guacamole : Bool

-- What formats an f-string: the name of a connection, and `str` of a port.
pub record Format : Type 0 where
  pub name : String → String
  pub decimal : ℕ → String

abbrev pub row_parameters : Format → LabConnection → Dict String
row_parameters fmt c =
    ("hostname", c.host)
    ∷ ("port", fmt.decimal c.port)
    ∷ ("security", "any")
    ∷ ("ignore-cert", "true")
    ∷ ("resize-method", "display-update")
    ∷ ((if str_eq c.username "" then [] else ("username", c.username) ∷ [])
        ++ (if str_eq c.password "" then [] else ("password", c.password) ∷ []))

-- Every exception is caught, and then there is no connection.
unfoldable pub create_connection :
    Format → Bool → String → LabConnection → Guacamole → Option ℕ × Guacamole
create_connection fmt reachable lab_id c g =
    if reachable
    then (
      some g.next,
      record {
        next = suc g.next;
        rows =
            g.rows
            ++ record {
              connection_id = g.next;
              connection_name = fmt.name lab_id;
              protocol = c.protocol;
              parameters = row_parameters fmt c;
            }
              ∷ [];
      },
    )
    else (none, g)

unfoldable pub delete_connection : Bool → ℕ → Guacamole → Guacamole
delete_connection reachable id g =
    if reachable then record g { rows = keep (λ r. not (r.connection_id == id)) g.rows } else g

-- The value under a key is changed, if there is one.
unfoldable pub update {ℓ} : {V : Type ℓ} → String → (V → V) → Dict V → Dict V
update key f d = elim (get d key) [ none ↦ d | some v ↦ put d key (f v) ]

-- `save_local_state(GLOBAL_LAB_STATE)`; an error is only logged.
unfoldable pub save_local_state : Reach → World → World
save_local_state reach w = if reach.disk then record w { file = some w.labs } else w

-- The entry of a lab is changed and the file saved, if the lab is known.
unfoldable pub update_state : Reach → String → (Lab → Lab) → World → World
unfolding update save_local_state
update_state reach lab_id f w = elim (get w.labs lab_id) [
  | none ↦ w
  | some l ↦ save_local_state reach (record w { labs = update lab_id f w.labs })
]

-- The row of a lab is changed and committed, if the database is there.
unfoldable pub update_row : Reach → String → (VmInstance → VmInstance) → World → World
unfolding update
update_row reach lab_id f w = if reach.database then record w { vms = update lab_id f w.vms } else w

-- `_update_db_status`
unfoldable pub update_db_status : Reach → String → String → World → World
unfolding update_state update_row
update_db_status reach lab_id status w =
    update_row reach lab_id (λ v. record v { status = status })
      (update_state reach lab_id (λ l. record l { status = status }) w)

-- `record["status"] = "TERMINATED"` for a lab in use.
abbrev pub settled : Lab → Lab
settled l = if elem l.status active then record l { status = "TERMINATED" } else l

abbrev pub settle : Dict Lab → Dict Lab
settle [] = []
settle ((id, l) ∷ labs) = (id, settled l) ∷ settle labs

abbrev pub any_active : Dict Lab → Bool
any_active [] = false
any_active ((id, l) ∷ labs) = if elem l.status active then true else any_active labs

-- The process starts: `none` is that there is no file, or none that can be read.
unfoldable pub load_local_state : Reach → World → World
load_local_state reach w = elim w.file [
  | none ↦ record w { labs = [] }
  | some labs ↦
      if any_active labs && reach.disk
      then record w { labs = settle labs; file = some (settle labs) }
      else record w { labs = settle labs }
]

-- `launched` is the provider's answer, `none` that it raises; then so does the call.
unfoldable pub start_lab_provisioning :
    Reach → String → String → String → Option LabInfo → World → Option String × World
unfolding save_local_state
start_lab_provisioning reach user_id protocol provider launched w = elim launched [
  | none ↦ (none, w)
  | some info ↦
      let w' = save_local_state reach (record w {
        labs = put w.labs info.lab_id (record {
          status = info.status;
          session_id = user_id;
          protocol = protocol;
          environment = info.environment;
          profile = info.profile;
          provider = provider;
          host = none;
          guacamole_connection_id = none;
        });
      }) in
      let row : VmInstance = record {
        status = "PROVISIONING";
        session_id = user_id;
        private_ip = none;
      } in
      (
        some info.lab_id,
        if reach.database
            then elim (get w.vms info.lab_id) [
              | some v ↦ w'
              | none ↦ record w' { vms = put w.vms info.lab_id row }
            ]
            else w',
      )
]

-- The first that is there.
abbrev pub or_resolved : Option LabConnection → Option LabConnection → Option LabConnection
or_resolved none o = o
or_resolved (some c) o = some c

-- A connection is truthy when it has a number that is not 0.
abbrev pub is_connected : Option ℕ → Bool
is_connected none = false
is_connected (some id) = not (id == 0)

-- The lab is up at a known address: Guacamole is told, and the lab is ready either way.
unfoldable pub connect_lab : Format → Reach → String → LabConnection → World → World
unfolding create_connection update_state update_row update_db_status
connect_lab fmt reach lab_id c w =
    let (guac_id, g) = create_connection fmt reach.guacamole lab_id c w.guacamole in
    let w' = record w { guacamole = g } in
    if is_connected guac_id
    then update_row reach lab_id (λ v. record v { status = "READY"; private_ip = some c.host })
        (update_state reach lab_id
          (λ l. record l {
            status = "READY";
            host = some c.host;
            guacamole_connection_id = guac_id;
          })
          w')
    else update_db_status reach lab_id "READY" (
        update_state reach lab_id
          (λ l. record l { status = "READY"; host = some c.host; guacamole_connection_id = none })
          w')

-- `waited` is the answer of `wait_until_ready`, `resolved` that of `get_connection`; `none` is that
-- it raises, or that there is no address.
unfoldable pub process_lab_readiness :
    Format → Reach → String → Option LabInfo → Option LabConnection → World → World
unfolding connect_lab update_db_status
process_lab_readiness fmt reach lab_id waited resolved w = elim waited [
  | none ↦ update_db_status reach lab_id "ERROR" w
  | some info ↦
      if elem info.status ("ERROR" ∷ "TERMINATED" ∷ [])
      then update_db_status reach lab_id "ERROR" w
      else elim (or_resolved info.connection resolved) [
        | none ↦ update_db_status reach lab_id "ERROR" w
        | some c ↦ connect_lab fmt reach lab_id c w
      ]
]

-- The connection that a termination deletes: the one that is given, or else the lab's own.
abbrev pub connection_of : Option ℕ → Option Lab → Option ℕ
connection_of given lab =
    if is_connected given
    then given
    else elim lab [ none ↦ none | some l ↦ l.guacamole_connection_id ]

unfoldable pub disconnect : Reach → Option ℕ → World → World
unfolding delete_connection
disconnect reach none w = w
disconnect reach (some id) w =
    if id == 0 then w else record w { guacamole = delete_connection reach.guacamole id w.guacamole }

-- `success` is the provider's answer, false as well when it raises.
unfoldable pub terminate_lab : Reach → String → Option ℕ → Bool → World → Bool × World
unfolding update_db_status disconnect
terminate_lab reach lab_id given success w =
    let stopping = update_db_status reach lab_id "STOPPING" w in
    let cut = disconnect reach (connection_of given (get stopping.labs lab_id)) stopping in
    (success, update_db_status reach lab_id (if success then "TERMINATED" else "ERROR") cut)
