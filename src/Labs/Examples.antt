-- ===== src/Labs/Examples.antt =====
-- The life of a lab on concrete answers of the provider.
use shadow_trust_security.Prelude.{
  ◌≡◌, refl, String, true, false, Option, none, some, [], ◌∷◌, get, put,
}
use shadow_trust_security.Labs.{
  update, update_row, update_state, put, create_connection, connect_lab, save_local_state, World,
  Lab, Reach, LabInfo, LabConnection, Format, GuacamoleRow, start_lab_provisioning,
  process_lab_readiness, terminate_lab, load_local_state,
}
use shadow_trust_security.Labs.Readiness.{process_lab_readiness-IsSettled, IsSettled, IsKnown}
use shadow_trust_security.Labs.Agreement.{
  History-Agree, Agree, History, begin, next, start, readiness, terminate,
}
use shadow_trust_security.Labs.Cleanup.{IsSerial, terminate_lab-process_lab_readiness}

abbrev all_up : Reach
all_up = record { disk = true; database = true; guacamole = true }

abbrev fmt : Format
fmt = record { name = λ s. s; decimal = λ n. "port" }

-- Another lab's connection.
abbrev other_row : GuacamoleRow
other_row = record {
  connection_id = 1;
  connection_name = "other";
  protocol = "ssh";
  parameters = [];
}

abbrev before : World
before = record {
  labs = [];
  file = none;
  vms = [];
  guacamole = record { next = 2; rows = other_row ∷ [] };
}

abbrev connection : LabConnection
connection = record {
  host = "lab-1";
  port = 3389;
  protocol = "rdp";
  username = "kali";
  password = "pw";
}

abbrev info : String → Option LabConnection → LabInfo
info status c = record {
  lab_id = "lab-1";
  status = status;
  environment = "kali";
  profile = "light";
  connection = c;
}

abbrev started : World
started =
    (start_lab_provisioning all_up "ann" "rdp" "local" (some (info "PROVISIONING" none)) before).1

abbrev provisioned : Lab
provisioned = record {
  status = "PROVISIONING";
  session_id = "ann";
  protocol = "rdp";
  environment = "kali";
  profile = "light";
  provider = "local";
  host = none;
  guacamole_connection_id = none;
}

started_lab : get started.labs "lab-1" ≡ some provisioned
unfolding start_lab_provisioning save_local_state get put
started_lab = refl

started_row :
    get started.vms "lab-1"
    ≡ some (record { status = "PROVISIONING"; session_id = "ann"; private_ip = none })
unfolding start_lab_provisioning save_local_state get put
started_row = refl

started-IsKnown : IsKnown "lab-1" started
started-IsKnown = record {
  lab = provisioned;
  row = record { status = "PROVISIONING"; session_id = "ann"; private_ip = none };
  in_memory = started_lab;
  in_database = started_row;
}

abbrev waited : Option LabInfo
waited = some (info "READY" (some connection))

abbrev ready : World
ready = process_lab_readiness fmt all_up "lab-1" waited none started

process_lab_readiness-IsSettled_example : IsSettled ("READY" ∷ "ERROR" ∷ []) "lab-1" ready
process_lab_readiness-IsSettled_example =
    process_lab_readiness-IsSettled fmt all_up "lab-1" waited none started refl started-IsKnown

before_row : get before.vms "lab-1" ≡ none
unfolding get
before_row = refl

before-Agree : Agree before
unfolding get
before-Agree lab_id = tt

history : History before (terminate_lab all_up "lab-1" none true ready).1
history =
    next ready _
      (next started _
        (next before _ begin
          (start all_up "ann" "rdp" "local" (info "PROVISIONING" none) refl before_row refl))
        (readiness fmt all_up "lab-1" waited none refl))
      (terminate all_up "lab-1" none true refl)

History-Agree_example : Agree (terminate_lab all_up "lab-1" none true ready).1
History-Agree_example = History-Agree before _ history before-Agree

started-IsSerial : IsSerial started.guacamole
unfolding start_lab_provisioning save_local_state get put
started-IsSerial = record { positive = refl; below = refl }

terminate_lab-process_lab_readiness_example :
    (terminate_lab all_up "lab-1" none false ready).1.guacamole.rows ≡ started.guacamole.rows
terminate_lab-process_lab_readiness_example =
    terminate_lab-process_lab_readiness fmt all_up all_up "lab-1" waited none false started
      provisioned started-IsSerial started_lab refl refl

-- After a restart the memory has the lab as TERMINATED and the database as READY.
abbrev restarted : World
restarted = load_local_state all_up ready

abbrev memory_status : World → String
memory_status w = elim (get w.labs "lab-1") [ none ↦ "" | some l ↦ l.status ]

abbrev database_status : World → String
database_status w = elim (get w.vms "lab-1") [ none ↦ "" | some v ↦ v.status ]

restarted_memory : memory_status restarted ≡ "TERMINATED"
unfolding load_local_state process_lab_readiness connect_lab create_connection update_state
    update_row update save_local_state start_lab_provisioning get put
restarted_memory = refl

restarted_database : database_status restarted ≡ "READY"
unfolding load_local_state process_lab_readiness connect_lab create_connection update_state
    update_row update save_local_state start_lab_provisioning get put
restarted_database = refl
