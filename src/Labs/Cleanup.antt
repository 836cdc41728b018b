-- ===== src/Labs/Cleanup.antt =====
-- The connections that Guacamole keeps.
use shadow_trust_security.Prelude.{
  ap₂, keep-append, ◌==◌, ℕ, suc, ◌≡◌, refl, ap, ◌∙◌, String, Bool, true, false, Option, none, some,
  List, [], ◌∷◌, ◌++◌, arith, Bool-cases, Option-cases, inl, inr, get, keep, all, ltb, append-nil,
}
use shadow_trust_security.Labs.{
  row_parameters, delete_connection, connection_of, or_resolved, disconnect, not, create_connection,
  elem, World, Lab, VmInstance, Reach, LabInfo, LabConnection, Format, Guacamole, GuacamoleRow,
  update_state, update_row, update_db_status, process_lab_readiness, connect_lab, terminate_lab,
}
use shadow_trust_security.Labs.Statuses.{get-update_self, update_state-eq}

-- The serial number has not come to any row yet, and starts at 1.
pub record IsSerial (g : Guacamole) : Type 0 where
  pub positive : (g.next == 0) ≡ false
  pub below : all (λ r. ltb r.connection_id g.next) g.rows ≡ true

keep-below :
    (n : ℕ) (rows : List GuacamoleRow)
    → all (λ r. ltb r.connection_id n) rows ≡ true
    → keep (λ r. not (r.connection_id == n)) rows ≡ rows
keep-below n [] h = refl
keep-below n (r ∷ rows) h =
    let tail : all (λ r. ltb r.connection_id n) rows ≡ true = ground arith in
    let rest : keep (λ r. not (r.connection_id == n)) rows ≡ rows = keep-below n rows tail in
    let other : not (r.connection_id == n) ≡ true = ground arith in
    rw (keep, other) (ap (λ rs. r ∷ rs) rest)

-- The connection of a lab, as the state has it.
abbrev connection_at : World → String → Option ℕ
connection_at w id = elim (get w.labs id) [ none ↦ none | some l ↦ l.guacamole_connection_id ]

update_row-memory :
    (reach : Reach) (id : String) (g : VmInstance → VmInstance) (w : World)
    → ((update_row reach id g w).labs ≡ w.labs)
      × ((update_row reach id g w).guacamole ≡ w.guacamole)
unfolding update_row
update_row-memory reach id g w = elim (Bool-cases reach.database) [
  | inl y ↦ (rw (update_row, y) refl, rw (update_row, y) refl)
  | inr n ↦ (rw (update_row, n) refl, rw (update_row, n) refl)
]

module _ (reach : Reach) (id : String) (f : Lab → Lab) (g : VmInstance → VmInstance)
    (w : World) where
  abbrev changed : World
  changed = update_row reach id g (update_state reach id f w)

  guacamole-changed : changed.guacamole ≡ w.guacamole
  guacamole-changed =
      (update_row-memory reach id g (update_state reach id f w)).1
      ∙ (update_state-eq reach id f w).2

  get-changed : (l : Lab) → get w.labs id ≡ some l → get changed.labs id ≡ some (f l)
  get-changed l h =
      ap (λ d. get d id)
        ((update_row-memory reach id g (update_state reach id f w)).0
          ∙ (update_state-eq reach id f w).0)
      ∙ get-update_self id f w.labs l h

-- A lab that is known has this connection, and Guacamole these rows.
record Holds (id : String) (connection : Option ℕ) (rows : List GuacamoleRow) (w : World)
    : Type 0 where
  lab : Lab
  known : get w.labs id ≡ some lab
  own : lab.guacamole_connection_id ≡ connection
  table : w.guacamole.rows ≡ rows

changed-Holds :
    (reach : Reach) (id : String) (f : Lab → Lab) (g : VmInstance → VmInstance) (w : World)
    (before after : Option ℕ) (rows : List GuacamoleRow)
    → ((l : Lab) → l.guacamole_connection_id ≡ before → (f l).guacamole_connection_id ≡ after)
    → Holds id before rows w
    → Holds id after rows (update_row reach id g (update_state reach id f w))
changed-Holds reach id f g w before after rows f_own h = record {
  lab = f h.lab;
  known = get-changed reach id f g w h.lab h.known;
  own = f_own h.lab h.own;
  table = ap (λ t. t.rows) (guacamole-changed reach id f g w) ∙ h.table;
}

update_db_status-Holds :
    (reach : Reach) (id s : String) (w : World) (connection : Option ℕ) (rows : List GuacamoleRow)
    → Holds id connection rows w
    → Holds id connection rows (update_db_status reach id s w)
unfolding update_db_status
update_db_status-Holds reach id s w connection rows h =
    changed-Holds reach id (λ l. record l { status = s }) (λ v. record v { status = s }) w
      connection connection rows (λ l own. own) h

update_state-Holds :
    (reach : Reach) (id : String) (f : Lab → Lab) (w : World) (before after : Option ℕ)
    (rows : List GuacamoleRow)
    → ((l : Lab) → (f l).guacamole_connection_id ≡ after)
    → Holds id before rows w
    → Holds id after rows (update_state reach id f w)
update_state-Holds reach id f w before after rows f_own h =
    let (labs, vms, guacamole) = update_state-eq reach id f w in
    record {
      lab = f h.lab;
      known = ap (λ d. get d id) labs ∙ get-update_self id f w.labs h.lab h.known;
      own = f_own h.lab;
      table = ap (λ t. t.rows) guacamole ∙ h.table;
    }

-- Either nothing was added to Guacamole, or one row that the lab holds.
data Connected (id : String) (g : Guacamole) (w : World) : Type 0 where
  without : Holds id none g.rows w → Connected id g w
  with_row :
      (r : GuacamoleRow)
      → r.connection_id ≡ g.next
      → Holds id (some g.next) (g.rows ++ r ∷ []) w
      → Connected id g w

connect_lab-Connected :
    (fmt : Format) (reach : Reach) (id : String) (c : LabConnection) (w : World)
    → IsSerial w.guacamole
    → Holds id none w.guacamole.rows w
    → Connected id w.guacamole (connect_lab fmt reach id c w)
unfolding connect_lab create_connection
connect_lab-Connected fmt reach id c w serial h = elim (Bool-cases reach.guacamole) [
  | inl y ↦
      let r : GuacamoleRow = record {
        connection_id = w.guacamole.next;
        connection_name = fmt.name id;
        protocol = c.protocol;
        parameters = row_parameters fmt c;
      } in
      let w' : World = record w {
        guacamole = record { next = suc w.guacamole.next; rows = w.guacamole.rows ++ r ∷ [] };
      } in
      let h' : Holds id none (w.guacamole.rows ++ r ∷ []) w' = record {
        lab = h.lab;
        known = h.known;
        own = h.own;
        table = refl;
      } in
      rw (connect_lab, create_connection, y, serial.positive)
        (with_row r refl (
          changed-Holds reach id
            (λ l. record l {
              status = "READY";
              host = some c.host;
              guacamole_connection_id = some w.guacamole.next;
            })
            (λ v. record v { status = "READY"; private_ip = some c.host }) w' none
            (some w.guacamole.next) (w.guacamole.rows ++ r ∷ []) (λ l own. refl) h'))
  | inr n ↦
      let f : Lab → Lab =
        λ l. record l { status = "READY"; host = some c.host; guacamole_connection_id = none } in
      rw (connect_lab, create_connection, n)
        (without (
          update_db_status-Holds reach id "READY" (update_state reach id f w) none w.guacamole.rows
            (update_state-Holds reach id f w none none w.guacamole.rows (λ l. refl) h)))
]

process_lab_readiness-Connected :
    (fmt : Format) (reach : Reach) (id : String) (waited : Option LabInfo)
    (resolved : Option LabConnection) (w : World)
    → IsSerial w.guacamole
    → Holds id none w.guacamole.rows w
    → Connected id w.guacamole (process_lab_readiness fmt reach id waited resolved w)
unfolding process_lab_readiness
process_lab_readiness-Connected fmt reach id none resolved w serial h =
    without (update_db_status-Holds reach id "ERROR" w none w.guacamole.rows h)
process_lab_readiness-Connected fmt reach id (some info) resolved w serial h =
    let error = update_db_status-Holds reach id "ERROR" w none w.guacamole.rows h in
    elim (Bool-cases (elem info.status ("ERROR" ∷ "TERMINATED" ∷ []))) [
      | inl y ↦ rw (process_lab_readiness, y) (without error)
      | inr n ↦ elim (Option-cases (or_resolved info.connection resolved)) [
        | inl e ↦ rw (process_lab_readiness, n, e) (without error)
        | inr (c, e) ↦
            rw (process_lab_readiness, n, e) (connect_lab-Connected fmt reach id c w serial h)
      ]
    ]

-- The table after a termination without a given connection.
terminate_lab-table :
    (reach : Reach) (id : String) (success : Bool) (w : World) (connection : Option ℕ)
    (rows : List GuacamoleRow)
    → Holds id connection rows w
    → (terminate_lab reach id none success w).1.guacamole
      ≡ (disconnect reach connection (update_db_status reach id "STOPPING" w)).guacamole
unfolding terminate_lab update_db_status
terminate_lab-table reach id success w connection rows h =
    let stopping = update_db_status reach id "STOPPING" w in
    let held = update_db_status-Holds reach id "STOPPING" w connection rows h in
    let found : connection_of none (get stopping.labs id) ≡ connection =
      ap (λ o. connection_of none o) held.known ∙ held.own in
    guacamole-changed reach id _ _ _ ∙ ap (λ o. (disconnect reach o stopping).guacamole) found

Connected-terminate_lab :
    (reach : Reach) (id : String) (success : Bool) (g : Guacamole) (w : World)
    → reach.guacamole ≡ true
    → IsSerial g
    → Connected id g w
    → (terminate_lab reach id none success w).1.guacamole.rows ≡ g.rows
unfolding disconnect delete_connection
Connected-terminate_lab reach id success g w up serial (without h) =
    ap (λ t. t.rows) (terminate_lab-table reach id success w none g.rows h)
    ∙ (update_db_status-Holds reach id "STOPPING" w none g.rows h).table
Connected-terminate_lab reach id success g w up serial (with_row r own h) =
    let stopping = update_db_status reach id "STOPPING" w in
    let held = update_db_status-Holds reach id "STOPPING" w (some g.next) (g.rows ++ r ∷ []) h in
    let p : GuacamoleRow → Bool = λ s. not (s.connection_id == g.next) in
    let deleted : (disconnect reach (some g.next) stopping).guacamole.rows
        ≡ keep p stopping.guacamole.rows =
      rw (disconnect, delete_connection, serial.positive, up) refl in
    let gone : keep p (r ∷ []) ≡ [] = let e : p r ≡ false = ground arith in rw (keep, e) refl in
    ap (λ t. t.rows) (terminate_lab-table reach id success w (some g.next) (g.rows ++ r ∷ []) h)
    ∙ deleted
    ∙ ap (keep p) held.table
    ∙ keep-append p g.rows (r ∷ [])
    ∙ ap₂ (λ a b. a ++ b) (keep-below g.next g.rows serial.below) gone
    ∙ append-nil g.rows

-- Whatever the provider answers to the readiness check of a lab that is known in memory and has no
-- connection yet, and whatever it answers to the termination after it, Guacamole then has the
-- connections that it had before. Guacamole must be reached for the termination, and its next number
-- be positive and above those of its rows.
pub terminate_lab-process_lab_readiness :
    (fmt : Format) (reach reach' : Reach) (id : String) (waited : Option LabInfo)
    (resolved : Option LabConnection) (success : Bool) (w : World) (l : Lab)
    → IsSerial w.guacamole
    → get w.labs id ≡ some l
    → l.guacamole_connection_id ≡ none
    → reach'.guacamole ≡ true
    → (terminate_lab reach' id none success
        (process_lab_readiness fmt reach id waited resolved w)).1.guacamole.rows
      ≡ w.guacamole.rows
terminate_lab-process_lab_readiness fmt reach reach' id waited resolved success w l serial known own
      up =
    let h : Holds id none w.guacamole.rows w = record {
      lab = l;
      known = known;
      own = own;
      table = refl;
    } in
    Connected-terminate_lab reach' id success w.guacamole
      (process_lab_readiness fmt reach id waited resolved w) up serial
      (process_lab_readiness-Connected fmt reach id waited resolved w serial h)
