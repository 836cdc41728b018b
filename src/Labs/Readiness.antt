-- ===== src/Labs/Readiness.antt =====
-- What becomes of a lab once its readiness is processed, and that memory and database agree.
use shadow_trust_security.Prelude.{
  ◌≡◌, refl, sym, ap, ◌∙◌, subst, String, true, Option, none, some, List, [], ◌∷◌, Bool-cases,
  Option-cases, inl, inr, get, elem,
}
use shadow_trust_security.Labs.{
  is_connected, or_resolved, create_connection, World, Lab, VmInstance, Reach, LabInfo,
  LabConnection, Format, update_state, update_row, update_db_status, process_lab_readiness,
  connect_lab,
}
use shadow_trust_security.Labs.Statuses.{
  get-vms-both, get-update_self, get-labs-both, update_state-eq,
}

-- The entry and the row of a lab have one status, and it is one of the given ones.
pub record IsSettled (statuses : List String) (lab_id : String) (w : World) : Type 0 where
  pub lab : Lab
  pub row : VmInstance
  pub in_memory : get w.labs lab_id ≡ some lab
  pub in_database : get w.vms lab_id ≡ some row
  pub same : lab.status ≡ row.status
  pub among : elem lab.status statuses ≡ true

-- The lab is known in memory and in the database.
pub record IsKnown (lab_id : String) (w : World) : Type 0 where
  pub lab : Lab
  pub row : VmInstance
  pub in_memory : get w.labs lab_id ≡ some lab
  pub in_database : get w.vms lab_id ≡ some row

both-IsSettled :
    (reach : Reach) (lab_id : String) (f : Lab → Lab) (g : VmInstance → VmInstance) (w : World)
    (s : String) (statuses : List String)
    → reach.database ≡ true
    → IsKnown lab_id w
    → ((l : Lab) → (f l).status ≡ s)
    → ((v : VmInstance) → (g v).status ≡ s)
    → elem s statuses ≡ true
    → IsSettled statuses lab_id (update_row reach lab_id g (update_state reach lab_id f w))
both-IsSettled reach lab_id f g w s statuses up known f_s g_s among = record {
  lab = f known.lab;
  row = g known.row;
  in_memory = get-labs-both reach lab_id f g w up known.lab known.in_memory;
  in_database = get-vms-both reach lab_id f g w up known.row known.in_database;
  same = f_s known.lab ∙ sym (g_s known.row);
  among = subst (λ t. elem t statuses ≡ true) (sym (f_s known.lab)) among;
}

update_db_status-IsSettled :
    (reach : Reach) (lab_id s : String) (w : World) (statuses : List String)
    → reach.database ≡ true
    → IsKnown lab_id w
    → elem s statuses ≡ true
    → IsSettled statuses lab_id (update_db_status reach lab_id s w)
unfolding update_db_status
update_db_status-IsSettled reach lab_id s w statuses up known among =
    both-IsSettled reach lab_id (λ l. record l { status = s }) (λ v. record v { status = s }) w s
      statuses up known (λ l. refl) (λ v. refl) among

update_state-IsKnown :
    (reach : Reach) (lab_id : String) (f : Lab → Lab) (w : World)
    → IsKnown lab_id w
    → IsKnown lab_id (update_state reach lab_id f w)
update_state-IsKnown reach lab_id f w known =
    let (labs, vms, guacamole) = update_state-eq reach lab_id f w in
    record {
      lab = f known.lab;
      row = known.row;
      in_memory =
          ap (λ d. get d lab_id) labs ∙ get-update_self lab_id f w.labs known.lab known.in_memory;
      in_database = ap (λ d. get d lab_id) vms ∙ known.in_database;
    }

abbrev pub outcomes : List String
outcomes = "READY" ∷ "ERROR" ∷ []

connect_lab-IsSettled :
    (fmt : Format) (reach : Reach) (lab_id : String) (c : LabConnection) (w : World)
    → reach.database ≡ true
    → IsKnown lab_id w
    → IsSettled outcomes lab_id (connect_lab fmt reach lab_id c w)
unfolding connect_lab
connect_lab-IsSettled fmt reach lab_id c w up known =
    let made = create_connection fmt reach.guacamole lab_id c w.guacamole in
    let w' : World = record w { guacamole = made.1 } in
    let known' : IsKnown lab_id w' = record {
      lab = known.lab;
      row = known.row;
      in_memory = known.in_memory;
      in_database = known.in_database;
    } in
    elim (Bool-cases (is_connected made.0)) [
      | inl y ↦
          rw (connect_lab, y)
            (both-IsSettled reach lab_id
              (λ l. record l {
                status = "READY";
                host = some c.host;
                guacamole_connection_id = made.0;
              })
              (λ v. record v { status = "READY"; private_ip = some c.host }) w' "READY" outcomes up
              known' (λ l. refl) (λ v. refl) refl)
      | inr n ↦
          rw (connect_lab, n)
            (update_db_status-IsSettled reach lab_id "READY" (update_state reach lab_id _ w')
              outcomes up (update_state-IsKnown reach lab_id _ w' known') refl)
    ]

-- Whatever the provider and Guacamole answer, the background worker leaves a lab that is known in
-- memory and in the database either READY or ERROR in both, if the database can be reached.
pub process_lab_readiness-IsSettled :
    (fmt : Format) (reach : Reach) (lab_id : String) (waited : Option LabInfo)
    (resolved : Option LabConnection) (w : World)
    → reach.database ≡ true
    → IsKnown lab_id w
    → IsSettled
        ("READY" ∷ "ERROR" ∷ [])
        lab_id
        (process_lab_readiness fmt reach lab_id waited resolved w)
unfolding process_lab_readiness
process_lab_readiness-IsSettled fmt reach lab_id none resolved w up known =
    update_db_status-IsSettled reach lab_id "ERROR" w outcomes up known refl
process_lab_readiness-IsSettled fmt reach lab_id (some info) resolved w up known =
    elim (Bool-cases (elem info.status ("ERROR" ∷ "TERMINATED" ∷ []))) [
      | inl y ↦
          rw (process_lab_readiness, y)
            (update_db_status-IsSettled reach lab_id "ERROR" w outcomes up known refl)
      | inr n ↦ elim (Option-cases (or_resolved info.connection resolved)) [
        | inl e ↦
            rw (process_lab_readiness, n, e)
              (update_db_status-IsSettled reach lab_id "ERROR" w outcomes up known refl)
        | inr (c, e) ↦
            rw (process_lab_readiness, n, e) (connect_lab-IsSettled fmt reach lab_id c w up known)
      ]
    ]
