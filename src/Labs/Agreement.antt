-- ===== src/Labs/Agreement.antt =====
-- The statuses in memory and in the database agree, over any history of calls.
use shadow_trust_security.Prelude.{
  ◌==◌, if◌then◌else◌, ℕ, ◌≡◌, ◌≢◌, refl, sym, ap, ◌∙◌, subst, String, Bool, true, Option, none,
  some, [], ◌∷◌, arith, Bool-cases, Option-cases, inl, inr, get, put, get-put_self, get-put_ne,
  elem, str_eq, eq_iff,
}
use shadow_trust_security.Labs.{
  connection_of, is_connected, disconnect, or_resolved, terminate_lab, create_connection,
  start_lab_provisioning, World, Lab, VmInstance, Reach, LabInfo, LabConnection, Format,
  update_state, update_row, update_db_status, process_lab_readiness, connect_lab, save_local_state,
}
use shadow_trust_security.Labs.Statuses.{
  get-vms-both, get-vms-both_none, both-Others, get-update_ne, get-labs-both, Others-trans,
  get-labs-both_none, Others, update_state-eq,
}

-- Where there are both an entry and a row, they have one status.
abbrev pub SameStatus : Option Lab → Option VmInstance → Type 0
SameStatus none v = Unit
SameStatus (some l) none = Unit
SameStatus (some l) (some v) = l.status ≡ v.status

abbrev pub Agree : World → Type 0
Agree w = (lab_id : String) → SameStatus (get w.labs lab_id) (get w.vms lab_id)

-- One call. A new lab has an id that uuid4 has not given before, and the provider starts it as
-- PROVISIONING.
pub data Call (w : World) : World → Type 0 where
  start :
      (reach : Reach) (user_id protocol provider : String) (info : LabInfo)
      → reach.database ≡ true
      → get w.vms info.lab_id ≡ none
      → info.status ≡ "PROVISIONING"
      → Call w (start_lab_provisioning reach user_id protocol provider (some info) w).1
  readiness :
      (fmt : Format) (reach : Reach) (lab_id : String) (waited : Option LabInfo)
      (resolved : Option LabConnection)
      → reach.database ≡ true
      → Call w (process_lab_readiness fmt reach lab_id waited resolved w)
  terminate :
      (reach : Reach) (lab_id : String) (given : Option ℕ) (success : Bool)
      → reach.database ≡ true
      → Call w (terminate_lab reach lab_id given success w).1

pub data History (w : World) : World → Type 0 where
  begin : History w w
  next : (u v : World) → History w u → Call u v → History w v

Agree-Others :
    (id : String) (w w' : World)
    → Others id w w'
    → SameStatus (get w'.labs id) (get w'.vms id)
    → Agree w
    → Agree w'
Agree-Others id w w' others here before other = elim (Bool-cases (str_eq id other)) [
  | inl y ↦ subst (λ i. SameStatus (get w'.labs i) (get w'.vms i)) ((eq_iff id other).0 y) here
  | inr n ↦
      let apart : id ≢ other = λ e. absurd (ground (arith, eq_iff id other)) in
      subst (λ o. SameStatus o (get w'.vms other)) (sym (others.labs other apart))
        (subst (SameStatus (get w.labs other)) (sym (others.vms other apart)) (before other))
]

both-SameStatus :
    (reach : Reach) (id : String) (f : Lab → Lab) (g : VmInstance → VmInstance) (w : World)
    (s : String)
    → reach.database ≡ true
    → ((l : Lab) → (f l).status ≡ s)
    → ((v : VmInstance) → (g v).status ≡ s)
    → let w' = update_row reach id g (update_state reach id f w) in
      SameStatus (get w'.labs id) (get w'.vms id)
both-SameStatus reach id f g w s up f_s g_s =
    let w' = update_row reach id g (update_state reach id f w) in
    elim (Option-cases (get w.labs id)) [
      | inl e ↦
          subst (λ o. SameStatus o (get w'.vms id)) (sym (get-labs-both_none reach id f g w up e))
            tt
      | inr (l, e) ↦
          subst (λ o. SameStatus o (get w'.vms id)) (sym (get-labs-both reach id f g w up l e))
            (elim (Option-cases (get w.vms id)) [
              | inl n ↦
                  subst (SameStatus (some (f l))) (sym (get-vms-both_none reach id f g w up n)) tt
              | inr (v, n) ↦
                  subst (SameStatus (some (f l))) (sym (get-vms-both reach id f g w up v n))
                    (f_s l ∙ sym (g_s v))
            ])
    ]

Agree-both :
    (reach : Reach) (id : String) (f : Lab → Lab) (g : VmInstance → VmInstance) (u w : World)
    (s : String)
    → reach.database ≡ true
    → ((l : Lab) → (f l).status ≡ s)
    → ((v : VmInstance) → (g v).status ≡ s)
    → Others id u w
    → Agree u
    → Agree (update_row reach id g (update_state reach id f w))
Agree-both reach id f g u w s up f_s g_s others before =
    let w' = update_row reach id g (update_state reach id f w) in
    Agree-Others id u w' (Others-trans id u w w' others (both-Others reach id f g w up))
      (both-SameStatus reach id f g w s up f_s g_s) before

same-Others : (id : String) (w : World) → Others id w w
same-Others id w = record { labs = λ other n. refl; vms = λ other n. refl }

Agree-update_db_status :
    (reach : Reach) (id s : String) (u w : World)
    → reach.database ≡ true
    → Others id u w
    → Agree u
    → Agree (update_db_status reach id s w)
unfolding update_db_status
Agree-update_db_status reach id s u w up others before =
    Agree-both reach id (λ l. record l { status = s }) (λ v. record v { status = s }) u w s up
      (λ l. refl) (λ v. refl) others before

update_state-Others :
    (reach : Reach) (id : String) (f : Lab → Lab) (w : World)
    → Others id w (update_state reach id f w)
update_state-Others reach id f w =
    let (labs, vms, guacamole) = update_state-eq reach id f w in
    record {
      labs = λ other n. ap (λ d. get d other) labs ∙ get-update_ne id other f w.labs n;
      vms = λ other n. ap (λ d. get d other) vms;
    }

Agree-connect_lab :
    (fmt : Format) (reach : Reach) (id : String) (c : LabConnection) (w : World)
    → reach.database ≡ true
    → Agree w
    → Agree (connect_lab fmt reach id c w)
unfolding connect_lab
Agree-connect_lab fmt reach id c w up before =
    let made = create_connection fmt reach.guacamole id c w.guacamole in
    let w' : World = record w { guacamole = made.1 } in
    let moved : Others id w w' = record { labs = λ other n. refl; vms = λ other n. refl } in
    elim (Bool-cases (is_connected made.0)) [
      | inl y ↦
          rw (connect_lab, y)
            (Agree-both reach id
              (λ l. record l {
                status = "READY";
                host = some c.host;
                guacamole_connection_id = made.0;
              })
              (λ v. record v { status = "READY"; private_ip = some c.host }) w w' "READY" up
              (λ l. refl) (λ v. refl) moved before)
      | inr n ↦
          let f : Lab → Lab = λ l. record l {
            status = "READY";
            host = some c.host;
            guacamole_connection_id = none;
          } in
          rw (connect_lab, n)
            (Agree-update_db_status reach id "READY" w (update_state reach id f w') up
              (Others-trans id w w' (update_state reach id f w') moved
                (update_state-Others reach id f w'))
              before)
    ]

Agree-process_lab_readiness :
    (fmt : Format) (reach : Reach) (id : String) (waited : Option LabInfo)
    (resolved : Option LabConnection) (w : World)
    → reach.database ≡ true
    → Agree w
    → Agree (process_lab_readiness fmt reach id waited resolved w)
unfolding process_lab_readiness
Agree-process_lab_readiness fmt reach id none resolved w up before =
    Agree-update_db_status reach id "ERROR" w w up (same-Others id w) before
Agree-process_lab_readiness fmt reach id (some info) resolved w up before =
    let error = Agree-update_db_status reach id "ERROR" w w up (same-Others id w) before in
    elim (Bool-cases (elem info.status ("ERROR" ∷ "TERMINATED" ∷ []))) [
      | inl y ↦ rw (process_lab_readiness, y) error
      | inr n ↦ elim (Option-cases (or_resolved info.connection resolved)) [
        | inl e ↦ rw (process_lab_readiness, n, e) error
        | inr (c, e) ↦
            rw (process_lab_readiness, n, e) (Agree-connect_lab fmt reach id c w up before)
      ]
    ]

disconnect-eq :
    (reach : Reach) (id : Option ℕ) (w : World)
    → ((disconnect reach id w).labs ≡ w.labs) × ((disconnect reach id w).vms ≡ w.vms)
unfolding disconnect
disconnect-eq reach none w = (refl, refl)
disconnect-eq reach (some id) w = elim (Bool-cases (id == 0)) [
  | inl y ↦ (rw (disconnect, y) refl, rw (disconnect, y) refl)
  | inr n ↦ (rw (disconnect, n) refl, rw (disconnect, n) refl)
]

Agree-terminate_lab :
    (reach : Reach) (id : String) (given : Option ℕ) (success : Bool) (w : World)
    → reach.database ≡ true
    → Agree w
    → Agree (terminate_lab reach id given success w).1
unfolding terminate_lab
Agree-terminate_lab reach id given success w up before =
    let stopping = update_db_status reach id "STOPPING" w in
    let cut = disconnect reach (connection_of given (get stopping.labs id)) stopping in
    let (labs, vms) = disconnect-eq reach (connection_of given (get stopping.labs id)) stopping in
    let moved : Others id stopping cut = record {
      labs = λ other n. ap (λ d. get d other) labs;
      vms = λ other n. ap (λ d. get d other) vms;
    } in
    Agree-update_db_status reach id (if success then "TERMINATED" else "ERROR") stopping cut up
      moved (Agree-update_db_status reach id "STOPPING" w w up (same-Others id w) before)

save_local_state-eq :
    (reach : Reach) (w : World)
    → ((save_local_state reach w).labs ≡ w.labs) × ((save_local_state reach w).vms ≡ w.vms)
unfolding save_local_state
save_local_state-eq reach w = elim (Bool-cases reach.disk) [
  | inl y ↦ (rw (save_local_state, y) refl, rw (save_local_state, y) refl)
  | inr n ↦ (rw (save_local_state, n) refl, rw (save_local_state, n) refl)
]

Agree-start_lab_provisioning :
    (reach : Reach) (user_id protocol provider : String) (info : LabInfo) (w : World)
    → reach.database ≡ true
    → get w.vms info.lab_id ≡ none
    → info.status ≡ "PROVISIONING"
    → Agree w
    → Agree (start_lab_provisioning reach user_id protocol provider (some info) w).1
unfolding start_lab_provisioning
Agree-start_lab_provisioning reach user_id protocol provider info w up fresh new before =
    let id = info.lab_id in
    let lab : Lab = record {
      status = info.status;
      session_id = user_id;
      protocol = protocol;
      environment = info.environment;
      profile = info.profile;
      provider = provider;
      host = none;
      guacamole_connection_id = none;
    } in
    let row : VmInstance = record {
      status = "PROVISIONING";
      session_id = user_id;
      private_ip = none;
    } in
    let saved = save_local_state reach (record w { labs = put w.labs id lab }) in
    let w' : World = record saved { vms = put w.vms id row } in
    let labs : saved.labs ≡ put w.labs id lab =
      (save_local_state-eq reach (record w { labs = put w.labs id lab })).0 in
    let others : Others id w w' = record {
      labs = λ other n. ap (λ d. get d other) labs ∙ get-put_ne w.labs id other lab n;
      vms = λ other n. get-put_ne w.vms id other row n;
    } in
    let here : SameStatus (get w'.labs id) (get w'.vms id) =
      subst (λ o. SameStatus o (get w'.vms id))
        (sym (ap (λ d. get d id) labs ∙ get-put_self w.labs id lab))
        (subst (SameStatus (some lab)) (sym (get-put_self w.vms id row)) new) in
    rw (start_lab_provisioning, up, fresh) (Agree-Others id w w' others here before)

Agree-Call : (u v : World) → Call u v → Agree u → Agree v
Agree-Call u v (start reach user_id protocol provider info up fresh new) before =
    Agree-start_lab_provisioning reach user_id protocol provider info u up fresh new before
Agree-Call u v (readiness fmt reach id waited resolved up) before =
    Agree-process_lab_readiness fmt reach id waited resolved u up before
Agree-Call u v (terminate reach id given success up) before =
    Agree-terminate_lab reach id given success u up before

-- Over any history of starts, readiness checks and terminations, in which the database is always
-- reached and every start gets a fresh id and the status PROVISIONING, each lab keeps the same
-- status in memory and in the database, if they agreed to begin with.
pub History-Agree : (w w' : World) → History w w' → Agree w → Agree w'
History-Agree w w' begin before = before
History-Agree w w' (next u v h c) before = Agree-Call u w' c (History-Agree w u h before)
