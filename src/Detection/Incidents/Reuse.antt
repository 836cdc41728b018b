-- ===== src/Detection/Incidents/Reuse.antt =====
-- An open incident takes in what follows it.
use shadow_trust_security.Prelude.{
  le→leb, and_left, and_right, ◌⊎◌, false≢true, ℕ, suc, ◌+◌, ◌≤◌, ◌≡◌, ◌≢◌, refl, sym, ap, ◌∙◌,
  subst, String, Bool, true, false, Option, none, some, List, [], ◌∷◌, ◌++◌, ◌&&◌, ◌||◌, Bool-cases,
  Option-cases, inl, inr, str_eq, eq_iff, eq_refl, length, ltb, leb, ◌==◌, elem,
}
use shadow_trust_security.Detection.Incidents.{
  map, incident_risk, incident_confidence, incident_severity, is_assigned, keep, new_incident,
  extended, assign, open_statuses, incident_window, Batch, State, Incident, correlate,
  link_and_score, find_incident, is_current, later, update_incident,
}

-- Some incident is open for the source, and in its window.
abbrev has_current : String → ℕ → List Incident → Bool
has_current ip now [] = false
has_current ip now (i ∷ is) = is_current ip now i || has_current ip now is

abbrev has_id : String → List Incident → Bool
has_id id [] = false
has_id id (i ∷ is) = str_eq i.id id || has_id id is

or_true : (b : Bool) → (b || true) ≡ true
or_true true = refl
or_true false = refl

find_incident-has_current :
    (ip : String) (now : ℕ) (is : List Incident)
    → has_current ip now is ≡ true
    → find_incident ip now is ≢ none
unfolding find_incident
find_incident-has_current ip now [] h e = absurd (false≢true h)
find_incident-has_current ip now (i ∷ is) h e = elim (Bool-cases (is_current ip now i)) [
  | inl y ↦
      let at : find_incident ip now (i ∷ is) ≡ some (later i (find_incident ip now is)) =
        rw (find_incident, y) refl in
      absurd (cc)
  | inr n ↦
      let at : find_incident ip now (i ∷ is) ≡ find_incident ip now is =
        rw (find_incident, n) refl in
      let rest : has_current ip now (i ∷ is) ≡ has_current ip now is = rw n refl in
      find_incident-has_current ip now is (sym rest ∙ h) (sym at ∙ e)
]

later-cases : (i : Incident) (o : Option Incident) → (later i o ≡ i) ⊎ (o ≡ some (later i o))
later-cases i none = inl refl
later-cases i (some j) = elim (Bool-cases (ltb i.last_seen j.last_seen)) [
  | inl y ↦ inr (rw y refl)
  | inr n ↦ inl (rw n refl)
]

-- What is found is a row of the table, and current.
find_incident-some :
    (ip : String) (now : ℕ) (is : List Incident) (i : Incident)
    → find_incident ip now is ≡ some i
    → (is_current ip now i ≡ true) × (has_id i.id is ≡ true)
unfolding find_incident
find_incident-some ip now [] i h = let at : find_incident ip now [] ≡ none = refl in absurd (cc)
find_incident-some ip now (j ∷ is) i h =
    let found = find_incident ip now is in
    elim (Bool-cases (is_current ip now j)) [
      | inr n ↦
          let at : find_incident ip now (j ∷ is) ≡ found = rw (find_incident, n) refl in
          let (current, id) = find_incident-some ip now is i (sym at ∙ h) in
          (current, rw id (or_true (str_eq j.id i.id)))
      | inl y ↦
          let at : find_incident ip now (j ∷ is) ≡ some (later j found) =
            rw (find_incident, y) refl in
          let same : later j found ≡ i = cc in
          elim (later-cases j found) [
            | inl own ↦
                let e : j ≡ i = sym own ∙ same in
                (
                  subst (λ k. is_current ip now k ≡ true) e y,
                  rw (subst (λ k. str_eq j.id k.id ≡ true) e (eq_refl j.id)) refl,
                )
            | inr other ↦
                let (current, id) = find_incident-some ip now is i (other ∙ ap some same) in
                (current, rw id (or_true (str_eq j.id i.id)))
          ]
    ]

-- The rows with an id are replaced by a current one.
has_current-update_incident :
    (ip : String) (now : ℕ) (id : String) (i : Incident) (is : List Incident)
    → is_current ip now i ≡ true
    → has_id id is ≡ true
    → has_current ip now (update_incident id (λ j. i) is) ≡ true
has_current-update_incident ip now id i [] current h = absurd (false≢true h)
has_current-update_incident ip now id i (j ∷ is) current h = elim (Bool-cases (str_eq j.id id)) [
  | inl y ↦ rw (update_incident, has_current, y, current) refl
  | inr n ↦
      let at : has_id id (j ∷ is) ≡ has_id id is = rw n refl in
      let rest = has_current-update_incident ip now id i is current (sym at ∙ h) in
      rw (update_incident, has_current, n, rest) (or_true (is_current ip now j))
]

has_id-append_self : (i : Incident) (is : List Incident) → has_id i.id (is ++ i ∷ []) ≡ true
has_id-append_self i [] = rw (eq_refl i.id) refl
has_id-append_self i (j ∷ is) = rw (has_id-append_self i is) (or_true (str_eq j.id i.id))

-- The incident stays open for its source until the window has passed.
record IsOpen (ip : String) (now : ℕ) (i : Incident) : Type 0 where
  source : i.correlation_key ≡ ip
  status : elem i.status open_statuses ≡ true
  seen : i.last_seen ≡ now

IsOpen-is_current :
    (ip : String) (now later_now : ℕ) (i : Incident)
    → IsOpen ip now i
    → later_now ≤ now + incident_window
    → is_current ip later_now i ≡ true
IsOpen-is_current ip now later_now i o within =
    let source : str_eq i.correlation_key ip ≡ true = (eq_iff i.correlation_key ip).1 o.source in
    let bound : leb later_now (i.last_seen + incident_window) ≡ true =
      subst (λ t. leb later_now (t + incident_window) ≡ true) (sym o.seen)
        (le→leb later_now (now + incident_window) within) in
    rw (source, o.status, bound) refl

link_and_score-has_current :
    (b : Batch) (i : Incident) (is : List Incident) (created : Bool) (s s' : State)
    (now later_now : ℕ)
    → IsOpen b.ip now i
    → has_id i.id is ≡ true
    → later_now ≤ now + incident_window
    → link_and_score b i is created s ≡ some s'
    → has_current b.ip later_now s'.incidents ≡ true
unfolding link_and_score
link_and_score-has_current b i is created s s' now later_now o has within h =
    let detections = assign i.id b.new_detections s.detections in
    let all_detections = keep (is_assigned i.id) detections in
    elim (Option-cases (incident_severity all_detections b.max_event_risk)) [
      | inl e ↦
          let at : link_and_score b i is created s ≡ none = rw (link_and_score, e) refl in
          absurd (cc)
      | inr (severity, e) ↦
          let scored : Incident = record i {
            severity = severity;
            confidence = incident_confidence all_detections;
            risk_score =
                incident_risk all_detections (map (λ t. t.id) i.attack_techniques) b.max_event_risk
                  b.session_events b.malware_linked;
          } in
          let incidents_of : Option State → List Incident =
            λ o. elim o [ none ↦ [] | some t ↦ t.incidents ] in
          let at : incidents_of (link_and_score b i is created s)
              ≡ update_incident i.id (λ j. scored) is =
            rw (link_and_score, e) refl in
          let rows : s'.incidents ≡ update_incident i.id (λ j. scored) is =
            ap incidents_of (sym h) ∙ at in
          let open_scored : IsOpen b.ip now scored = record {
            source = o.source;
            status = o.status;
            seen = o.seen;
          } in
          subst (λ rs. has_current b.ip later_now rs ≡ true) (sym rows)
            (has_current-update_incident b.ip later_now i.id scored is
              (IsOpen-is_current b.ip now later_now scored open_scored within) has)
    ]

-- A batch with a new detection, or with an event of risk 80 or more.
abbrev pub IsNotable : Batch → Type 0
IsNotable b = ((length b.new_detections == 0) && ltb b.max_event_risk 80) ≡ false

correlate-has_current :
    (b : Batch) (now later_now : ℕ) (s s' : State)
    → IsNotable b
    → correlate b now s ≡ some s'
    → later_now ≤ now + incident_window
    → has_current b.ip later_now s'.incidents ≡ true
unfolding correlate
correlate-has_current b now later_now s s' notable h within =
    elim (Option-cases (find_incident b.ip now s.incidents)) [
      | inl e ↦
          let i = new_incident b (length s.incidents) now in
          let at : correlate b now s ≡ link_and_score b i (s.incidents ++ i ∷ []) true s =
            rw (correlate, notable, e) refl in
          let o : IsOpen b.ip now i = record { source = refl; status = refl; seen = refl } in
          link_and_score-has_current b i (s.incidents ++ i ∷ []) true s s' now later_now o
            (has_id-append_self i s.incidents) within (sym at ∙ h)
      | inr (found, e) ↦
          let i = extended b now found in
          let at : correlate b now s ≡ link_and_score b i s.incidents false s =
            rw (correlate, notable, e) refl in
          let (current, has) = find_incident-some b.ip now s.incidents found e in
          let rest = and_right (str_eq found.correlation_key b.ip) _ current in
          let o : IsOpen b.ip now i = record {
            source =
                (eq_iff found.correlation_key b.ip).0
                  (and_left (str_eq found.correlation_key b.ip) _ current);
            status = and_left (elem found.status open_statuses) _ rest;
            seen = refl;
          } in
          link_and_score-has_current b i s.incidents false s s' now later_now o has within
            (sym at ∙ h)
    ]

length-update_incident :
    (id : String) (f : Incident → Incident) (is : List Incident)
    → length (update_incident id f is) ≡ length is
length-update_incident id f [] = refl
length-update_incident id f (i ∷ is) = ap suc (length-update_incident id f is)

link_and_score-length :
    (b : Batch) (i : Incident) (is : List Incident) (created : Bool) (s s' : State)
    → link_and_score b i is created s ≡ some s'
    → length s'.incidents ≡ length is
unfolding link_and_score
link_and_score-length b i is created s s' h =
    let detections = assign i.id b.new_detections s.detections in
    let all_detections = keep (is_assigned i.id) detections in
    elim (Option-cases (incident_severity all_detections b.max_event_risk)) [
      | inl e ↦
          let at : link_and_score b i is created s ≡ none = rw (link_and_score, e) refl in
          absurd (cc)
      | inr (severity, e) ↦
          let count_of : Option State → ℕ =
            λ o. elim o [ none ↦ 0 | some t ↦ length t.incidents ] in
          let at : count_of (link_and_score b i is created s) ≡ length is =
            rw (link_and_score, e) (length-update_incident i.id _ is) in
          ap count_of (sym h) ∙ at
    ]

-- After a batch with a new detection, or with an event of risk 80 or more, its source gets no second
-- incident within the next six hours: the next batch of the source is taken in by an incident that
-- is there, whatever the batch holds.
pub correlate-correlate :
    (b c : Batch) (now later_now : ℕ) (s s' s'' : State)
    → IsNotable b
    → c.ip ≡ b.ip
    → later_now ≤ now + incident_window
    → correlate b now s ≡ some s'
    → correlate c later_now s' ≡ some s''
    → length s''.incidents ≡ length s'.incidents
unfolding correlate
correlate-correlate b c now later_now s s' s'' notable same within first second =
    elim (Bool-cases ((length c.new_detections == 0) && ltb c.max_event_risk 80)) [
      | inl y ↦
          let at : correlate c later_now s' ≡ some s' = rw (correlate, y) refl in
          let whole : s' ≡ s'' = cc in ap (λ t. length t.incidents) (sym whole)
      | inr n ↦ elim (Option-cases (find_incident c.ip later_now s'.incidents)) [
        | inl e ↦
            let current =
              subst (λ ip. has_current ip later_now s'.incidents ≡ true) (sym same)
                (correlate-has_current b now later_now s s' notable first within) in
            absurd (find_incident-has_current c.ip later_now s'.incidents current e)
        | inr (found, e) ↦
            let i = extended c later_now found in
            let at : correlate c later_now s' ≡ link_and_score c i s'.incidents false s' =
              rw (correlate, n, e) refl in
            link_and_score-length c i s'.incidents false s' s'' (sym at ∙ second)
      ]
    ]
