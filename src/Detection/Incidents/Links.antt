-- ===== src/Detection/Incidents/Links.antt =====
-- The links of an incident to its events.
use shadow_trust_security.Prelude.{
  ℕ, suc, ◌+◌, ◌≤◌, ◌≡◌, refl, sym, ap, ◌∙◌, subst, String, Bool, true, false, Option, none, some,
  List, [], ◌∷◌, ◌++◌, ◌&&◌, arith, Bool-cases, Option-cases, inl, inr, str_eq, eq_iff, eq_refl,
  if◌then◌else◌, length, ltb, ◌==◌,
}
use shadow_trust_security.Detection.Incidents.{
  incident_severity, extended, assign, is_assigned, new_incident, find_incident, keep, Batch, State,
  Incident, IncidentEvent, Matched, correlate, link_and_score, new_links, is_linked,
}

abbrev pub is_link : String → String → IncidentEvent → Bool
is_link id event l = str_eq l.incident_id id && str_eq l.event_id event

-- How often an event is linked to an incident.
abbrev pub count_links : String → String → List IncidentEvent → ℕ
count_links id event [] = 0
count_links id event (l ∷ ls) =
    if is_link id event l then suc (count_links id event ls) else count_links id event ls

abbrev pub count_matched : String → List Matched → ℕ
count_matched event [] = 0
count_matched event (m ∷ ms) =
    if str_eq m.event_id event then suc (count_matched event ms) else count_matched event ms

-- No event is linked twice to one incident.
abbrev pub IsLinkedOnce : State → Type 0
IsLinkedOnce s = (id event : String) → count_links id event s.events ≤ 1

-- The events of a batch differ.
abbrev pub IsDistinct : Batch → Type 0
IsDistinct b = (event : String) → count_matched event b.matched ≤ 1

pub count_links-append :
    (id event : String) (ls ms : List IncidentEvent)
    → count_links id event (ls ++ ms) ≡ count_links id event ls + count_links id event ms
count_links-append id event [] ms = omega arith
count_links-append id event (l ∷ ls) ms =
    let rest = count_links-append id event ls ms in
    elim (Bool-cases (is_link id event l)) [
      | inl y ↦ rw (count_links, y) (omega (arith, rest))
      | inr n ↦ rw (count_links, n) rest
    ]

pub not_linked :
    (id event : String) (ls : List IncidentEvent)
    → is_linked id event ls ≡ false
    → count_links id event ls ≡ 0
not_linked id event [] h = refl
not_linked id event (l ∷ ls) h = elim (Bool-cases (is_link id event l)) [
  | inl y ↦ let at : is_linked id event (l ∷ ls) ≡ true = rw y refl in absurd (cc)
  | inr n ↦
      let at : is_linked id event (l ∷ ls) ≡ is_linked id event ls = rw n refl in
      rw (count_links, n) (not_linked id event ls (sym at ∙ h))
]

-- An event that is linked gets no new row.
new_links-linked :
    (id event : String) (old : List IncidentEvent) (ms : List Matched)
    → is_linked id event old ≡ true
    → count_links id event (new_links id old ms) ≡ 0
new_links-linked id event old [] h = refl
new_links-linked id event old (m ∷ ms) h =
    let rest = new_links-linked id event old ms h in
    elim (Bool-cases (is_linked id m.event_id old)) [
      | inl y ↦ rw (new_links, y) rest
      | inr n ↦ elim (Bool-cases (str_eq m.event_id event)) [
        | inl same ↦
            let e : m.event_id ≡ event = (eq_iff m.event_id event).0 same in
            let at : is_linked id m.event_id old ≡ true = ap (λ v. is_linked id v old) e ∙ h in
            absurd (cc)
        | inr apart ↦ rw (new_links, count_links, n, eq_refl id, apart) rest
      ]
    ]

-- New rows are for this incident, and no more than the batch has.
new_links-matched :
    (id event : String) (old : List IncidentEvent) (ms : List Matched)
    → count_links id event (new_links id old ms) ≤ count_matched event ms
new_links-matched id event old [] = omega arith
new_links-matched id event old (m ∷ ms) =
    let rest = new_links-matched id event old ms in
    elim (Bool-cases (is_linked id m.event_id old)) [
      | inl y ↦ elim (Bool-cases (str_eq m.event_id event)) [
        | inl same ↦ rw (new_links, count_matched, y, same) (omega (arith, rest))
        | inr apart ↦ rw (new_links, count_matched, y, apart) rest
      ]
      | inr n ↦ elim (Bool-cases (str_eq m.event_id event)) [
        | inl same ↦
            rw (new_links, count_matched, count_links, n, eq_refl id, same) (omega (arith, rest))
        | inr apart ↦ rw (new_links, count_matched, count_links, n, eq_refl id, apart) rest
      ]
    ]

new_links-other :
    (id other event : String) (old : List IncidentEvent) (ms : List Matched)
    → str_eq id other ≡ false
    → count_links other event (new_links id old ms) ≡ 0
new_links-other id other event old [] h = refl
new_links-other id other event old (m ∷ ms) h =
    let rest = new_links-other id other event old ms h in
    elim (Bool-cases (is_linked id m.event_id old)) [
      | inl y ↦ rw (new_links, y) rest
      | inr n ↦ rw (new_links, count_links, n, h) rest
    ]

linked_once :
    (id : String) (old : List IncidentEvent) (ms : List Matched) (i event : String)
    → count_matched event ms ≤ 1
    → count_links i event old ≤ 1
    → count_links i event (old ++ new_links id old ms) ≤ 1
linked_once id old ms i event distinct before =
    let whole = count_links-append i event old (new_links id old ms) in
    elim (Bool-cases (str_eq id i)) [
      | inr apart ↦ omega (arith, whole, before, new_links-other id i event old ms apart)
      | inl y ↦
          let same : id ≡ i = (eq_iff id i).0 y in
          elim (Bool-cases (is_linked i event old)) [
            | inl linked ↦
                let none_new : count_links i event (new_links id old ms) ≡ 0 =
                  subst (λ k. count_links i event (new_links k old ms) ≡ 0) (sym same)
                    (new_links-linked i event old ms linked) in
                omega (arith, whole, before, none_new)
            | inr free ↦
                let few : count_links i event (new_links id old ms) ≤ count_matched event ms =
                  subst (λ k. count_links i event (new_links k old ms) ≤ count_matched event ms)
                    (sym same) (new_links-matched i event old ms) in
                omega (arith, whole, not_linked i event old free, few, distinct)
          ]
    ]

link_and_score-events :
    (b : Batch) (i : Incident) (incidents : List Incident) (created : Bool) (s s' : State)
    → link_and_score b i incidents created s ≡ some s'
    → s'.events ≡ s.events ++ new_links i.id s.events b.matched
unfolding link_and_score
link_and_score-events b i incidents created s s' h =
    let all_detections = keep (is_assigned i.id) (assign i.id b.new_detections s.detections) in
    elim (Option-cases (incident_severity all_detections b.max_event_risk)) [
      | inl e ↦
          let at : link_and_score b i incidents created s ≡ none = rw (link_and_score, e) refl in
          absurd (cc)
      | inr (severity, e) ↦
          let events_of : Option State → List IncidentEvent =
            λ o. elim o [ none ↦ [] | some t ↦ t.events ] in
          let at : events_of (link_and_score b i incidents created s)
              ≡ s.events ++ new_links i.id s.events b.matched =
            rw (link_and_score, e) refl in
          ap events_of (sym h) ∙ at
    ]

-- Correlating a batch of different events keeps every event linked at most once to an incident.
pub correlate-IsLinkedOnce :
    (b : Batch) (now : ℕ) (s s' : State)
    → IsDistinct b
    → correlate b now s ≡ some s'
    → IsLinkedOnce s
    → IsLinkedOnce s'
unfolding correlate
correlate-IsLinkedOnce b now s s' distinct h before =
    elim (Bool-cases ((length b.new_detections == 0) && ltb b.max_event_risk 80)) [
      | inl y ↦
          let at : correlate b now s ≡ some s = rw (correlate, y) refl in
          let same : s ≡ s' = cc in subst IsLinkedOnce same before
      | inr n ↦ elim (Option-cases (find_incident b.ip now s.incidents)) [
        | inl e ↦
            let i = new_incident b (length s.incidents) now in
            let at : correlate b now s ≡ link_and_score b i (s.incidents ++ i ∷ []) true s =
              rw (correlate, n, e) refl in
            let events = link_and_score-events b i (s.incidents ++ i ∷ []) true s s' (sym at ∙ h) in
            λ id event.
              subst (λ ls. count_links id event ls ≤ 1) (sym events)
                (linked_once i.id s.events b.matched id event (distinct event) (before id event))
        | inr (found, e) ↦
            let i = extended b now found in
            let at : correlate b now s ≡ link_and_score b i s.incidents false s =
              rw (correlate, n, e) refl in
            let events = link_and_score-events b i s.incidents false s s' (sym at ∙ h) in
            λ id event.
              subst (λ ls. count_links id event ls ≤ 1) (sym events)
                (linked_once i.id s.events b.matched id event (distinct event) (before id event))
      ]
    ]
