-- ===== src/Incidents/Linking.antt =====
-- Analysts link events as carefully as the engine does.
use shadow_trust_security.Prelude.{
  ap₂, and_right, and_left, ◌≤◌, ◌≡◌, refl, sym, ◌∙◌, String, false, Option, List, [], ◌∷◌, ◌++◌,
  arith, Bool-cases, Option-cases, inl, inr, str_eq, eq_iff,
}
use shadow_trust_security.Detection.Incidents.{IncidentEvent, is_linked}
use shadow_trust_security.Incidents.{
  distinct_ids, max_link_events, take, find_case, Desk, StoredEvent, link_rows, link_events,
}
use shadow_trust_security.Detection.Incidents.Links.{
  not_linked, is_link, count_links-append, IsLinkedOnce, count_links,
}

one_more :
    (id e reason : String) (rows : List IncidentEvent) (i event : String)
    → is_linked id e rows ≡ false
    → count_links i event rows ≤ 1
    → count_links i event
        (rows ++ record { incident_id = id; event_id = e; correlation_reason = reason } ∷ [])
      ≤ 1
one_more id e reason rows i event free before =
    let row : IncidentEvent = record {
      incident_id = id;
      event_id = e;
      correlation_reason = reason;
    } in
    let whole = count_links-append i event rows (row ∷ []) in
    elim (Bool-cases (is_link i event row)) [
      | inr n ↦
          let at : count_links i event (row ∷ []) ≡ 0 = rw (count_links, n) refl in
          omega (arith, whole, at, before)
      | inl y ↦
          let same_id : id ≡ i = (eq_iff id i).0 (and_left (str_eq id i) (str_eq e event) y) in
          let same_event : e ≡ event =
            (eq_iff e event).0 (and_right (str_eq id i) (str_eq e event) y) in
          let at : count_links i event (row ∷ []) ≡ 1 = rw (count_links, y) refl in
          let fresh : is_linked i event rows ≡ false =
            ap₂ (λ a b. is_linked a b rows) (sym same_id) (sym same_event) ∙ free in
          omega (arith, whole, at, not_linked i event rows fresh)
    ]

link_rows_once :
    (stored : String → Option StoredEvent) (id reason : String) (ids : List String)
    (rows : List IncidentEvent) (i event : String)
    → count_links i event rows ≤ 1
    → count_links i event (link_rows stored id reason ids rows) ≤ 1
link_rows_once stored id reason [] rows i event before = before
link_rows_once stored id reason (e ∷ es) rows i event before = elim (Option-cases (stored e)) [
  | inl nothing ↦ rw (link_rows, nothing) (link_rows_once stored id reason es rows i event before)
  | inr (ev, found) ↦ elim (Bool-cases (is_linked id e rows)) [
    | inl y ↦ rw (link_rows, found, y) (link_rows_once stored id reason es rows i event before)
    | inr n ↦
        rw (link_rows, found, n)
          (link_rows_once stored id reason es _ i event
            (one_more id e reason rows i event n before))
  ]
]

-- Whatever ids an analyst links, also ids that are repeated, unknown or linked already, no event is
-- linked twice to an incident, if none was before.
pub link_events-IsLinkedOnce :
    (stored : String → Option StoredEvent) (ref actor reason : String) (event_ids : List String)
    (d : Desk)
    → IsLinkedOnce d.state
    → IsLinkedOnce (link_events stored ref actor reason event_ids d).1.state
unfolding link_events
link_events-IsLinkedOnce stored ref actor reason event_ids d before =
    elim (Option-cases (find_case ref d.state.incidents)) [
      | inl e ↦ rw (link_events, e) before
      | inr (i, e) ↦
          rw (link_events, e)
            (λ id event.
              link_rows_once stored i.id reason (take max_link_events (distinct_ids [] event_ids))
                d.state.events id event (before id event))
    ]
