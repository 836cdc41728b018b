-- ===== src/Incidents.antt =====
-- backend/app/api/v1/endpoints/incidents.py: what analysts do to incidents. The state is that of
-- Detection.Incidents with the audit trail. A handler that raises commits nothing.

pub mod Linking
pub mod Patching
mod Examples
use shadow_trust_security.Prelude.{
  ℕ, suc, ◌+◌, String, Bool, true, false, not, ◌&&◌, ◌||◌, Option, none, some, List, [], ◌∷◌, ◌++◌,
  map, elem, ltb, take, if◌then◌else◌, str_eq, codes, same_codes, upper,
}
use shadow_trust_security.Accounts.{Response, ok, http, raised}
use shadow_trust_security.Detection.Incidents.{
  State, Incident, IncidentEvent, Technique, update_incident, is_linked, sorted_set,
}

abbrev pub statuses : List String
statuses = "NEW" ∷ "TRIAGING" ∷ "INVESTIGATING" ∷ "CONTAINED" ∷ "RESOLVED" ∷ "FALSE_POSITIVE" ∷ []

abbrev pub severities : List String
severities = "LOW" ∷ "MEDIUM" ∷ "HIGH" ∷ "CRITICAL" ∷ []

abbrev pub max_link_events : ℕ
max_link_events = 500

-- A row of incident_activity; the detail is left out, and the row of admin_activity beside it.
pub record IncidentActivity : Type 0 where
  pub incident_id : String
  pub actor : String
  pub action : String

pub record Desk : Type 0 where
  pub state : State
  pub activities : List IncidentActivity

-- `text.upper()`, if it is one of the words.
abbrev pub upper_among : (ℕ → List ℕ) → String → List String → Option String
upper_among other text [] = none
upper_among other text (w ∷ ws) =
    if same_codes (upper other (codes text)) (codes w) then some w else upper_among other text ws

-- The body of a patch: `title` is the text cut at 500 characters, and `attack_techniques` what
-- `_clean_techniques` makes of the list, `none` inside being that it raises.
pub record IncidentPatch : Type 0 where
  pub status : Option String
  pub assigned_analyst : Option String
  pub title : Option String
  pub severity : Option String
  pub attack_techniques : Option (Option (List Technique))

-- The incident with the actions that are audited so far.
abbrev pub Draft : Type 0
Draft = Incident × List String

infixl 5 ◌>>=◌
abbrev pub ◌>>=◌ {ℓ κ} : {A : Type ℓ} {B : Type κ} → Response A → (A → Response B) → Response B
ok a >>= f = f a
http status detail >>= f = http status detail
raised >>= f = raised

unfoldable pub patch_status : (ℕ → List ℕ) → Option String → Draft → Response Draft
patch_status other none draft = ok draft
patch_status other (some text) (i, actions) = elim (upper_among other text statuses) [
  | none ↦ http 400 "status must be one of the statuses"
  | some new ↦
      if str_eq new i.status
      then ok (i, actions)
      else ok (record i { status = new }, actions ++ "STATUS_CHANGE" ∷ [])
]

abbrev pub same_analyst : String → Option String → Bool
same_analyst a none = false
same_analyst a (some b) = str_eq a b

-- `body.assigned_analyst or None`
abbrev pub analyst_or_none : String → Option String
analyst_or_none a = if str_eq a "" then none else some a

unfoldable pub patch_analyst : Option String → Draft → Draft
patch_analyst none draft = draft
patch_analyst (some a) (i, actions) =
    if same_analyst a i.assigned_analyst
    then (i, actions)
    else (record i { assigned_analyst = analyst_or_none a }, actions ++ "ASSIGN" ∷ [])

unfoldable pub patch_title : Option String → Draft → Draft
patch_title none draft = draft
patch_title (some t) (i, actions) =
    if str_eq t "" then (i, actions) else (record i { title = t }, actions)

unfoldable pub patch_severity : (ℕ → List ℕ) → Option String → Draft → Response Draft
patch_severity other none draft = ok draft
patch_severity other (some text) (i, actions) = elim (upper_among other text severities) [
  | none ↦ http 400 "invalid severity"
  | some new ↦
      if str_eq new i.severity
      then ok (i, actions)
      else ok (record i { severity = new }, actions ++ "STATUS_CHANGE" ∷ [])
]

abbrev pub has_technique_id : String → List Technique → Bool
has_technique_id id [] = false
has_technique_id id (t ∷ ts) = str_eq t.id id || has_technique_id id ts

abbrev pub techniques_among : List Technique → List Technique → Bool
techniques_among [] us = true
techniques_among (t ∷ ts) us = has_technique_id t.id us && techniques_among ts us

unfoldable pub patch_techniques : Option (Option (List Technique)) → Draft → Response Draft
patch_techniques none draft = ok draft
patch_techniques (some none) draft = http 400 "invalid ATT&CK technique id"
patch_techniques (some (some new)) (i, actions) =
    if techniques_among new i.attack_techniques && techniques_among i.attack_techniques new
    then ok (i, actions)
    else ok (record i { attack_techniques = new }, actions ++ "TECHNIQUES" ∷ [])

-- The changes in the order of the handler.
unfoldable pub apply_patch : (ℕ → List ℕ) → IncidentPatch → Incident → Response Draft
unfolding patch_status patch_analyst patch_title patch_severity patch_techniques
apply_patch other patch i = do
  d ← patch_status other patch.status (i, [])
  e ←
      patch_severity other patch.severity
        (patch_title patch.title (patch_analyst patch.assigned_analyst d))
  patch_techniques patch.attack_techniques e

-- By the id or by the key.
abbrev pub find_case : String → List Incident → Option Incident
find_case ref [] = none
find_case ref (i ∷ is) =
    if str_eq i.id ref || str_eq i.incident_key ref then some i else find_case ref is

abbrev pub audits : String → String → List String → List IncidentActivity
audits id actor [] = []
audits id actor (a ∷ actions) =
    record { incident_id = id; actor = actor; action = a } ∷ audits id actor actions

unfoldable pub patch_incident :
    (ℕ → List ℕ) → String → String → IncidentPatch → Desk → Response Incident × Desk
unfolding apply_patch
patch_incident other ref actor patch d = elim (find_case ref d.state.incidents) [
  | none ↦ (http 404 "incident not found", d)
  | some i ↦ elim (apply_patch other patch i) [
    | http status detail ↦ (http status detail, d)
    | raised ↦ (raised, d)
    | ok draft ↦ (
      ok draft.0,
      record {
        state = record d.state {
          incidents = update_incident i.id (λ j. draft.0) d.state.incidents;
        };
        activities = d.activities ++ audits i.id actor draft.1;
      },
    )
  ]
]

-- A normalized event, as linking reads it.
pub record StoredEvent : Type 0 where
  pub timestamp : ℕ
  pub source_ip : String
  pub username : String
  pub sensor : String

-- `[e for e in dict.fromkeys(event_ids) if e]`
abbrev pub distinct_ids : List String → List String → List String
distinct_ids seen [] = []
distinct_ids seen (e ∷ es) =
    let rest = distinct_ids (e ∷ seen) es in if str_eq e "" || elem e seen then rest else e ∷ rest

-- The rows after the loop: an id that is stored and not linked yet gets one.
abbrev pub link_rows :
    (String → Option StoredEvent)
    → String
    → String
    → List String
    → List IncidentEvent
    → List IncidentEvent
link_rows stored id reason [] rows = rows
link_rows stored id reason (e ∷ es) rows =
    let skipped = link_rows stored id reason es rows in
    let linked =
      link_rows stored id reason es
        (rows ++ record { incident_id = id; event_id = e; correlation_reason = reason } ∷ []) in
    elim (stored e) [ none ↦ skipped | some ev ↦ if is_linked id e rows then skipped else linked ]

-- The events that the loop links.
abbrev pub linked_events :
    (String → Option StoredEvent) → String → List String → List IncidentEvent → List StoredEvent
linked_events stored id [] rows = []
linked_events stored id (e ∷ es) rows =
    let rest = linked_events stored id es rows in
    elim (stored e) [ none ↦ rest | some ev ↦ if is_linked id e rows then rest else ev ∷ rest ]

abbrev pub present : List String → List String
present [] = []
present (s ∷ ss) = if str_eq s "" then present ss else s ∷ present ss

-- The window and the attribution take in an event.
abbrev pub widen : List StoredEvent → Incident → Incident
widen [] i = i
widen (ev ∷ evs) i = widen evs (record i {
  first_seen = if ltb ev.timestamp i.first_seen then ev.timestamp else i.first_seen;
  last_seen = if ltb i.last_seen ev.timestamp then ev.timestamp else i.last_seen;
  source_ips = sorted_set (i.source_ips ++ present (ev.source_ip ∷ []));
  related_users = sorted_set (i.related_users ++ present (ev.username ∷ []));
  related_sensors = sorted_set (i.related_sensors ++ present (ev.sensor ∷ []));
})

-- `reason` is the stripped and cut text, or "linked by analyst".
unfoldable pub link_events :
    (String → Option StoredEvent)
    → String
    → String
    → String
    → List String
    → Desk
    → Response (Unit {0}) × Desk
link_events stored ref actor reason event_ids d = elim (find_case ref d.state.incidents) [
  | none ↦ (http 404 "incident not found", d)
  | some i ↦
      let ids = take max_link_events (distinct_ids [] event_ids) in
      let events = linked_events stored i.id ids d.state.events in
      (
        ok tt,
        record {
          state = record d.state {
            incidents = update_incident i.id (λ j. widen events i) d.state.incidents;
            events = link_rows stored i.id reason ids d.state.events;
          };
          activities =
              d.activities
              ++ (elim events [ [] ↦ [] | e ∷ es ↦ audits i.id actor ("EVENTS_LINK" ∷ []) ]);
        },
      )
]
