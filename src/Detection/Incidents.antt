-- ===== src/Detection/Incidents.antt =====
-- backend/app/services/detection_engine.py, from the new detections of a source to its incident:
-- `_correlate` with the score. The state is the committed rows. Scores and confidences are in
-- hundredths, before the score is rounded to a tenth; times are in microseconds.
pub mod Links
pub mod Reuse
mod Examples
use Prim.Native.Nat.{Ordering}
use Prim.Native.String.{String, compare}
use shadow_trust_security.Prelude.{
  ◌==◌, ℕ, ◌+◌, ◌-◌, ◌*◌, min, max, Bool, true, false, not, ◌&&◌, ◌||◌, Option, none, some, List,
  [], ◌∷◌, ◌++◌, map, keep, elem, ltb, leb, if◌then◌else◌, str_eq, length,
}

-- _INCIDENT_WINDOW, six hours.
abbrev pub incident_window : ℕ
incident_window = 21600000000

abbrev pub open_statuses : List String
open_statuses = "NEW" ∷ "TRIAGING" ∷ "INVESTIGATING" ∷ "CONTAINED" ∷ []

-- `severity_rank`, on the upper-case severities of the rules.
abbrev pub severity_rank : String → ℕ
severity_rank s =
    if str_eq s "CRITICAL"
    then 4
    else if str_eq s "HIGH"
    then 3
    else if str_eq s "MEDIUM"
    then 2
    else if str_eq s "LOW"
    then 1
    else 0

pub record Technique : Type 0 where
  pub id : String
  pub tactic : Option String
  pub name : String

pub record Detection : Type 0 where
  pub id : String
  pub rule_name : String
  pub severity : String
  pub confidence : ℕ
  pub attack_technique : Option String
  pub attack_tactic : Option String
  pub reason : String
  pub incident_id : Option String

pub record Incident : Type 0 where
  pub id : String
  pub incident_key : String
  pub correlation_key : String
  pub title : String
  pub severity : String
  pub status : String
  pub confidence : ℕ
  pub risk_score : ℕ
  pub first_seen : ℕ
  pub last_seen : ℕ
  pub source_ips : List String
  pub related_users : List String
  pub related_sensors : List String
  pub attack_techniques : List Technique
  pub detection_reasons : List String
  pub assigned_analyst : Option String

pub record IncidentEvent : Type 0 where
  pub incident_id : String
  pub event_id : String
  pub correlation_reason : String

pub record IncidentIoc : Type 0 where
  pub incident_id : String
  pub ioc_type : String
  pub ioc_value : String

pub record State : Type 0 where
  pub incidents : List Incident
  pub detections : List Detection
  pub events : List IncidentEvent
  pub iocs : List IncidentIoc
  pub created : List String

-- An event that a detection or its own risk brings in; the ids of a batch differ.
pub record Matched : Type 0 where
  pub event_id : String
  pub sensor : String
  pub username : String
  pub reason : String

-- What a call is about, with the id that a new incident draws and the texts it gets.
pub record Batch : Type 0 where
  pub ip : String
  pub new_detections : List Detection
  pub matched : List Matched
  pub iocs : List (String × String)
  pub max_event_risk : ℕ
  pub session_events : ℕ
  pub malware_linked : Bool
  pub incident_id : String
  pub key : ℕ → String
  pub title : String

-- `sorted(set(...))`
abbrev pub insert_text : String → List String → List String
insert_text s [] = s ∷ []
insert_text s (t ∷ ts) =
    let rest = insert_text s ts in
    elim (compare s t) [ Ordering.lt ↦ s ∷ t ∷ ts | Ordering.eq ↦ t ∷ ts | Ordering.gt ↦ t ∷ rest ]

abbrev pub sorted_set : List String → List String
sorted_set [] = []
sorted_set (s ∷ ss) = insert_text s (sorted_set ss)

-- Those that are not empty.
abbrev pub filled : List String → List String
filled [] = []
filled (s ∷ ss) = if str_eq s "" then filled ss else s ∷ filled ss

abbrev pub technique_of : Detection → List Technique
technique_of d = elim d.attack_technique [
  | none ↦ []
  | some t ↦
      if str_eq t ""
      then []
      else record { id = t; tactic = d.attack_tactic; name = d.rule_name } ∷ []
]

abbrev pub techniques_of : List Detection → List Technique
techniques_of [] = []
techniques_of (d ∷ ds) = technique_of d ++ techniques_of ds

abbrev pub has_technique : String → List Technique → Bool
has_technique id [] = false
has_technique id (t ∷ ts) = str_eq t.id id || has_technique id ts

-- `_merge_techniques`
abbrev pub merge_techniques : List Technique → List Technique → List Technique
merge_techniques have [] = have
merge_techniques have (t ∷ ts) =
    let known = merge_techniques have ts in
    let added = merge_techniques (have ++ t ∷ []) ts in
    if has_technique t.id have then known else added

abbrev pub top_rank : List Detection → ℕ
top_rank [] = 0
top_rank (d ∷ ds) = max (severity_rank d.severity) (top_rank ds)

-- The rank that the risk of an event brings in, if it brings one in.
abbrev pub risk_rank : ℕ → ℕ
risk_rank risk = if leb 80 risk then 4 else if leb 55 risk then 3 else 0

-- `_incident_severity`: without a rank it is 1, and the lookup of the rank 0 raises, which is `none`.
unfoldable pub incident_severity : List Detection → ℕ → Option String
incident_severity detections risk =
    let top =
      if (length detections == 0) && (risk_rank risk == 0)
      then 1
      else max (top_rank detections) (risk_rank risk) in
    if top == 4
    then some "CRITICAL"
    else if top == 3
    then some "HIGH"
    else if top == 2
    then some "MEDIUM"
    else if top == 1
    then some "LOW"
    else none

abbrev pub top_severity : List Detection → ℕ
top_severity [] = 1
top_severity (d ∷ ds) = top_rank (d ∷ ds)

-- `_incident_risk`
unfoldable pub incident_risk : List Detection → List String → ℕ → ℕ → Bool → ℕ
incident_risk detections techniques risk session_events malware_linked = min 10000 (
    top_severity detections * 1800
    + min (length detections * 600) 2400
    + min (length (sorted_set techniques) * 500) 2000
    + min (risk * 15) 1500
    + min (session_events * 20) 1000
    + (if malware_linked then 2000 else 0))

abbrev pub top_confidence : List Detection → ℕ
top_confidence [] = 0
top_confidence (d ∷ ds) = max d.confidence (top_confidence ds)

abbrev pub incident_confidence : List Detection → ℕ
incident_confidence [] = 35
incident_confidence (d ∷ ds) = min 99 (top_confidence (d ∷ ds) + 5 * length ds)

-- An open incident of the source that was seen within the window.
abbrev pub is_current : String → ℕ → Incident → Bool
is_current ip now i =
    str_eq i.correlation_key ip
    && (elem i.status open_statuses && leb now (i.last_seen + incident_window))

-- The one that was seen last.
abbrev pub later : Incident → Option Incident → Incident
later i none = i
later i (some j) = if ltb i.last_seen j.last_seen then j else i

unfoldable pub find_incident : String → ℕ → List Incident → Option Incident
find_incident ip now [] = none
find_incident ip now (i ∷ is) =
    let rest = find_incident ip now is in if is_current ip now i then some (later i rest) else rest

abbrev pub update_incident : String → (Incident → Incident) → List Incident → List Incident
update_incident id f [] = []
update_incident id f (i ∷ is) = (if str_eq i.id id then f i else i) ∷ update_incident id f is

abbrev pub reasons_of : List Detection → List String
reasons_of ds = filled (map (λ d. d.reason) ds)

abbrev pub users_of : List Matched → List String
users_of ms = sorted_set (filled (map (λ m. m.username) ms))

abbrev pub sensors_of : List Matched → List String
sensors_of ms = sorted_set (filled (map (λ m. m.sensor) ms))

-- The new row, before it is scored.
abbrev pub new_incident : Batch → ℕ → ℕ → Incident
new_incident b count now = record {
  id = b.incident_id;
  incident_key = b.key (count + 1);
  correlation_key = b.ip;
  title = b.title;
  severity = "LOW";
  status = "NEW";
  confidence = 50;
  risk_score = 0;
  first_seen = now;
  last_seen = now;
  source_ips = b.ip ∷ [];
  related_users = users_of b.matched;
  related_sensors = sensors_of b.matched;
  attack_techniques = techniques_of b.new_detections;
  detection_reasons = sorted_set (reasons_of b.new_detections);
  assigned_analyst = none;
}

abbrev pub extended : Batch → ℕ → Incident → Incident
extended b now i = record i {
  last_seen = now;
  source_ips = sorted_set (i.source_ips ++ b.ip ∷ []);
  related_users = sorted_set (i.related_users ++ users_of b.matched);
  related_sensors = sorted_set (i.related_sensors ++ sensors_of b.matched);
  attack_techniques = merge_techniques i.attack_techniques (techniques_of b.new_detections);
  detection_reasons = sorted_set (i.detection_reasons ++ reasons_of b.new_detections);
}

abbrev pub has_detection : String → List Detection → Bool
has_detection id [] = false
has_detection id (d ∷ ds) = str_eq d.id id || has_detection id ds

-- `d.incident_id = incident.id` for the new detections.
abbrev pub assign : String → List Detection → List Detection → List Detection
assign id new [] = []
assign id new (d ∷ ds) =
    (if has_detection d.id new then record d { incident_id = some id } else d) ∷ assign id new ds

abbrev pub is_assigned : String → Detection → Bool
is_assigned id d = elim d.incident_id [ none ↦ false | some i ↦ str_eq i id ]

abbrev pub is_linked : String → String → List IncidentEvent → Bool
is_linked id event [] = false
is_linked id event (l ∷ ls) =
    (str_eq l.incident_id id && str_eq l.event_id event) || is_linked id event ls

-- A row for every matched event that was not linked before.
abbrev pub new_links : String → List IncidentEvent → List Matched → List IncidentEvent
new_links id old [] = []
new_links id old (m ∷ ms) =
    let rest = new_links id old ms in
    if is_linked id m.event_id old
    then rest
    else record { incident_id = id; event_id = m.event_id; correlation_reason = m.reason } ∷ rest

abbrev pub has_ioc : String → String → List IncidentIoc → Bool
has_ioc id value [] = false
has_ioc id value (l ∷ ls) =
    (str_eq l.incident_id id && str_eq l.ioc_value value) || has_ioc id value ls

abbrev pub new_iocs : String → List IncidentIoc → List (String × String) → List IncidentIoc
new_iocs id old [] = []
new_iocs id old ((kind, value) ∷ rest) =
    if has_ioc id value old
    then new_iocs id old rest
    else record { incident_id = id; ioc_type = kind; ioc_value = value } ∷ new_iocs id old rest

-- The links and the score, once the incident is there. A severity that cannot be looked up raises,
-- and then nothing is committed.
unfoldable pub link_and_score : Batch → Incident → List Incident → Bool → State → Option State
unfolding incident_severity incident_risk
link_and_score b incident incidents created s =
    let detections = assign incident.id b.new_detections s.detections in
    let all_detections = keep (is_assigned incident.id) detections in
    let techniques = map (λ t. t.id) incident.attack_techniques in
    elim (incident_severity all_detections b.max_event_risk) [
      | none ↦ none
      | some severity ↦ some (record {
        incidents =
            update_incident incident.id
              (λ i. record incident {
                severity = severity;
                confidence = incident_confidence all_detections;
                risk_score =
                    incident_risk all_detections techniques b.max_event_risk b.session_events
                      b.malware_linked;
              })
              incidents;
        detections = detections;
        events = s.events ++ new_links incident.id s.events b.matched;
        iocs = s.iocs ++ new_iocs incident.id s.iocs b.iocs;
        created = if created then s.created ++ incident.id ∷ [] else s.created;
      })
    ]

-- `_correlate`; the attaching of malware evidence is left out.
unfoldable pub correlate : Batch → ℕ → State → Option State
unfolding find_incident link_and_score
correlate b now s =
    if (length b.new_detections == 0) && ltb b.max_event_risk 80
    then some s
    else elim (find_incident b.ip now s.incidents) [
      | none ↦
          let i = new_incident b (length s.incidents) now in
          link_and_score b i (s.incidents ++ i ∷ []) true s
      | some i ↦ link_and_score b (extended b now i) s.incidents false s
    ]
