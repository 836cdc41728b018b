-- ===== src/Incidents/Examples.antt =====
-- An analyst works on the incident that the engine has made.
use shadow_trust_security.Prelude.{
  codes, upper, ℕ, ◌≡◌, refl, String, false, Option, none, some, List, [], ◌∷◌, arith,
}
use shadow_trust_security.Detection.Incidents.{
  incident_risk, incident_severity, link_and_score, find_incident, Incident, correlate,
}
use shadow_trust_security.Incidents.{
  codes, upper, patch_techniques, patch_severity, patch_title, patch_analyst, patch_status,
  apply_patch, map, Desk, IncidentPatch, StoredEvent, patch_incident, link_events,
}
use shadow_trust_security.Incidents.Patching.{Patched, patch_incident-Patched}
use shadow_trust_security.Incidents.Linking.{link_events-IsLinkedOnce}
use shadow_trust_security.Detection.Incidents.Links.{IsLinkedOnce}

abbrev incident : Incident
incident = record {
  id = "i1";
  incident_key = "INC-000001";
  correlation_key = "10.0.0.9";
  title = "SSH brute force";
  severity = "HIGH";
  status = "NEW";
  confidence = 80;
  risk_score = 5000;
  first_seen = 5;
  last_seen = 7;
  source_ips = "10.0.0.9" ∷ [];
  related_users = [];
  related_sensors = [];
  attack_techniques = [];
  detection_reasons = [];
  assigned_analyst = none;
}

abbrev desk : Desk
desk = record {
  state = record {
    incidents = incident ∷ [];
    detections = [];
    events = [];
    iocs = [];
    created = [];
  };
  activities = [];
}

abbrev same : ℕ → List ℕ
same c = c ∷ []

abbrev triage : IncidentPatch
triage = record {
  status = some "triaging";
  assigned_analyst = some "ann@lab";
  title = none;
  severity = some "LOW";
  attack_techniques = none;
}

abbrev actions : Desk → List String
actions d = map (λ a. a.action) d.activities

triage-actions :
    actions (patch_incident same "INC-000001" "ann@lab" triage desk).1
    ≡ "STATUS_CHANGE" ∷ "ASSIGN" ∷ "STATUS_CHANGE" ∷ []
unfolding patch_incident apply_patch patch_status patch_analyst patch_title patch_severity
    patch_techniques upper codes
triage-actions = refl

patch_incident-Patched_example : Patched same "INC-000001" "ann@lab" triage desk
patch_incident-Patched_example = patch_incident-Patched same "INC-000001" "ann@lab" triage desk

-- What the engine makes of the analyst's severity LOW at the next event of the source.
abbrev severities_after : Desk → List String
severities_after d =
    elim (correlate
      (record {
        ip = "10.0.0.9";
        new_detections = [];
        matched = [];
        iocs = [];
        max_event_risk = 80;
        session_events = 1;
        malware_linked = false;
        incident_id = "i2";
        key = λ n. "INC";
        title = "High-risk activity";
      })
      9 d.state) [ none ↦ [] | some s ↦ map (λ i. i.severity) s.incidents ]

override_lost :
    severities_after (patch_incident same "INC-000001" "ann@lab" triage desk).1 ≡ "CRITICAL" ∷ []
unfolding patch_incident apply_patch patch_status patch_analyst patch_title patch_severity
    patch_techniques upper codes correlate find_incident link_and_score incident_severity
    incident_risk
override_lost = refl

abbrev stored : String → Option StoredEvent
stored e =
    some (record { timestamp = 3; source_ip = "10.0.0.9"; username = "root"; sensor = "cowrie" })

desk-IsLinkedOnce : IsLinkedOnce desk.state
desk-IsLinkedOnce id event = omega arith

link_events-IsLinkedOnce_example :
    IsLinkedOnce
      (link_events stored "i1" "ann@lab" "linked by analyst" ("e1" ∷ "e1" ∷ []) desk).1.state
link_events-IsLinkedOnce_example =
    link_events-IsLinkedOnce stored "i1" "ann@lab" "linked by analyst" ("e1" ∷ "e1" ∷ []) desk
      desk-IsLinkedOnce
