-- ===== src/Detection/Incidents/Examples.antt =====
-- Two batches of one source.
use shadow_trust_security.Prelude.{
  ℕ, ◌≡◌, refl, String, false, none, some, List, [], ◌∷◌, arith, length, Bool-cases, inl, inr,
  str_eq,
}
use shadow_trust_security.Detection.Incidents.{
  incident_risk, incident_severity, link_and_score, find_incident, Batch, State, Detection,
  correlate,
}
use shadow_trust_security.Detection.Incidents.Links.{
  IsLinkedOnce, IsDistinct, correlate-IsLinkedOnce, count_matched,
}
use shadow_trust_security.Detection.Incidents.Reuse.{correlate-correlate}

abbrev brute_force : Detection
brute_force = record {
  id = "d1";
  rule_name = "SSH brute force";
  severity = "HIGH";
  confidence = 80;
  attack_technique = some "T1110";
  attack_tactic = some "credential-access";
  reason = "5 failed logins";
  incident_id = none;
}

abbrev batch : String → List Detection → ℕ → Batch
batch event detections risk = record {
  ip = "10.0.0.9";
  new_detections = detections;
  matched =
      record { event_id = event; sensor = "cowrie"; username = "root"; reason = "login" } ∷ [];
  iocs = ("ip", "10.0.0.9") ∷ [];
  max_event_risk = risk;
  session_events = 5;
  malware_linked = false;
  incident_id = event;
  key = λ n. "INC";
  title = "SSH brute force";
}

abbrev before : State
before = record {
  incidents = [];
  detections = brute_force ∷ [];
  events = [];
  iocs = [];
  created = [];
}

abbrev after : Batch → ℕ → State → State
after b now s = elim (correlate b now s) [ none ↦ s | some t ↦ t ]

abbrev first : Batch
first = batch "e1" (brute_force ∷ []) 50

abbrev second : Batch
second = batch "e2" [] 95

first_run : correlate first 7 before ≡ some (after first 7 before)
unfolding correlate find_incident link_and_score incident_severity incident_risk
first_run = refl

second_run :
    correlate second 9 (after first 7 before) ≡ some (after second 9 (after first 7 before))
unfolding correlate find_incident link_and_score incident_severity incident_risk
second_run = refl

first-IsDistinct : IsDistinct first
first-IsDistinct event = elim (Bool-cases (str_eq "e1" event)) [
  | inl y ↦ rw (count_matched, y) (omega arith)
  | inr n ↦ rw (count_matched, n) (omega arith)
]

before-IsLinkedOnce : IsLinkedOnce before
before-IsLinkedOnce id event = omega arith

correlate-IsLinkedOnce_example : IsLinkedOnce (after first 7 before)
correlate-IsLinkedOnce_example =
    correlate-IsLinkedOnce first 7 before (after first 7 before) first-IsDistinct first_run
      before-IsLinkedOnce

correlate-correlate_example :
    length (after second 9 (after first 7 before)).incidents
    ≡ length (after first 7 before).incidents
correlate-correlate_example =
    correlate-correlate first second 7 9 before (after first 7 before)
      (after second 9 (after first 7 before)) refl refl (omega arith) first_run second_run
