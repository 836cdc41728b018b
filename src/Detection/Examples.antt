-- ===== src/Detection/Examples.antt =====
-- Three failed logins and then a success, stored out of order.
use shadow_trust_security.Prelude.{
  some, get, put, if◌then◌else◌, ℕ, ◌≡◌, ◌≢◌, refl, Bool, true, false, not, List, [], ◌∷◌, arith,
}
use shadow_trust_security.Detection.Sequence.{Step, match_sequence, sort_by_time}
use shadow_trust_security.Detection.Greedy.{Chosen, skip, hit, done, plan}
use shadow_trust_security.Detection.Rules.{bucket_of, EventView, DetectionRule, evaluate_rule}
use shadow_trust_security.Detection.Candidates.{AllSound, evaluate_rule-AllSound}
use shadow_trust_security.Detection.Refinement.{match_sequence-Chosen, match_sequence_complete}

-- The time of a login and whether it succeeded.
abbrev Login : Type 0
Login = ℕ × Bool

abbrev at : Login → ℕ
at e = e.0

abbrev matches : Login → Bool → Bool
matches (time, success) wanted = if wanted then success else not success

abbrev steps : List (Step Bool)
steps =
    record { conditions = false; min_count = 2 } ∷ record { conditions = true; min_count = 1 } ∷ []

abbrev logins : List Login
logins = (4, true) ∷ (1, false) ∷ (2, true) ∷ (3, false) ∷ []

reported : match_sequence at matches steps logins ≡ (1, false) ∷ (3, false) ∷ (4, true) ∷ []
unfolding match_sequence
reported = refl

fires : match_sequence at matches steps logins ≢ []
fires = λ h. absurd (ground (arith, reported))

match_sequence-Chosen_example :
    Chosen matches (plan steps) (match_sequence at matches steps logins) (sort_by_time at logins)
match_sequence-Chosen_example = match_sequence-Chosen at matches steps logins fires

choice :
    Chosen matches (plan steps) ((1, false) ∷ (3, false) ∷ (4, true) ∷ []) (sort_by_time at logins)
unfolding sort_by_time
choice = hit refl (skip (hit refl (hit refl done)))

match_sequence_complete_example :
    Chosen matches (plan steps) (match_sequence at matches steps logins) (sort_by_time at logins)
match_sequence_complete_example =
    match_sequence_complete at matches steps logins ((1, false) ∷ (3, false) ∷ (4, true) ∷ [])
      choice

abbrev view : EventView Login Bool
view = record {
  timestamp = at;
  ingested_at = λ e. some e.0;
  group_key = λ e. some "10.0.0.7";
  event_matches = matches;
}

abbrev brute_force : DetectionRule Bool
brute_force = record {
  id = "ST-001";
  is_sequence = false;
  timeframe = 600;
  threshold = 2;
  conditions = false;
  steps = [];
}

evaluate_rule-AllSound_example :
    AllSound view 5 brute_force (evaluate_rule view 5 brute_force logins 0)
evaluate_rule-AllSound_example = evaluate_rule-AllSound view 5 brute_force logins 0

fires_test :
    evaluate_rule view 5 brute_force logins 0
    ≡ record { group = "10.0.0.7"; matched = (1, false) ∷ (3, false) ∷ []; bucket = 0 } ∷ []
unfolding evaluate_rule get put sort_by_time bucket_of
fires_test = refl
