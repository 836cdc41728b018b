-- ===== src/SessionEngine/Examples.antt =====
-- Three events of a source, the last one an hour later.
use shadow_trust_security.Prelude.{ℕ, ◌≡◌, refl, String, none, some, List, [], ◌∷◌}
use shadow_trust_security.SessionEngine.{
  continue_session, RawEvent, AttackerSession, Source, sessions_of,
}
use shadow_trust_security.SessionEngine.Groups.{events_of, IsCounted, sessions_of-IsCounted}

abbrev src : Source
src = record { ip = "10.0.0.9"; now = 9000000000; session_id = λ t. "s" }

abbrev at : ℕ → ℕ → RawEvent
at time score = record { id = "e"; timestamp = some time; risk_score = score; country = none }

abbrev events : List RawEvent
events = at 0 25 ∷ at 60000000 80 ∷ at 3600000000 10 ∷ []

abbrev levels : List (AttackerSession × List RawEvent) → List (String × ℕ)
levels [] = []
levels ((s, es) ∷ groups) = (s.risk_level, s.total_events) ∷ levels groups

levels-sessions_of : levels (sessions_of src none events) ≡ ("CRITICAL", 2) ∷ ("LOW", 1) ∷ []
unfolding sessions_of continue_session
levels-sessions_of = refl

sessions_of-IsCounted_example :
    (events_of (sessions_of src none events) ≡ events) × IsCounted 0 (sessions_of src none events)
sessions_of-IsCounted_example = sessions_of-IsCounted src none events
