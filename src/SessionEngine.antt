-- ===== src/SessionEngine.antt =====
-- backend/app/services/session_engine.py: the events of a source become attacker sessions. Times are
-- in microseconds, and the scores of events are natural numbers.
pub mod Groups
mod Examples
use shadow_trust_security.Prelude.{
  ℕ, suc, ◌+◌, max, String, Bool, true, false, Option, none, some, List, [], ◌∷◌, ◌++◌, leb, ltb,
  if◌then◌else◌, str_eq,
}

-- SESSION_TIMEOUT_MINUTES, 30 minutes.
abbrev pub gap : ℕ
gap = 1800000000

abbrev pub risk_level : ℕ → String
risk_level score =
    if leb 80 score
    then "CRITICAL"
    else if leb 50 score
    then "HIGH"
    else if leb 20 score
    then "MEDIUM"
    else "LOW"

-- `{"LOW": 0, ...}.get(level, 0)`
abbrev pub score_of : String → ℕ
score_of level =
    if str_eq level "CRITICAL"
    then 80
    else if str_eq level "HIGH"
    then 50
    else if str_eq level "MEDIUM"
    then 20
    else 0

-- An event, with its country where the lookup gave one; `risk_score or 0`.
pub record RawEvent : Type 0 where
  pub id : String
  pub timestamp : Option ℕ
  pub risk_score : ℕ
  pub country : Option String

pub record AttackerSession : Type 0 where
  pub session_id : String
  pub attacker_ip : String
  pub first_seen : ℕ
  pub last_seen : ℕ
  pub risk_level : String
  pub total_events : ℕ
  pub geoip_country : Option String

-- The source, what utcnow gives, and the text of a session's id.
pub record Source : Type 0 where
  pub ip : String
  pub now : ℕ
  pub session_id : ℕ → String

-- `evt.timestamp or datetime.utcnow()`
abbrev pub time_of : Source → RawEvent → ℕ
time_of src e = elim e.timestamp [ none ↦ src.now | some t ↦ t ]

abbrev pub opened : Source → RawEvent → AttackerSession
opened src e = record {
  session_id = src.session_id (time_of src e);
  attacker_ip = src.ip;
  first_seen = time_of src e;
  last_seen = time_of src e;
  risk_level = risk_level e.risk_score;
  total_events = 0;
  geoip_country = e.country;
}

-- The session takes the event in.
abbrev pub taken : Source → RawEvent → AttackerSession → AttackerSession
taken src e s = record s {
  last_seen = time_of src e;
  total_events = suc s.total_events;
  risk_level = risk_level (max e.risk_score (score_of s.risk_level));
}

-- The loop over the events, with the current session and the events it has got in this run.
unfoldable pub continue_session :
    Source
    → AttackerSession
    → List RawEvent
    → List RawEvent
    → List (AttackerSession × List RawEvent)
continue_session src s got [] = (s, got) ∷ []
continue_session src s got (e ∷ es) =
    let fresh = continue_session src (taken src e (opened src e)) (e ∷ []) es in
    let same = continue_session src (taken src e s) (got ++ e ∷ []) es in
    if ltb (s.last_seen + gap) (time_of src e) then (s, got) ∷ fresh else same

-- The last session of the source goes on if its first event comes within the gap; the check reads
-- the stored timestamp, not the clock.
abbrev pub is_open : AttackerSession → RawEvent → Bool
is_open s e = elim e.timestamp [ none ↦ false | some t ↦ leb t (s.last_seen + gap) ]

-- The sessions of one source, each with the events that it is given: `session_id` of an event is
-- that of the session beside it. `last` is the source's most recent session.
unfoldable pub sessions_of :
    Source → Option AttackerSession → List RawEvent → List (AttackerSession × List RawEvent)
unfolding continue_session
sessions_of src last [] = []
sessions_of src none (e ∷ es) = continue_session src (taken src e (opened src e)) (e ∷ []) es
sessions_of src (some s) (e ∷ es) =
    let goes_on = continue_session src s [] (e ∷ es) in
    let fresh = continue_session src (taken src e (opened src e)) (e ∷ []) es in
    if is_open s e then goes_on else fresh
