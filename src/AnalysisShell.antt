-- ===== src/AnalysisShell.antt =====
-- backend/app/services/analysis_shell.py: the sandbox shells of the Analysis Lab. The state is the
-- committed rows of analysis_sessions, the containers that run for them, and the telemetry events
-- that they add. Calls do not overlap; times are in microseconds.
pub mod Bounds
pub mod Reaping
mod Examples
use shadow_trust_security.Prelude.{
  ◌-◌, ℕ, suc, ◌+◌, ◌*◌, String, Bool, true, false, not, ◌&&◌, ◌||◌, Option, none, some, List, [],
  ◌∷◌, ◌++◌, map, keep, elem, ltb, leb, if◌then◌else◌, str_eq, codes,
}
use shadow_trust_security.Telemetry.Normalize.Json.{Json, text, null, Python}
use shadow_trust_security.Telemetry.Normalize.Sensor.{derive_severity, is_word}

pub record AnalysisSession : Type 0 where
  pub session_id : String
  pub owner : String
  pub source_tag : String
  pub status : String
  pub container_name : Option String
  pub ttl_minutes : ℕ
  pub started_at : ℕ
  pub last_activity_at : ℕ
  pub stopped_at : Option ℕ
  pub seq : ℕ
  pub command_count : ℕ
  pub incident_id : Option String

pub record ShellEvent : Type 0 where
  pub event_id : String
  pub timestamp : ℕ
  pub sensor_event_type : List ℕ
  pub source_ip : String
  pub session_id : String
  pub command : List ℕ
  pub severity : String

pub record World : Type 0 where
  pub sessions : List AnalysisSession
  pub containers : List String
  pub events : List ShellEvent

-- ANALYSIS_SHELL_TTL_MIN, ANALYSIS_SHELL_HARD_MAX_MIN and ANALYSIS_SHELL_MAX_SESSIONS, the tag of an
-- owner, the digest of an event, and what Python makes of characters.
pub record Settings : Type 0 where
  pub ttl_min : ℕ
  pub hard_max_min : ℕ
  pub max_sessions : ℕ
  pub source_tag : String → String
  pub digest : String → ℕ → List ℕ → String
  pub py : Python

abbrev pub minute : ℕ
minute = 60000000

abbrev pub is_live : AnalysisSession → Bool
is_live s = elem s.status ("starting" ∷ "running" ∷ [])

abbrev pub is_running : AnalysisSession → Bool
is_running s = str_eq s.status "running"

abbrev pub is_owned_live : String → AnalysisSession → Bool
is_owned_live owner s = is_live s && str_eq s.owner owner

-- `func.count` of the rows that pass a test.
abbrev pub how_many : (AnalysisSession → Bool) → List AnalysisSession → ℕ
how_many p [] = 0
how_many p (s ∷ ss) = if p s then suc (how_many p ss) else how_many p ss

abbrev pub torn : ℕ → AnalysisSession → AnalysisSession
torn now s = record s { status = "stopped"; stopped_at = some now }

-- Every row that passes the test is torn down.
abbrev pub torn_where : (AnalysisSession → Bool) → ℕ → List AnalysisSession → List AnalysisSession
torn_where p now [] = []
torn_where p now (s ∷ ss) = (if p s then torn now s else s) ∷ torn_where p now ss

abbrev pub ids_where : (AnalysisSession → Bool) → List AnalysisSession → List String
ids_where p [] = []
ids_where p (s ∷ ss) = if p s then s.session_id ∷ ids_where p ss else ids_where p ss

-- `_teardown` of the rows that pass the test: their containers are removed if Docker is reached,
-- and the rows are stopped either way.
unfoldable pub teardown : (AnalysisSession → Bool) → Bool → ℕ → World → World
teardown p reachable now w = record w {
  sessions = torn_where p now w.sessions;
  containers =
      if reachable
      then keep (λ c. not (elem c (ids_where p w.sessions))) w.containers
      else w.containers;
}

-- What the launch of the container comes to: the policy or Docker refuses it, or it has a name and
-- is seen running in time, or not.
pub data Launch : Type 0 where
  refused : Launch
  launched : String → Bool → Launch

abbrev pub new_session : Settings → String → String → ℕ → AnalysisSession
new_session env owner session_id now = record {
  session_id = session_id;
  owner = owner;
  source_tag = env.source_tag owner;
  status = "starting";
  container_name = none;
  ttl_minutes = env.ttl_min;
  started_at = now;
  last_activity_at = now;
  stopped_at = none;
  seq = 0;
  command_count = 0;
  incident_id = none;
}

abbrev pub started : Launch → AnalysisSession → AnalysisSession
started refused s = record s { status = "error" }
started (launched name up) s = record s {
  status = if up then "running" else "error";
  container_name = some name;
}

abbrev pub container_of : Launch → String → List String
container_of refused session_id = []
container_of (launched name up) session_id = session_id ∷ []

abbrev pub result_of : Launch → String → Option String
result_of refused session_id = none
result_of (launched name up) session_id = some session_id

-- `none` is a RuntimeError. One that comes before the first commit takes the rows back, but not the
-- containers that were removed.
unfoldable pub start_session :
    Settings → Bool → Launch → String → String → ℕ → World → Option String × World
unfolding teardown
start_session env reachable launch owner session_id now w =
    let w' = teardown (is_owned_live owner) reachable now w in
    if leb env.max_sessions (how_many is_running w'.sessions)
    then (none, record w { containers = w'.containers })
    else if not reachable
    then (none, record w { containers = w'.containers })
    else (
      result_of launch session_id,
      record w' {
        sessions = w'.sessions ++ started launch (new_session env owner session_id now) ∷ [];
        containers = w'.containers ++ container_of launch session_id;
      },
    )

-- `get_session`; an owner is asked for unless it is None or empty.
abbrev pub is_session : String → Option String → AnalysisSession → Bool
is_session session_id none s = str_eq s.session_id session_id
is_session session_id (some owner) s =
    str_eq s.session_id session_id && (str_eq owner "" || str_eq s.owner owner)

unfoldable pub get_session : String → Option String → List AnalysisSession → Option AnalysisSession
get_session session_id owner [] = none
get_session session_id owner (s ∷ ss) =
    let rest = get_session session_id owner ss in
    if is_session session_id owner s then some s else rest

abbrev pub has_id : String → AnalysisSession → Bool
has_id session_id s = str_eq s.session_id session_id

unfoldable pub stop_session : Bool → String → Option String → ℕ → World → Bool × World
unfolding get_session teardown
stop_session reachable session_id owner now w = elim (get_session session_id owner w.sessions) [
  | none ↦ (false, w)
  | some s ↦ (true, teardown (has_id session_id) reachable now w)
]

-- `_emit_event` for a command: the session with its next number, and the event.
abbrev pub command_event : Settings → ℕ → List ℕ → AnalysisSession → ShellEvent
command_event env now command s = record {
  event_id = env.digest s.session_id (suc s.seq) command;
  timestamp = now;
  sensor_event_type = codes "shell.command.input";
  source_ip = s.source_tag;
  session_id = s.session_id;
  command = command;
  severity = derive_severity env.py (codes "shell.command.input") none (text command);
}

-- The incident that the query finds for the session's tag, unless one is linked already.
abbrev pub linked : Option String → AnalysisSession → AnalysisSession
linked incident s = elim s.incident_id [
  | some id ↦ s
  | none ↦ elim incident [ none ↦ s | some id ↦ record s { incident_id = some id } ]
]

abbrev pub recorded : ℕ → Option String → AnalysisSession → AnalysisSession
recorded now incident s =
    linked incident
      (record s { seq = suc s.seq; command_count = suc s.command_count; last_activity_at = now })

abbrev pub record_where :
    (AnalysisSession → Bool)
    → (AnalysisSession → AnalysisSession)
    → List AnalysisSession
    → List AnalysisSession
record_where p f [] = []
record_where p f (s ∷ ss) = (if p s then f s else s) ∷ record_where p f ss

-- `record_command` on the command that `_clean_command` leaves, with the incident of the query.
unfoldable pub record_command :
    Settings → AnalysisSession → List ℕ → Option String → ℕ → World → Option (List ℕ) × World
record_command env s command incident now w =
    if is_word command ("" ∷ ":" ∷ "clear" ∷ "exit" ∷ []) then (none, w) else (
      some command,
      record w {
        sessions = record_where (has_id s.session_id) (recorded now incident) w.sessions;
        events = w.events ++ command_event env now command s ∷ [];
      },
    )

-- Idle for longer than its minutes, 0 being the default, or older than the hard maximum.
abbrev pub minutes_of : Settings → AnalysisSession → ℕ
minutes_of env s = if leb s.ttl_minutes 0 then env.ttl_min else s.ttl_minutes

abbrev pub is_stale : Settings → ℕ → AnalysisSession → Bool
is_stale env now s =
    ltb (s.last_activity_at + minutes_of env s * minute) now
    || ltb (s.started_at + env.hard_max_min * minute) now

abbrev pub is_live_stale : Settings → ℕ → AnalysisSession → Bool
is_live_stale env now s = is_live s && is_stale env now s

-- How many were reaped, and how many are left.
unfoldable pub reap_stale : Settings → Bool → ℕ → World → (ℕ × ℕ) × World
unfolding teardown
reap_stale env reachable now w =
    let reaped = how_many (is_live_stale env now) w.sessions in
    (
      (reaped, how_many is_live w.sessions - reaped),
      teardown (is_live_stale env now) reachable now w,
    )
