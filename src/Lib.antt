-- ===== src/Lib.antt =====
-- ShadowTrust-Security is a honeypot platform: sensors write logs, a backend (backend/app) tails
-- them into events, detects attacks, streams both to dashboards, runs labs and analysis shells in
-- Docker containers, and issues login credentials to its analysts. This library models the backend
-- services of that pipeline, each as pure functions on explicit state, and proves what they promise.
--
-- Files and the code they model:
-- - Telemetry.Text, Telemetry.LocalSource: backend/app/services/telemetry/local_source.py. A file is
--   what one cycle sees of it (key, stat, bytes); `fetch_with_cursors`, `read_file` (the body of its
--   loop), `consume` (one chunk) and `resolve_offset` follow the method of LocalDirectorySource.
--   Bytes, UTF-8 with ignored errors, splitlines and strip are written out on lists of numbers.
--   `loads` stands for json.loads on an object. At most 250 files and 8 MB of a file per cycle, as in
--   the code. LocalSource.Tailing, .Cycles, .Exactness and .Fetch hold the proofs.
-- - Telemetry.Collector: backend/app/services/telemetry/collector.py. `run_once` reads the stored
--   cursors, tails the files, removes repeated events, inserts into both tables in chunks of 500, and
--   publishes after the commit. A table is the list of its events with their ids; `normalize`,
--   the ids and the payloads are parameters, and a cycle is told whether its commit succeeds.
-- - EventBus: backend/app/services/event_bus.py. The state of the bus is its list of subscribers with
--   their queues (at most 256 messages, EventBus.Queue), the drop count and the counts by channel;
--   `publish`, `publish_many`, `open_queue`, `close` and `receive` follow publish, publish_many, open,
--   close and the get of a client. The code runs on one event loop and none of these operations
--   awaits, so a history is a sequence of them.
-- - Containers: backend/app/services/container_manager.py. Containers.Value has the Python values
--   of the run options, Policy the two launch policies, Launch the terms of a safe launch without
--   the policies' tests, Manager the operations. The digits of a memory limit are ASCII. An
--   operation gives its outcome and its calls to Docker; what Docker answers is part of the
--   request. The environment variables are the record Settings; `int_text` stands for int on a
--   text.
-- - Credentials: backend/app/services/credential_service.py. The state is the committed rows of the
--   token, audit and activity tables; a call reads the clock once. The tests by regular expression,
--   the statuses of SMTP and Twilio, and what uuid4 draws are parameters. Calls do not overlap.
-- - Detection: backend/app/services/detection_engine.py. Detection.Rules is `evaluate_rule`, up to the
--   texts of a candidate, and Detection.Sequence is `_match_sequence`. What an event has and which
--   conditions it matches are parameters; a call reads the clock once.
-- - Accounts: backend/app/services/auth_service.py, backend/app/api/v1/dependencies.py and
--   backend/app/api/v1/endpoints/users.py. The state is the rows of users (and of access_logs), oldest
--   first. Auth has the methods of AuthService and the dependencies that find the user of a request and
--   check the role; Manage has the endpoints that manage accounts, where `execute` is one of them and
--   `manage` is the request with its token. bcrypt, PyJWT and what is drawn at random are parameters,
--   with their laws in IsSound. The bodies of the mails are left out.
-- - Telemetry.Normalize: backend/app/services/telemetry/normalize.py. Json has the values of
--   json.loads, Sensor the sensor, protocol and severity, Endpoint the addresses, the ports and the
--   search for a connection in brackets, Parsers and Dionaea the four parsers, and Event `normalize`.
--   Texts are lists of code points. `str` of numbers, lists and objects, `int` of a text, the readers
--   of dates, json.dumps and sha256 are parameters. A parser that raises gives none.
-- - Labs: backend/app/services/session_manager.py, with guacamole_service.py and providers/base.py
--   beside it. The state is GLOBAL_LAB_STATE, its file, the rows of vm_instances and the connections
--   of Guacamole; a call is told which of them it reaches, and what the provider answers.
-- - AnalysisShell: backend/app/services/analysis_shell.py. The state is the committed rows of
--   analysis_sessions, the containers, and the events; a call that raises before its first commit takes
--   the rows back. The command after its cleaning, and what Docker answers, are arguments.
-- - Detection.Incidents: the part of backend/app/services/detection_engine.py from the new detections of
--   a source to its incident. Scores are in hundredths, before the code rounds them to a tenth. The ids
--   and the texts of a new incident are parts of the batch.
-- - Incidents: backend/app/api/v1/endpoints/incidents.py, on the state of Detection.Incidents with the
--   audit trail: `patch_incident` and `link_events`.
-- - SessionEngine: backend/app/services/session_engine.py, the loop over the sorted events of a source.
-- - Prelude: Boolean tests, lists and association lists on native numbers.
-- Files called Examples run the code on concrete inputs.
--
-- Interactions: the events of a cycle are published on the bus, the detection rules read the stored
-- events, and the labs and analysis shells reach Docker only through the container manager. Every
-- loop is structural recursion on the list that it walks over; there is no fuel.
--
-- Not modelled: the web layer and the database engine, the rest of the detection engine, the rest
-- of the endpoints of incidents, malware and URL analysis, cloud services, and the frontend.
-- Numbers of options and limits are natural numbers, since no code here sets a negative or
-- fractional one.
pub mod Accounts
pub mod AnalysisShell
pub mod Containers
pub mod Credentials
pub mod Detection
pub mod EventBus
pub mod Incidents
pub mod Labs
pub mod Prelude
pub mod SessionEngine
pub mod Telemetry
