-- ===== src/Containers/Manager.antt =====
-- The operations of the manager. Docker is outside: what it answers is part of a request, and what
-- the manager asks of it is recorded call by call.
use Prim.Native.String.{◌++◌ as str_append}
use shadow_trust_security.Prelude.{
  not, ℕ, String, Bool, true, false, ◌&&◌, ◌||◌, Option, none, some, List, [], ◌∷◌, ◌++◌,
  if◌then◌else◌, str_eq, elem, Dict, min, max,
}
use shadow_trust_security.Containers.Value.{
  Value, int, str, strs, dict, Outcome, ok, refused, failed, unmanaged, name, require, label,
}
use shadow_trust_security.Containers.Policy.{
  lab_network, Settings, managed_label, kind_label, session_label, owner_label, validate_lab_run,
  validate_analysis_run, analysis_max_mem, analysis_max_nano_cpus,
}

pub record Container : Type 0 where
  pub name : String
  pub labels : Dict String

-- What the manager asks of Docker. A network is created as internal or not.
pub data DockerCall : Type 0 where
  runs : String → Dict Value → DockerCall
  stops removes : Container → DockerCall
  execs : Container → List String → DockerCall
  gets_network : String → DockerCall
  creates_network : String → Bool → DockerCall
  reads_logs : String → ℕ → DockerCall

unfoldable pub is_managed : Container → Bool
unfolding label
is_managed c = str_eq (label c.labels managed_label) "true"

unfoldable pub assert_managed : Container → Outcome (Unit {0})
unfolding is_managed
assert_managed c = require (is_managed c) unmanaged

-- An operation gives its outcome and its calls, in order.
abbrev pub Action : Type 0
Action = Outcome (Unit {0}) × List DockerCall

-- `calls` are made if the check in front of them does not raise.
abbrev pub behind : Outcome (Unit {0}) → List DockerCall → Action
behind (ok u) calls = (ok u, calls)
behind (refused r) calls = (refused r, [])
behind failed calls = (failed, [])

unfoldable pub run_lab_container : Settings → String → Dict Value → Option String → Action
run_lab_container settings img kwargs allowed_network =
    behind (validate_lab_run settings img kwargs allowed_network) (runs img kwargs ∷ [])

unfoldable pub exec_in_managed : Container → List String → Action
unfolding assert_managed
exec_in_managed c cmd = behind (assert_managed c) (execs c cmd ∷ [])

unfoldable pub attach_shell : Container → String → Action
unfolding assert_managed
attach_shell c shell = behind (assert_managed c) (execs c (shell ∷ []) ∷ [])

-- Exceptions of `stop` and `remove` are passed over.
unfoldable pub stop_and_remove_managed : Container → Action
unfolding assert_managed
stop_and_remove_managed c = behind (assert_managed c) (stops c ∷ removes c ∷ [])

-- `exists` is whether `networks.get` finds the network.
unfoldable pub ensure_internal_network : String → Bool → List DockerCall
ensure_internal_network net exists =
    gets_network net ∷ (if exists then [] else creates_network net true ∷ [])

-- The same for the network of the labs, which is not internal, if Docker is reached.
unfoldable pub ensure_lab_network : Settings → Option String → Bool → Bool → Action
ensure_lab_network settings net reachable exists = if not reachable then (ok tt, []) else (
  ok tt,
  gets_network (lab_network settings net)
      ∷ (if exists then [] else creates_network (lab_network settings net) false ∷ []),
)

-- `short_id` is `session_id[:12]`.
unfoldable pub analysis_kwargs : Settings → String → String → String → Dict Value
analysis_kwargs settings session_id short_id owner =
    ("name", str (str_append "shadowtrust-shell-" short_id))
    ∷ ("hostname", str "web-prod-01")
    ∷ ("command", strs ("sleep" ∷ "infinity" ∷ []))
    ∷ ("detach", Value.bool true)
    ∷ ("tty", Value.bool true)
    ∷ ("stdin_open", Value.bool true)
    ∷ ("network", str settings.analysis_network)
    ∷ ("user", str "analyst")
    ∷ ("mem_limit", str analysis_max_mem)
    ∷ ("nano_cpus", int analysis_max_nano_cpus)
    ∷ ("pids_limit", int 128)
    ∷ ("cap_drop", strs ("ALL" ∷ []))
    ∷ ("security_opt", strs ("no-new-privileges:true" ∷ []))
    ∷ ("read_only", Value.bool false)
    ∷ ("auto_remove", Value.bool false)
    ∷ ("restart_policy", dict (("Name", "no") ∷ []))
    ∷ (
      "labels",
      dict (
          (managed_label, "true")
          ∷ (kind_label, "analysis-shell")
          ∷ (session_label, session_id)
          ∷ (owner_label, owner)
          ∷ []),
    )
    ∷ []

unfoldable pub run_analysis_container :
    Settings → (String → Option ℕ) → String → String → String → Bool → Action
unfolding ensure_internal_network analysis_kwargs
run_analysis_container settings int_text session_id short_id owner exists =
    let kwargs = analysis_kwargs settings session_id short_id owner in
    behind (validate_analysis_run settings int_text settings.analysis_image kwargs) (
      ensure_internal_network settings.analysis_network exists
      ++ runs settings.analysis_image kwargs ∷ [])

-- `matches` is what Docker lists for the label: the first managed container of it.
unfoldable pub find_lab_container : List Container → Option Container
find_lab_container [] = none
find_lab_container (c ∷ matches) = elim (is_managed c) [
  | true ↦ some c
  | false ↦ find_lab_container matches
]

unfoldable pub find_session_container : List Container → Option Container
find_session_container [] = none
find_session_container (c ∷ matches) =
    elim (is_managed c && str_eq (label c.labels kind_label) "analysis-shell") [
      | true ↦ some c
      | false ↦ find_session_container matches
    ]

abbrev pub stack_containers : List String
stack_containers =
    "honeynet_backend" ∷ "honeynet_frontend" ∷ "honeynet_db" ∷ "honeynet_phpmyadmin"
    ∷ "honeynet_mobsf" ∷ "honeynet_clamav" ∷ "honeynet_cowrie" ∷ "honeynet_dionaea"
    ∷ "honeynet_honeytrap" ∷ "guacamole" ∷ "guacd" ∷ "guacamole_db" ∷ "splunk" ∷ []

abbrev pub platform_containers : List String
platform_containers =
    "honeynet_backend" ∷ "honeynet_frontend" ∷ "honeynet_db" ∷ "honeynet_phpmyadmin"
    ∷ "honeynet_mobsf" ∷ "honeynet_clamav" ∷ "guacamole" ∷ "guacd" ∷ "guacamole_db" ∷ []

abbrev pub max_log_tail : ℕ
max_log_tail = 200

unfoldable pub read_container_logs : String → ℕ → Action
read_container_logs given tail =
    behind (require (elem given platform_containers) name)
      (reads_logs given (max 1 (min tail max_log_tail)) ∷ [])

-- The containers that `read_stack_status` reports, of all that Docker lists.
unfoldable pub stack_status_of : List String → List Container → List String
stack_status_of names [] = []
stack_status_of names (c ∷ cs) =
    (if (elem c.name names && elem c.name stack_containers) || is_managed c
      then c.name ∷ []
      else [])
    ++ stack_status_of names cs
