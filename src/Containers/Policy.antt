-- ===== src/Containers/Policy.antt =====
-- The policy checks: validate_lab_run and validate_analysis_run, with the deployment's settings
-- (environment variables) as a record.
use shadow_trust_security.Telemetry.Text.{strip}
use shadow_trust_security.Prelude.{
  same_codes, codes, ℕ, String, Bool, false, not, ◌&&◌, ◌||◌, Option, none, some, List, [], ◌∷◌,
  ltb, if◌then◌else◌, str_eq, elem, Dict, starts_with,
}
use shadow_trust_security.Containers.Value.{
  identity, pids, user, privileges, cap_drop, Value, null, str, int, image, network, forbidden,
  unmanaged, lab_id, name, cpu, memory, capability, device, Outcome, ok, failed, ◌>>=◌, ◌>>◌,
  require, truthy, value_at, or_else, is_text, is_null, items, mapping, text_of, shown, label,
  subset, is_empty, gigabytes,
}

abbrev pub managed_label : String
managed_label = "shadowtrust.managed"

abbrev pub lab_id_label : String
lab_id_label = "shadowtrust.lab_id"

abbrev pub kind_label : String
kind_label = "shadowtrust.kind"

abbrev pub session_label : String
session_label = "shadowtrust.session"

abbrev pub owner_label : String
owner_label = "shadowtrust.owner"

-- The settings that the module reads at import. `max_nano_cpus` is MAX_CPU * 1_000_000_000.
pub record Settings : Type 0 where
  pub allowed_lab_images : List String
  pub default_lab_network : String
  pub max_mem_gb : ℕ
  pub max_nano_cpus : ℕ
  pub kvm_images : List String
  pub analysis_image : String
  pub analysis_network : String

abbrev pub kvm_caps : List String
kvm_caps = "NET_ADMIN" ∷ []

abbrev pub kvm_devices : List String
kvm_devices = "/dev/kvm" ∷ []

abbrev pub forbidden_run_keys : List String
forbidden_run_keys =
    "privileged" ∷ "pid_mode" ∷ "ipc_mode" ∷ "userns_mode" ∷ "network_mode" ∷ "volumes" ∷ "mounts"
    ∷ "binds" ∷ "volumes_from" ∷ "tmpfs" ∷ "cgroup_parent" ∷ "security_opt" ∷ "sysctls"
    ∷ "pids_limit" ∷ []

-- Some listed option is set to a truthy value.
unfoldable pub some_set : Dict Value → List String → Bool
some_set kwargs [] = false
some_set kwargs (key ∷ keys) = truthy (value_at kwargs key) || some_set kwargs keys

-- `nano and nano > ceiling`; a comparison with no number raises TypeError.
unfoldable pub check_cpu : ℕ → Value → Outcome (Unit {0})
unfolding truthy
check_cpu ceiling null = ok tt
check_cpu ceiling (Value.bool b) = require (not (b && ltb ceiling 1)) cpu
check_cpu ceiling (int n) = require (not (ltb ceiling n)) cpu
check_cpu ceiling (str s) = if truthy (str s) then failed else ok tt
check_cpu ceiling (Value.strs ss) = if truthy (Value.strs ss) then failed else ok tt
check_cpu ceiling (Value.dict d) = if truthy (Value.dict d) then failed else ok tt

abbrev pub over_ceiling : ℕ → Option ℕ → Bool
over_ceiling ceiling none = false
over_ceiling ceiling (some n) = ltb ceiling n

-- Only a number of gigabytes is compared.
unfoldable pub memory_too_large : ℕ → Option String → Bool
unfolding codes gigabytes
memory_too_large ceiling none = false
memory_too_large ceiling (some mem) = over_ceiling ceiling (gigabytes 0 false (codes mem))

-- cap_add and devices.
unfoldable pub check_kvm : Settings → String → List String → List String → Outcome (Unit {0})
unfolding subset
check_kvm settings img caps devices = if is_empty caps && is_empty devices then ok tt else do
  require (elem img settings.kvm_images) capability
  require (subset caps kvm_caps) capability
  require (subset devices kvm_devices) device

abbrev pub lab_network : Settings → Option String → String
lab_network settings none = settings.default_lab_network
lab_network settings (some net) = if str_eq net "" then settings.default_lab_network else net

-- The checks up to the forbidden options.
unfoldable pub check_lab_isolation : Settings → String → Dict Value → String → Outcome (Unit {0})
check_lab_isolation settings img kwargs net = do
  let requested = or_else (value_at kwargs "network") (value_at kwargs "network_mode")
  require (elem img settings.allowed_lab_images) image
  require (is_text requested net || is_null requested) network
  require (not (some_set kwargs forbidden_run_keys)) forbidden

-- The labels and the name.
unfoldable pub check_lab_identity : Dict Value → Outcome (Unit {0})
check_lab_identity kwargs = do
  labels ← mapping (value_at kwargs "labels")
  require (str_eq (label labels managed_label) "true") unmanaged
  require (not (str_eq (label labels lab_id_label) "")) lab_id
  given_name ← text_of (value_at kwargs "name")
  require (starts_with given_name "shadowtrust-") name

-- The resource ceilings, capabilities and devices.
unfoldable pub check_lab_resources : Settings → String → Dict Value → Outcome (Unit {0})
check_lab_resources settings img kwargs = do
  check_cpu settings.max_nano_cpus (value_at kwargs "nano_cpus")
  require (not (memory_too_large settings.max_mem_gb (shown (value_at kwargs "mem_limit")))) memory
  caps ← items (value_at kwargs "cap_add")
  devices ← items (value_at kwargs "devices")
  check_kvm settings img caps devices

unfoldable pub validate_lab_run :
    Settings → String → Dict Value → Option String → Outcome (Unit {0})
validate_lab_run settings img kwargs allowed_network = do
  check_lab_isolation settings img kwargs (lab_network settings allowed_network)
  check_lab_identity kwargs
  check_lab_resources settings img kwargs

-- `str(user or "").strip() in ("", "0", "root")`
unfoldable pub is_root_user : Option String → Bool
unfolding codes strip
is_root_user none = false
is_root_user (some s) =
    let t = strip (codes s) in
    same_codes t [] || same_codes t (codes "0") || same_codes t (codes "root")

-- `int(v or 0)`. `int_text` is `int` on a text: `none` where it raises ValueError, and 0 for a
-- negative number.
unfoldable pub int_value : (String → Option ℕ) → Value → Outcome ℕ
int_value int_text null = ok 0
int_value int_text (Value.bool b) = ok (if b then 1 else 0)
int_value int_text (int n) = ok n
int_value int_text (str s) =
    if str_eq s "" then ok 0 else elim (int_text s) [ none ↦ failed | some n ↦ ok n ]
int_value int_text (Value.strs ss) = if is_empty ss then ok 0 else failed
int_value int_text (Value.dict d) = if is_empty d then ok 0 else failed

abbrev pub is_all : List String → Bool
is_all [] = false
is_all (c ∷ cs) = str_eq c "ALL" && is_empty cs

abbrev pub shown_is : Option String → String → Bool
shown_is none t = false
shown_is (some s) t = str_eq s t

abbrev pub analysis_max_mem : String
analysis_max_mem = "512m"

abbrev pub analysis_max_nano_cpus : ℕ
analysis_max_nano_cpus = 1000000000

abbrev pub analysis_forbidden_keys : List String
analysis_forbidden_keys =
    "volumes" ∷ "mounts" ∷ "binds" ∷ "volumes_from" ∷ "tmpfs" ∷ "devices" ∷ "privileged"
    ∷ "pid_mode" ∷ "ipc_mode" ∷ "network_mode" ∷ []

-- The image, the network, and options that may not be set.
unfoldable pub check_analysis_isolation : Settings → String → Dict Value → Outcome (Unit {0})
check_analysis_isolation settings img kwargs = do
  require (str_eq img settings.analysis_image) image
  require (is_text (value_at kwargs "network") settings.analysis_network) network
  require (not (some_set kwargs analysis_forbidden_keys)) forbidden
  require (not (truthy (value_at kwargs "cap_add"))) capability

-- Capabilities dropped, no new privileges, no root user.
unfoldable pub check_analysis_privileges : Dict Value → Outcome (Unit {0})
check_analysis_privileges kwargs = do
  dropped ← items (value_at kwargs "cap_drop")
  require (is_all dropped) cap_drop
  options ← items (value_at kwargs "security_opt")
  require (elem "no-new-privileges:true" options) privileges
  require (not (is_root_user (shown (value_at kwargs "user")))) user

-- Memory, CPU and process limits.
unfoldable pub check_analysis_limits : (String → Option ℕ) → Dict Value → Outcome (Unit {0})
check_analysis_limits int_text kwargs = do
  require (shown_is (shown (value_at kwargs "mem_limit")) analysis_max_mem) memory
  nano ← int_value int_text (value_at kwargs "nano_cpus")
  require (not (ltb analysis_max_nano_cpus nano)) cpu
  require (truthy (value_at kwargs "pids_limit")) pids

-- The name and the labels.
unfoldable pub check_analysis_identity : Dict Value → Outcome (Unit {0})
check_analysis_identity kwargs = do
  given_name ← text_of (value_at kwargs "name")
  require (starts_with given_name "shadowtrust-shell-") name
  labels ← mapping (value_at kwargs "labels")
  require
      (str_eq (label labels managed_label) "true"
        && str_eq (label labels kind_label) "analysis-shell")
      unmanaged
  require
      (not (str_eq (label labels session_label) "") && not (str_eq (label labels owner_label) ""))
      identity

unfoldable pub validate_analysis_run :
    Settings → (String → Option ℕ) → String → Dict Value → Outcome (Unit {0})
validate_analysis_run settings int_text img kwargs = do
  check_analysis_isolation settings img kwargs
  check_analysis_privileges kwargs
  check_analysis_limits int_text kwargs
  check_analysis_identity kwargs
