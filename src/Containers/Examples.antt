-- ===== src/Containers/Examples.antt =====
-- The policies and the manager on concrete launches.
use shadow_trust_security.Prelude.{
  true, get, ◌++◌, ℕ, ◌≡◌, ◌≢◌, refl, String, false, Option, none, List, [], ◌∷◌, Dict,
}
use shadow_trust_security.Containers.Value.{
  items, shown, text_of, label, mapping, value_at, or_else, is_text, Value, int, str, strs, dict,
  ok,
}
use shadow_trust_security.Containers.Policy.{
  check_kvm, memory_too_large, check_cpu, check_lab_resources, check_lab_identity, some_set,
  check_lab_isolation, Settings, managed_label, lab_id_label, kind_label, validate_lab_run,
  validate_analysis_run,
}
use shadow_trust_security.Containers.Safety.{IsSafeLab, validate_lab_run-IsSafeLab}
use shadow_trust_security.Containers.Analysis.{
  IsSafeAnalysis, validate_analysis_run-IsSafeAnalysis, not_eq,
}
use shadow_trust_security.Containers.Manager.{
  Container, runs, analysis_kwargs, run_analysis_container, ensure_internal_network,
}
use shadow_trust_security.Containers.Trace.{
  Request, run_lab, exec, join_labs, stop_and_remove, AllAllowed, trace, trace_allowed,
}
use shadow_trust_security.Containers.Lookup.{analysis_kwargs_pass, run_analysis_container_launches}

abbrev deployment : Settings
deployment = record {
  allowed_lab_images = "shadowtrust/lab:1" ∷ "shadowtrust/kvm:1" ∷ [];
  default_lab_network = "shadowtrust_labs";
  max_mem_gb = 4;
  max_nano_cpus = 2000000000;
  kvm_images = "shadowtrust/kvm:1" ∷ [];
  analysis_image = "shadowtrust/shell:1";
  analysis_network = "shadowtrust_analysis";
}

abbrev no_text : String → Option ℕ
no_text s = none

abbrev lab_options : Dict Value
lab_options =
    ("name", str "shadowtrust-lab-7")
    ∷ ("network", str "shadowtrust_labs")
    ∷ ("mem_limit", str "2g")
    ∷ ("nano_cpus", int 1000000000)
    ∷ ("cap_add", strs ("NET_ADMIN" ∷ []))
    ∷ ("devices", strs ("/dev/kvm" ∷ []))
    ∷ ("labels", dict ((managed_label, "true") ∷ (lab_id_label, "7") ∷ []))
    ∷ []

abbrev lab : Container
lab = record {
  name = "shadowtrust-lab-7";
  labels = (managed_label, "true") ∷ (lab_id_label, "7") ∷ [];
}

abbrev shell : Container
shell = record {
  name = "shadowtrust-shell-1";
  labels = (managed_label, "true") ∷ (kind_label, "analysis-shell") ∷ [];
}

abbrev database : Container
database = record { name = "honeynet_db"; labels = [] }

lab_accepted : validate_lab_run deployment "shadowtrust/kvm:1" lab_options none ≡ ok tt
unfolding validate_lab_run check_lab_isolation is_text or_else value_at get some_set
    check_lab_identity mapping label text_of check_lab_resources check_cpu memory_too_large shown
    items check_kvm
lab_accepted = refl

has_session : ◌≢◌ {A = String} "session-1" ""
has_session = not_eq "session-1" "" refl

has_owner : ◌≢◌ {A = String} "analyst@lab" ""
has_owner = not_eq "analyst@lab" "" refl

analysis_accepted :
    validate_analysis_run deployment no_text "shadowtrust/shell:1"
      (analysis_kwargs deployment "session-1" "session-1" "analyst@lab")
    ≡ ok tt
analysis_accepted =
    analysis_kwargs_pass deployment no_text "session-1" "session-1" "analyst@lab" has_session
      has_owner

validate_lab_run-IsSafeLab_example : IsSafeLab deployment "shadowtrust/kvm:1" lab_options none
validate_lab_run-IsSafeLab_example =
    validate_lab_run-IsSafeLab deployment "shadowtrust/kvm:1" lab_options none lab_accepted

validate_analysis_run-IsSafeAnalysis_example :
    IsSafeAnalysis deployment "shadowtrust/shell:1"
      (analysis_kwargs deployment "session-1" "session-1" "analyst@lab")
validate_analysis_run-IsSafeAnalysis_example =
    validate_analysis_run-IsSafeAnalysis deployment no_text "shadowtrust/shell:1"
      (analysis_kwargs deployment "session-1" "session-1" "analyst@lab") analysis_accepted

abbrev requests : List Request
requests =
    run_lab "shadowtrust/kvm:1" lab_options none
    ∷ exec lab ("id" ∷ [])
    ∷ join_labs none true false
    ∷ stop_and_remove database
    ∷ stop_and_remove lab
    ∷ []

trace_allowed_example : AllAllowed deployment (trace deployment no_text requests)
trace_allowed_example = trace_allowed deployment no_text requests

run_analysis_container_launches_example :
    run_analysis_container deployment no_text "session-1" "session-1" "analyst@lab" false ≡ (
      ok tt,
      ensure_internal_network "shadowtrust_analysis" false
          ++ runs "shadowtrust/shell:1"
              (analysis_kwargs deployment "session-1" "session-1" "analyst@lab")
            ∷ [],
    )
run_analysis_container_launches_example =
    run_analysis_container_launches deployment no_text "session-1" "session-1" "analyst@lab"
      has_session has_owner false
