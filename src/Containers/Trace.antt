-- ===== src/Containers/Trace.antt =====
-- Everything that the manager asks of Docker, over any sequence of requests.
use shadow_trust_security.Prelude.{
  ap, ℕ, ◌≤◌, ◌≡◌, ◌⊎◌, refl, String, Bool, true, false, Option, List, [], ◌∷◌, ◌++◌, arith, elem,
  Dict, inl, inr, min, max,
}
use shadow_trust_security.Containers.Value.{
  Value, Outcome, ok, refused, failed, Refusal, require, name,
}
use shadow_trust_security.Containers.Policy.{Settings, validate_lab_run, validate_analysis_run}
use shadow_trust_security.Containers.Launch.{
  IsManaged, log_sources, named_network, lab_network-named_network, label-eq,
}
use shadow_trust_security.Containers.Safety.{IsSafeLab, validate_lab_run-IsSafeLab}
use shadow_trust_security.Containers.Analysis.{IsSafeAnalysis, validate_analysis_run-IsSafeAnalysis}
use shadow_trust_security.Containers.Manager.{
  Container, DockerCall, runs, stops, removes, execs, gets_network, creates_network, reads_logs,
  is_managed, assert_managed, Action, behind, run_lab_container, exec_in_managed, attach_shell,
  stop_and_remove_managed, ensure_internal_network, ensure_lab_network, analysis_kwargs,
  run_analysis_container, platform_containers, max_log_tail, read_container_logs,
}

-- The operations that reach Docker to change something or to read logs, with their arguments and
-- with what they find there: whether Docker is reached, and whether the network exists.
pub data Request : Type 0 where
  run_lab : String → Dict Value → Option String → Request
  run_analysis : String → String → String → Bool → Request
  join_labs : Option String → Bool → Bool → Request
  exec : Container → List String → Request
  attach : Container → String → Request
  stop_and_remove : Container → Request
  read_logs : String → ℕ → Request

-- What a request may ask of Docker. A lab is launched as the request has it, under the network that
-- the request allows; a shell on the analysis network, which is created as internal.
abbrev pub IsAllowed : Settings → Request → DockerCall → Type 0
IsAllowed settings (run_lab img kwargs net) call =
    (call ≡ runs img kwargs) × IsSafeLab settings img kwargs net
IsAllowed settings (run_analysis session_id short_id owner exists) call =
    ((call ≡ gets_network settings.analysis_network)
      ⊎ (call ≡ creates_network settings.analysis_network true))
    ⊎ ((kwargs : Dict Value) × (call ≡ runs settings.analysis_image kwargs)
        × IsSafeAnalysis settings settings.analysis_image kwargs)
IsAllowed settings (join_labs net reachable exists) call =
    (call ≡ gets_network (named_network settings.default_lab_network net))
    ⊎ (call ≡ creates_network (named_network settings.default_lab_network net) false)
IsAllowed settings (exec c cmd) call = (call ≡ execs c cmd) × IsManaged c.labels
IsAllowed settings (attach c shell) call = (call ≡ execs c (shell ∷ [])) × IsManaged c.labels
IsAllowed settings (stop_and_remove c) call =
    ((call ≡ stops c) ⊎ (call ≡ removes c)) × IsManaged c.labels
IsAllowed settings (read_logs given tail) call =
    (lines : ℕ) × (call ≡ reads_logs given lines)
    × (elem given log_sources ≡ true)
    × (1 ≤ lines)
    × (lines ≤ 200)

abbrev pub AllAllowed : Settings → List (Request × DockerCall) → Type 0
AllAllowed settings [] = Unit
AllAllowed settings ((r, call) ∷ calls) = IsAllowed settings r call × AllAllowed settings calls

AllAllowed-append :
    (settings : Settings) (xs ys : List (Request × DockerCall))
    → AllAllowed settings xs
    → AllAllowed settings ys
    → AllAllowed settings (xs ++ ys)
AllAllowed-append settings [] ys hx hy = hy
AllAllowed-append settings ((r, x) ∷ xs) ys hx hy = (hx.0, AllAllowed-append settings xs ys hx.1 hy)

-- The calls, each beside its request.
abbrev pub asked_by : Request → List DockerCall → List (Request × DockerCall)
asked_by r [] = []
asked_by r (call ∷ calls) = (r, call) ∷ asked_by r calls

behind_allowed :
    (settings : Settings) (r : Request) (check : Outcome (Unit {0})) (calls : List DockerCall)
    → (check ≡ ok tt → AllAllowed settings (asked_by r calls))
    → AllAllowed settings (asked_by r (behind check calls).1)
behind_allowed settings r (ok u) calls h = h refl
behind_allowed settings r (refused why) calls h = tt
behind_allowed settings r failed calls h = tt

assert_managed-IsManaged : (c : Container) → assert_managed c ≡ ok tt → IsManaged c.labels
unfolding assert_managed is_managed
assert_managed-IsManaged c h = label-eq c.labels "shadowtrust.managed" "true" refl (ground arith)

require-eq-ok : (b : Bool) (r : Refusal) → require b r ≡ ok tt → b ≡ true
require-eq-ok b r h = ground arith

lab_network_allowed :
    (settings : Settings) (net : Option String) (reachable exists : Bool)
    → AllAllowed settings (
        asked_by
          (join_labs net reachable exists)
          (ensure_lab_network settings net reachable exists).1)
unfolding ensure_lab_network
lab_network_allowed settings net false exists = tt
lab_network_allowed settings net true true =
    (inl (ap gets_network (lab_network-named_network settings net)), tt)
lab_network_allowed settings net true false = (
  inl (ap gets_network (lab_network-named_network settings net)),
  (inr (ap (λ n. creates_network n false) (lab_network-named_network settings net)), tt),
)

module _ (settings : Settings) (int_text : String → Option ℕ) where
  unfoldable pub perform : Request → Action
  perform (run_lab img kwargs net) = run_lab_container settings img kwargs net
  perform (run_analysis session_id short_id owner exists) =
      run_analysis_container settings int_text session_id short_id owner exists
  perform (join_labs net reachable exists) = ensure_lab_network settings net reachable exists
  perform (exec c cmd) = exec_in_managed c cmd
  perform (attach c shell) = attach_shell c shell
  perform (stop_and_remove c) = stop_and_remove_managed c
  perform (read_logs given tail) = read_container_logs given tail

  unfoldable pub trace : List Request → List (Request × DockerCall)
  unfolding perform
  trace [] = []
  trace (r ∷ rs) = asked_by r (perform r).1 ++ trace rs

  analysis_allowed :
      (session_id short_id owner : String) (exists : Bool) (kwargs : Dict Value)
      → IsSafeAnalysis settings settings.analysis_image kwargs
      → AllAllowed settings (
          asked_by (run_analysis session_id short_id owner exists) (
            ensure_internal_network settings.analysis_network exists
            ++ runs settings.analysis_image kwargs ∷ []))
  unfolding ensure_internal_network
  analysis_allowed session_id short_id owner true kwargs safe =
      (inl (inl refl), (inr (kwargs, refl, safe), tt))
  analysis_allowed session_id short_id owner false kwargs safe =
      (inl (inl refl), (inl (inr refl), (inr (kwargs, refl, safe), tt)))

  perform_allowed : (r : Request) → AllAllowed settings (asked_by r (perform r).1)
  unfolding perform run_lab_container run_analysis_container exec_in_managed attach_shell
      stop_and_remove_managed read_container_logs
  perform_allowed (run_lab img kwargs net) =
      behind_allowed settings _ (validate_lab_run settings img kwargs net) (runs img kwargs ∷ [])
        (λ h. ((refl, validate_lab_run-IsSafeLab settings img kwargs net h), tt))
  perform_allowed (run_analysis session_id short_id owner exists) =
      let kwargs = analysis_kwargs settings session_id short_id owner in
      behind_allowed settings _
        (validate_analysis_run settings int_text settings.analysis_image kwargs)
        (ensure_internal_network settings.analysis_network exists
          ++ runs settings.analysis_image kwargs ∷ [])
        (λ h.
          analysis_allowed session_id short_id owner exists kwargs (
            validate_analysis_run-IsSafeAnalysis settings int_text settings.analysis_image kwargs
              h))
  perform_allowed (join_labs net reachable exists) =
      lab_network_allowed settings net reachable exists
  perform_allowed (exec c cmd) =
      behind_allowed settings _ (assert_managed c) (execs c cmd ∷ [])
        (λ h. ((refl, assert_managed-IsManaged c h), tt))
  perform_allowed (attach c shell) =
      behind_allowed settings _ (assert_managed c) (execs c (shell ∷ []) ∷ [])
        (λ h. ((refl, assert_managed-IsManaged c h), tt))
  perform_allowed (stop_and_remove c) =
      behind_allowed settings _ (assert_managed c) (stops c ∷ removes c ∷ []) (λ h.
        let managed = assert_managed-IsManaged c h in
        ((inl refl, managed), ((inr refl, managed), tt)))
  perform_allowed (read_logs given tail) =
      behind_allowed settings _ (require (elem given platform_containers) name)
        (reads_logs given (max 1 (min tail max_log_tail)) ∷ [])
        (λ h. (
          (max 1 (min tail max_log_tail), refl, require-eq-ok _ _ h, omega arith, omega arith),
          tt,
        ))

  -- Whatever the requests, with whatever images, options and containers, each call that they make to
  -- Docker is one that its own request allows. A lab launch is the one asked for, and is confined
  -- under the network that the request allows; a shell launch is confined, on the analysis network,
  -- which is created as internal; the network of the labs is created only under the name that the
  -- request gives, or the deployment's; commands, stops and removals reach only containers that
  -- carry shadowtrust.managed=true, and logs are read from the nine listed containers, between 1 and
  -- 200 lines.
  pub trace_allowed : (rs : List Request) → AllAllowed settings (trace rs)
  unfolding trace
  trace_allowed [] = tt
  trace_allowed (r ∷ rs) =
      AllAllowed-append settings (asked_by r (perform r).1) (trace rs) (perform_allowed r)
        (trace_allowed rs)
