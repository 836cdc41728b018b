-- ===== src/Containers/Analysis.antt =====
-- What an analysis shell that passed the policy checks looks like.
use shadow_trust_security.Prelude.{
  refl, get, ℕ, ◌≤◌, ◌≡◌, ◌≢◌, String, true, false, Option, none, some, List, [], ◌∷◌, arith, ap,
  str_eq, elem, Dict, starts_with, eq_iff, false≢true, sym, ◌∙◌, inl, inr, and_left, and_right,
}
use shadow_trust_security.Containers.Value.{
  Value, int, str, ok, truthy, value_at, is_text, items, mapping, text_of, shown, label, ◌>>◌,
}
use shadow_trust_security.Containers.Launch.{
  analysis_escapes, NamesUser, HasText, is_root_user-NamesUser, shown-eq_str, label-eq,
  label-HasText, is_text-eq,
}
use shadow_trust_security.Containers.Policy.{
  Settings, managed_label, kind_label, session_label, owner_label, some_set, is_root_user,
  int_value, is_all, shown_is, analysis_max_mem, analysis_max_nano_cpus, analysis_forbidden_keys,
  check_analysis_isolation, check_analysis_privileges, check_analysis_limits,
  check_analysis_identity, validate_analysis_run,
}
use shadow_trust_security.Containers.Safety.{
  AllUnset, some_set-AllUnset, Gives, Outcome-cases, >>-eq-ok,
}

-- A launch that the analysis policy accepts.
pub record IsSafeAnalysis (settings : Settings) (img : String) (kwargs : Dict Value) : Type 0 where
  pub image_is : img ≡ settings.analysis_image
  pub network_is : value_at kwargs "network" ≡ str settings.analysis_network
  pub unset : AllUnset kwargs analysis_escapes
  pub adds_nothing : truthy (value_at kwargs "cap_add") ≡ false
  pub drops_all : items (value_at kwargs "cap_drop") ≡ ok ("ALL" ∷ [])
  pub no_new_privileges :
      Gives
        (items (value_at kwargs "security_opt"))
        (λ options. elem "no-new-privileges:true" options ≡ true)
  pub no_root : NamesUser (value_at kwargs "user")
  pub memory_is : value_at kwargs "mem_limit" ≡ str "512m"
  pub cpu_capped : (n : ℕ) → value_at kwargs "nano_cpus" ≡ int n → n ≤ 1000000000
  pub pids_set : truthy (value_at kwargs "pids_limit") ≡ true
  pub named :
      Gives (text_of (value_at kwargs "name")) (λ n. starts_with n "shadowtrust-shell-" ≡ true)
  pub labelled : Gives (mapping (value_at kwargs "labels")) (λ labels.
      (get labels "shadowtrust.managed" ≡ some "true")
      × (get labels "shadowtrust.kind" ≡ some "analysis-shell")
      × HasText labels "shadowtrust.session"
      × HasText labels "shadowtrust.owner")

is_all-eq : (dropped : List String) → is_all dropped ≡ true → dropped ≡ "ALL" ∷ []
is_all-eq [] h = cc
is_all-eq (c ∷ []) h = ap (λ x. x ∷ []) ((eq_iff c "ALL").0 (and_left (str_eq c "ALL") true h))
is_all-eq (c ∷ d ∷ cs) h = absurd (false≢true (and_right (str_eq c "ALL") false h))

shown_is-eq : (o : Option String) (t : String) → shown_is o t ≡ true → o ≡ some t
shown_is-eq none t h = cc
shown_is-eq (some s) t h = ap some ((eq_iff s t).0 h)

isolation_facts :
    (settings : Settings) (img : String) (kwargs : Dict Value)
    → check_analysis_isolation settings img kwargs ≡ ok tt
    → (str_eq img settings.analysis_image ≡ true)
      × (is_text (value_at kwargs "network") settings.analysis_network ≡ true)
      × (some_set kwargs analysis_forbidden_keys ≡ false)
      × (truthy (value_at kwargs "cap_add") ≡ false)
unfolding check_analysis_isolation
isolation_facts settings img kwargs h = ground arith

dropped_fact :
    (kwargs : Dict Value)
    → check_analysis_privileges kwargs ≡ ok tt
    → items (value_at kwargs "cap_drop") ≡ ok ("ALL" ∷ [])
unfolding check_analysis_privileges
dropped_fact kwargs h = elim (Outcome-cases (items (value_at kwargs "cap_drop"))) [
  | inl (dropped, e) ↦
      let all : is_all dropped ≡ true = ground arith in e ∙ ap ok (is_all-eq dropped all)
  | inr bad ↦ absurd (ground arith)
]

options_fact :
    (kwargs : Dict Value)
    → check_analysis_privileges kwargs ≡ ok tt
    → Gives
        (items (value_at kwargs "security_opt"))
        (λ options. elem "no-new-privileges:true" options ≡ true)
unfolding check_analysis_privileges
options_fact kwargs h = elim (Outcome-cases (items (value_at kwargs "security_opt"))) [
  | inl (options, e) ↦ (options, e, ground arith)
  | inr bad ↦ absurd (ground arith)
]

user_fact :
    (kwargs : Dict Value)
    → check_analysis_privileges kwargs ≡ ok tt
    → is_root_user (shown (value_at kwargs "user")) ≡ false
unfolding check_analysis_privileges
user_fact kwargs h = ground arith

limit_facts :
    (int_text : String → Option ℕ) (kwargs : Dict Value)
    → check_analysis_limits int_text kwargs ≡ ok tt
    → (shown_is (shown (value_at kwargs "mem_limit")) analysis_max_mem ≡ true)
      × (truthy (value_at kwargs "pids_limit") ≡ true)
unfolding check_analysis_limits
limit_facts int_text kwargs h = ground arith

cpu_fact :
    (int_text : String → Option ℕ) (kwargs : Dict Value)
    → check_analysis_limits int_text kwargs ≡ ok tt
    → (n : ℕ) → value_at kwargs "nano_cpus" ≡ int n
    → n ≤ analysis_max_nano_cpus
unfolding check_analysis_limits int_value
cpu_fact int_text kwargs h n e = ground arith

name_fact :
    (kwargs : Dict Value)
    → check_analysis_identity kwargs ≡ ok tt
    → Gives (text_of (value_at kwargs "name")) (λ n. starts_with n "shadowtrust-shell-" ≡ true)
unfolding check_analysis_identity
name_fact kwargs h = elim (Outcome-cases (text_of (value_at kwargs "name"))) [
  | inl (n, e) ↦ (n, e, ground arith)
  | inr bad ↦ absurd (ground arith)
]

labels_fact :
    (kwargs : Dict Value)
    → check_analysis_identity kwargs ≡ ok tt
    → Gives (mapping (value_at kwargs "labels")) (λ labels.
      (str_eq (label labels managed_label) "true" ≡ true)
      × (str_eq (label labels kind_label) "analysis-shell" ≡ true)
      × (str_eq (label labels session_label) "" ≡ false)
      × (str_eq (label labels owner_label) "" ≡ false))
unfolding check_analysis_identity
labels_fact kwargs h = elim (Outcome-cases (mapping (value_at kwargs "labels"))) [
  | inl (labels, e) ↦ (labels, e, ground arith)
  | inr bad ↦ absurd (ground arith)
]

pub not_eq : (s t : String) → str_eq s t ≡ false → s ≢ t
not_eq s t h e = false≢true (sym h ∙ (eq_iff s t).1 e)

-- A launch that `validate_analysis_run` accepts has the analysis image and network, sets none of the
-- ten options written out in `analysis_escapes`, adds no capability and drops exactly ALL, has
-- no-new-privileges, names a user that is not "", "0" or "root" between spaces, has the memory limit
-- 512m, a CPU limit, if it is a number, of at most one CPU, and some process limit, a name that begins
-- with "shadowtrust-shell-", and the labels of a managed analysis shell with a session and an owner.
pub validate_analysis_run-IsSafeAnalysis :
    (settings : Settings) (int_text : String → Option ℕ) (img : String) (kwargs : Dict Value)
    → validate_analysis_run settings int_text img kwargs ≡ ok tt
    → IsSafeAnalysis settings img kwargs
unfolding validate_analysis_run
validate_analysis_run-IsSafeAnalysis settings int_text img kwargs passed =
    let limits = check_analysis_limits int_text kwargs in
    let named = check_analysis_identity kwargs in
    let privs = check_analysis_privileges kwargs in
    let (isolated, rest) =
      >>-eq-ok (check_analysis_isolation settings img kwargs) (privs >> (limits >> named)) passed in
    let (private, rest') = >>-eq-ok privs (limits >> named) rest in
    let (limited, identified) = >>-eq-ok limits named rest' in
    let front = isolation_facts settings img kwargs isolated in
    let small = limit_facts int_text kwargs limited in
    let (labels, e, marks) = labels_fact kwargs identified in
    record {
      image_is = (eq_iff _ _).0 front.0;
      network_is = is_text-eq _ _ front.1;
      unset = some_set-AllUnset kwargs analysis_forbidden_keys front.2;
      adds_nothing = front.3;
      drops_all = dropped_fact kwargs private;
      no_new_privileges = options_fact kwargs private;
      no_root = is_root_user-NamesUser _ (user_fact kwargs private);
      memory_is = shown-eq_str _ "512m" refl (shown_is-eq _ _ small.0);
      cpu_capped = cpu_fact int_text kwargs limited;
      pids_set = small.1;
      named = name_fact kwargs identified;
      labelled = (
        labels,
        e,
        (
          label-eq labels "shadowtrust.managed" "true" refl marks.0,
          label-eq labels "shadowtrust.kind" "analysis-shell" refl marks.1,
          label-HasText labels "shadowtrust.session" marks.2,
          label-HasText labels "shadowtrust.owner" marks.3,
        ),
      );
    }
