-- ===== src/Containers/Lookup.antt =====
-- Finding containers, the launch of an analysis shell, and what the status page shows.
use mathlib.Core.Path.{subst}
use text.Mathlib.TextPositions.{starts_with-append}
use shadow_trust_security.Prelude.{
  codes, eq_refl, ℕ, ◌≡◌, ◌≢◌, ◌⊎◌, refl, String, Bool, true, false, ◌&&◌, Option, none, some, List,
  [], ◌∷◌, ◌++◌, arith, str_eq, Dict, get, inl, inr, Bool-cases, eq_iff,
}
use shadow_trust_security.Containers.Value.{
  Value, ok, truthy, value_at, is_text, items, mapping, text_of, shown, label,
}
use shadow_trust_security.Containers.Policy.{
  Settings, kind_label, some_set, is_root_user, int_value, check_analysis_isolation,
  check_analysis_privileges, check_analysis_limits, check_analysis_identity, validate_analysis_run,
}
use shadow_trust_security.Containers.Manager.{
  Container, runs, is_managed, find_lab_container, find_session_container, analysis_kwargs,
  run_analysis_container, ensure_internal_network,
}

-- `P` holds of the first container that passes `test`, or no container passes.
abbrev pub IsFirst : (Container → Bool) → List Container → Option Container → Type 0
IsFirst test [] found = found ≡ none
IsFirst test (c ∷ cs) found =
    ((test c ≡ true) × (found ≡ some c)) ⊎ ((test c ≡ false) × IsFirst test cs found)

find_lab_container-IsFirst :
    (matches : List Container) → IsFirst is_managed matches (find_lab_container matches)
unfolding find_lab_container
find_lab_container-IsFirst [] = refl
find_lab_container-IsFirst (c ∷ cs) = elim (Bool-cases (is_managed c)) [
  | inl yes_it ↦ inl (yes_it, ground arith)
  | inr not_it ↦
      inr (not_it, subst (IsFirst is_managed cs) (ground arith) (find_lab_container-IsFirst cs))
]

abbrev pub is_analysis_shell : Container → Bool
is_analysis_shell c = is_managed c && str_eq (label c.labels kind_label) "analysis-shell"

find_session_container-IsFirst :
    (matches : List Container) → IsFirst is_analysis_shell matches (find_session_container matches)
unfolding find_session_container
find_session_container-IsFirst [] = refl
find_session_container-IsFirst (c ∷ cs) = elim (Bool-cases (is_analysis_shell c)) [
  | inl yes_it ↦ inl (yes_it, ground arith)
  | inr not_it ↦ inr (
    not_it,
    subst (IsFirst is_analysis_shell cs) (ground arith) (find_session_container-IsFirst cs),
  )
]

-- Of whatever Docker lists for a lab id or a session id, the lookups return the first container that
-- is managed, or managed and an analysis shell, and none if there is none: never another.
pub find_container-IsFirst :
    (matches : List Container)
    → IsFirst is_managed matches (find_lab_container matches)
      × IsFirst is_analysis_shell matches (find_session_container matches)
find_container-IsFirst matches =
    (find_lab_container-IsFirst matches, find_session_container-IsFirst matches)

eq_false : (s : String) → s ≢ "" → str_eq s "" ≡ false
eq_false s n = elim (Bool-cases (str_eq s "")) [
  | inl e ↦ absurd (n ((eq_iff s "").0 e))
  | inr e ↦ e
]

module _ (settings : Settings) (int_text : String → Option ℕ)
    (session_id short_id owner : String) where
  abbrev kwargs : Dict Value
  kwargs = analysis_kwargs settings session_id short_id owner

  isolation_passes : check_analysis_isolation settings settings.analysis_image kwargs ≡ ok tt
  unfolding check_analysis_isolation analysis_kwargs value_at get is_text some_set truthy
  isolation_passes = rw (eq_refl settings.analysis_image, eq_refl settings.analysis_network) refl

  privileges_pass : check_analysis_privileges kwargs ≡ ok tt
  unfolding check_analysis_privileges analysis_kwargs value_at get items is_root_user shown codes
  privileges_pass = refl

  limits_pass : check_analysis_limits int_text kwargs ≡ ok tt
  unfolding check_analysis_limits analysis_kwargs value_at get int_value shown truthy
  limits_pass = refl

  module _ (has_session : session_id ≢ "") (has_owner : owner ≢ "") where
    identity_passes : check_analysis_identity kwargs ≡ ok tt
    unfolding check_analysis_identity analysis_kwargs value_at get text_of mapping label
    identity_passes =
        rw
          (
            starts_with-append "shadowtrust-shell-" short_id,
            eq_false session_id has_session,
            eq_false owner has_owner,
          )
          refl

    pub analysis_kwargs_pass :
        validate_analysis_run settings int_text settings.analysis_image kwargs ≡ ok tt
    unfolding validate_analysis_run
    analysis_kwargs_pass = rw (isolation_passes, privileges_pass, limits_pass, identity_passes) refl

    -- A session id and an owner that are not empty are enough: the shell's own options pass the
    -- analysis policy, and it is launched with them on the analysis network, which is created first
    -- if Docker does not find it.
    pub run_analysis_container_launches :
        (exists : Bool)
        → run_analysis_container settings int_text session_id short_id owner exists ≡ (
          ok tt,
          ensure_internal_network settings.analysis_network exists
              ++ runs settings.analysis_image (analysis_kwargs settings session_id short_id owner)
                ∷ [],
        )
    unfolding run_analysis_container
    run_analysis_container_launches exists = rw analysis_kwargs_pass refl
