-- ===== src/Containers/Launch.antt =====
-- The terms of a safe launch, written out without the tests of the policy checks, and how those tests
-- give them.
use shadow_trust_security.Telemetry.Text.{strip}
use shadow_trust_security.Prelude.{
  ltb, ℕ, ◌+◌, ◌-◌, ◌*◌, ◌≤◌, ◌≡◌, ◌≢◌, ◌⊎◌, refl, sym, ap, ◌∙◌, String, true, false, ◌||◌, Option,
  none, some, List, [], ◌∷◌, ◌++◌, if◌then◌else◌, arith, codes, same_codes, str_eq, Dict, get,
  eq_iff, false≢true, Bool-cases, Option-cases, inl, inr,
}
use shadow_trust_security.Containers.Value.{
  Value, str, truthy, or_else, is_text, is_null, shown, label, subset, gigabytes, null,
}
use shadow_trust_security.Containers.Policy.{
  Settings, lab_network, memory_too_large, over_ceiling, is_root_user,
}

-- The options that would take a lab out of its confinement, and those for an analysis shell.
abbrev pub lab_escapes : List String
lab_escapes =
    "privileged" ∷ "pid_mode" ∷ "ipc_mode" ∷ "userns_mode" ∷ "network_mode" ∷ "volumes" ∷ "mounts"
    ∷ "binds" ∷ "volumes_from" ∷ "tmpfs" ∷ "cgroup_parent" ∷ "security_opt" ∷ "sysctls"
    ∷ "pids_limit" ∷ []

abbrev pub analysis_escapes : List String
analysis_escapes =
    "volumes" ∷ "mounts" ∷ "binds" ∷ "volumes_from" ∷ "tmpfs" ∷ "devices" ∷ "privileged"
    ∷ "pid_mode" ∷ "ipc_mode" ∷ "network_mode" ∷ []

-- The labels give a text that is not empty.
abbrev pub HasText : Dict String → String → Type 0
HasText labels key = (t : String) × (get labels key ≡ some t) × (t ≢ "")

label-get : (labels : Dict String) (key : String) → label labels key ≢ "" → HasText labels key
unfolding label
label-get labels key h = elim (Option-cases (get labels key)) [
  | inl e ↦ absurd (h (rw (label, e) refl))
  | inr (t, e) ↦ (t, e, λ blank. h (rw (label, e) blank))
]

pub label-HasText :
    (labels : Dict String) (key : String)
    → str_eq (label labels key) "" ≡ false
    → HasText labels key
label-HasText labels key h =
    label-get labels key (λ e. false≢true (sym h ∙ (eq_iff (label labels key) "").1 e))

pub label-eq :
    (labels : Dict String) (key t : String)
    → str_eq "" t ≡ false
    → str_eq (label labels key) t ≡ true
    → get labels key ≡ some t
unfolding label
label-eq labels key t filled h = elim (Option-cases (get labels key)) [
  | inl e ↦
      let at : label labels key ≡ "" = rw (label, e) refl in
      absurd (false≢true (sym filled ∙ ap (λ s. str_eq s t) (sym at) ∙ h))
  | inr (s, e) ↦
      let at : label labels key ≡ s = rw (label, e) refl in
      e ∙ ap some (sym at ∙ (eq_iff (label labels key) t).0 h)
]

-- The network that a lab may join: the one that the caller names, else the deployment's.
abbrev pub named_network : String → Option String → String
named_network default none = default
named_network default (some net) = if str_eq net "" then default else net

pub lab_network-named_network :
    (settings : Settings) (net : Option String)
    → lab_network settings net ≡ named_network settings.default_lab_network net
lab_network-named_network settings none = refl
lab_network-named_network settings (some net) = refl

-- The network option is not set, or it is that network.
abbrev pub JoinsOnly : Value → String → Type 0
JoinsOnly v net = (truthy v ≡ false) ⊎ (v ≡ str net)

pub is_text-eq : (v : Value) (t : String) → is_text v t ≡ true → v ≡ str t
unfolding is_text
is_text-eq (str s) t h = ap str ((eq_iff s t).0 h)
is_text-eq Value.null t h = cc
is_text-eq (Value.bool b) t h = cc
is_text-eq (Value.int n) t h = cc
is_text-eq (Value.strs ss) t h = cc
is_text-eq (Value.dict d) t h = cc

is_null-eq : (v : Value) → is_null v ≡ true → truthy v ≡ false
unfolding truthy
is_null-eq null h = refl
is_null-eq (str s) h = cc
is_null-eq (Value.bool b) h = cc
is_null-eq (Value.int n) h = cc
is_null-eq (Value.strs ss) h = cc
is_null-eq (Value.dict d) h = cc

pub or_else-JoinsOnly :
    (v w : Value) (net : String)
    → (is_text (or_else v w) net || is_null (or_else v w)) ≡ true
    → JoinsOnly v net
unfolding or_else
or_else-JoinsOnly v w net h = elim (Bool-cases (truthy v)) [
  | inr falsy ↦ inl falsy
  | inl set ↦
      let at : or_else v w ≡ v = rw (or_else, set) refl in
      let seen : (is_text v net || is_null v) ≡ true =
        ap (λ u. is_text u net || is_null u) (sym at) ∙ h in
      elim (Bool-cases (is_text v net)) [
        | inl same ↦ inr (is_text-eq v net same)
        | inr other ↦ inl (is_null-eq v (ground arith))
      ]
]

-- Every text of the list is the one given.
abbrev pub AllAre : String → List String → Type 0
AllAre t [] = Unit
AllAre t (x ∷ xs) = (x ≡ t) × AllAre t xs

pub subset-AllAre : (t : String) (xs : List String) → subset xs (t ∷ []) ≡ true → AllAre t xs
unfolding subset
subset-AllAre t [] h = tt
subset-AllAre t (x ∷ xs) h = ground (arith, subset-AllAre t xs, eq_iff t x)

-- A decimal numeral and its number.
abbrev pub AllDigits : List ℕ → Type 0
AllDigits [] = Unit
AllDigits (c ∷ cs) = (48 ≤ c) × (c ≤ 57) × AllDigits cs

abbrev pub number_from : ℕ → List ℕ → ℕ
number_from acc [] = acc
number_from acc (c ∷ cs) = number_from (acc * 10 + (c - 48)) cs

gigabytes-digits :
    (acc : ℕ) (cs : List ℕ)
    → AllDigits cs
    → gigabytes acc true (cs ++ 103 ∷ []) ≡ some (number_from acc cs)
unfolding gigabytes
gigabytes-digits acc [] h = refl
gigabytes-digits acc (c ∷ []) h = ground (arith, gigabytes-digits (acc * 10 + (c - 48)) [] tt)
gigabytes-digits acc (c ∷ d ∷ cs) h =
    ground (arith, gigabytes-digits (acc * 10 + (c - 48)) (d ∷ cs) h.2)

numeral-gigabytes :
    (c : ℕ) (cs : List ℕ)
    → AllDigits (c ∷ cs)
    → gigabytes 0 false (c ∷ (cs ++ 103 ∷ [])) ≡ some (number_from 0 (c ∷ cs))
unfolding gigabytes
numeral-gigabytes c [] h = ground (arith, gigabytes-digits (0 * 10 + (c - 48)) [] tt)
numeral-gigabytes c (d ∷ cs) h = ground (arith, gigabytes-digits (0 * 10 + (c - 48)) (d ∷ cs) h.2)

-- A memory limit that is a decimal numeral and a final "g" is at most so many gigabytes.
abbrev pub IsWithinGigabytes : ℕ → Value → Type 0
IsWithinGigabytes max v =
    (s : String) (c : ℕ) (cs : List ℕ)
    → v ≡ str s
    → codes s ≡ c ∷ (cs ++ 103 ∷ [])
    → AllDigits (c ∷ cs)
    → number_from 0 (c ∷ cs) ≤ max

pub memory_too_large-IsWithinGigabytes :
    (max : ℕ) (v : Value) → memory_too_large max (shown v) ≡ false → IsWithinGigabytes max v
unfolding memory_too_large shown
memory_too_large-IsWithinGigabytes max v h s c cs e spelled digits =
    let text : shown v ≡ some s = ap shown e in
    let read : gigabytes 0 false (codes s) ≡ some (number_from 0 (c ∷ cs)) =
      ap (gigabytes 0 false) spelled ∙ numeral-gigabytes c cs digits in
    let at : memory_too_large max (shown v) ≡ ltb max (number_from 0 (c ∷ cs)) =
      ap (memory_too_large max) text ∙ ap (over_ceiling max) read in
    let small : ltb max (number_from 0 (c ∷ cs)) ≡ false = sym at ∙ h in ground arith

-- The user is given, and is not the root user by name, by number or by default, with spaces around
-- it or not.
pub record NamesUser (v : Value) : Type 0 where
  pub given : v ≢ null
  pub not_default : (s : String) → v ≡ str s → strip (codes s) ≢ []
  pub not_zero : (s : String) → v ≡ str s → strip (codes s) ≢ codes "0"
  pub not_root : (s : String) → v ≡ str s → strip (codes s) ≢ codes "root"

is_root_user-same :
    (s : String) (t : List ℕ)
    → strip (codes s) ≡ t
    → (same_codes t [] || same_codes t (codes "0") || same_codes t (codes "root")) ≡ true
    → is_root_user (some s) ≡ true
unfolding is_root_user
is_root_user-same s t e h = rw (is_root_user, e) h

pub is_root_user-NamesUser : (v : Value) → is_root_user (shown v) ≡ false → NamesUser v
unfolding is_root_user shown codes strip
is_root_user-NamesUser v h = record {
  given = λ e.
      false≢true (sym h ∙ ap (λ u. is_root_user (shown u)) e ∙ is_root_user-same "" [] refl refl);
  not_default = λ s e bad. root s e (is_root_user-same s [] bad refl);
  not_zero = λ s e bad. root s e (is_root_user-same s (codes "0") bad refl);
  not_root = λ s e bad. root s e (is_root_user-same s (codes "root") bad refl);
}
  where
    root : (s : String) → v ≡ str s → is_root_user (some s) ≢ true
    root s e bad = false≢true (sym h ∙ ap (λ u. is_root_user (shown u)) e ∙ bad)

blank : (t : String) → str_eq "" t ≡ false → some "" ≢ some t
blank t filled e = let same : "" ≡ t = cc in false≢true (sym filled ∙ (eq_iff "" t).1 same)

pub shown-eq_str : (v : Value) (t : String) → str_eq "" t ≡ false → shown v ≡ some t → v ≡ str t
unfolding shown
shown-eq_str (str s) t filled h = ap str (cc)
shown-eq_str null t filled h = absurd (blank t filled h)
shown-eq_str (Value.bool true) t filled h = cc
shown-eq_str (Value.bool false) t filled h = absurd (blank t filled h)
shown-eq_str (Value.int n) t filled h = ground (arith, blank t filled)
shown-eq_str (Value.strs []) t filled h = absurd (blank t filled h)
shown-eq_str (Value.strs (s ∷ ss)) t filled h = cc
shown-eq_str (Value.dict []) t filled h = absurd (blank t filled h)
shown-eq_str (Value.dict (e ∷ es)) t filled h = cc

-- Containers that the platform manages, and those whose logs it may read.
abbrev pub IsManaged : Dict String → Type 0
IsManaged labels = get labels "shadowtrust.managed" ≡ some "true"

abbrev pub log_sources : List String
log_sources =
    "honeynet_backend" ∷ "honeynet_frontend" ∷ "honeynet_db" ∷ "honeynet_phpmyadmin"
    ∷ "honeynet_mobsf" ∷ "honeynet_clamav" ∷ "guacamole" ∷ "guacd" ∷ "guacamole_db" ∷ []
