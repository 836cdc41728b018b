-- ===== src/Containers/Safety.antt =====
-- What a launch that passed the policy checks looks like.
use shadow_trust_security.Prelude.{
  get, subst, some, ℕ, ◌≤◌, ◌≡◌, ◌⊎◌, refl, String, true, false, ◌||◌, Option, List, [], ◌∷◌, arith,
  str_eq, elem, Dict, starts_with, inl, inr,
}
use shadow_trust_security.Containers.Value.{
  ◌>>◌, Refusal, Value, int, Outcome, ok, refused, failed, truthy, value_at, or_else, is_text,
  is_null, items, mapping, text_of, shown, label,
}
use shadow_trust_security.Containers.Launch.{
  JoinsOnly, named_network, lab_escapes, HasText, IsWithinGigabytes, AllAre, subset-AllAre,
  or_else-JoinsOnly, lab_network-named_network, label-eq, label-HasText,
  memory_too_large-IsWithinGigabytes,
}
use shadow_trust_security.Containers.Policy.{
  Settings, managed_label, lab_id_label, forbidden_run_keys, some_set, check_cpu, memory_too_large,
  check_kvm, check_lab_isolation, check_lab_identity, check_lab_resources, lab_network,
  validate_lab_run,
}

-- No option of the list is set.
abbrev pub AllUnset : Dict Value → List String → Type 0
AllUnset kwargs [] = Unit
AllUnset kwargs (key ∷ keys) = (truthy (value_at kwargs key) ≡ false) × AllUnset kwargs keys

pub some_set-AllUnset :
    (kwargs : Dict Value) (keys : List String) → some_set kwargs keys ≡ false → AllUnset kwargs keys
unfolding some_set
some_set-AllUnset kwargs [] h = tt
some_set-AllUnset kwargs (key ∷ keys) h = ground (arith, some_set-AllUnset kwargs keys)

-- The outcome is a value for which `P` holds.
abbrev pub Gives {ℓ κ} : {A : Type ℓ} → Outcome A → (A → Type κ) → Type (ℓ ⊔ κ)
Gives {A} m P = (a : A) × (m ≡ ok a) × P a

pub Outcome-cases {ℓ} :
    {A : Type ℓ} (m : Outcome A)
    → ((a : A) × (m ≡ ok a)) ⊎ ((m ≡ failed) ⊎ ((r : Refusal) × (m ≡ refused r)))
Outcome-cases (ok a) = inl (a, refl)
Outcome-cases (refused r) = inr (inr (r, refl))
Outcome-cases failed = inr (inl refl)

-- A launch that the lab policy accepts.
pub record IsSafeLab (settings : Settings) (img : String) (kwargs : Dict Value)
    (net : Option String) : Type 0 where
  pub image_listed : elem img settings.allowed_lab_images ≡ true
  pub joins : JoinsOnly (value_at kwargs "network") (named_network settings.default_lab_network net)
  pub unset : AllUnset kwargs lab_escapes
  pub labelled : Gives (mapping (value_at kwargs "labels")) (λ labels.
      (get labels "shadowtrust.managed" ≡ some "true") × HasText labels "shadowtrust.lab_id")
  pub named : Gives (text_of (value_at kwargs "name")) (λ n. starts_with n "shadowtrust-" ≡ true)
  pub cpu_capped : (n : ℕ) → value_at kwargs "nano_cpus" ≡ int n → n ≤ settings.max_nano_cpus
  pub memory_capped : IsWithinGigabytes settings.max_mem_gb (value_at kwargs "mem_limit")
  pub kvm_only : Gives (items (value_at kwargs "cap_add")) (λ caps.
      Gives (items (value_at kwargs "devices")) (λ devices.
        ((caps ≡ []) × (devices ≡ []))
        ⊎ ((elem img settings.kvm_images ≡ true)
            × AllAre "NET_ADMIN" caps
            × AllAre "/dev/kvm" devices)))

check_kvm_safe :
    (settings : Settings) (img : String) (caps devices : List String)
    → check_kvm settings img caps devices ≡ ok tt
    → ((caps ≡ []) × (devices ≡ []))
      ⊎ ((elem img settings.kvm_images ≡ true)
          × AllAre "NET_ADMIN" caps
          × AllAre "/dev/kvm" devices)
unfolding check_kvm
check_kvm_safe settings img [] [] h = inl (refl, refl)
check_kvm_safe settings img [] (d ∷ ds) h =
    inr (ground (arith, subset-AllAre "NET_ADMIN" [], subset-AllAre "/dev/kvm" (d ∷ ds)))
check_kvm_safe settings img (c ∷ cs) devices h =
    inr (ground (arith, subset-AllAre "NET_ADMIN" (c ∷ cs), subset-AllAre "/dev/kvm" devices))

check_cpu_safe : (ceiling n : ℕ) (v : Value) → check_cpu ceiling v ≡ ok tt → v ≡ int n → n ≤ ceiling
unfolding check_cpu
check_cpu_safe ceiling n v h e = ground arith

-- A chain of checks that passes has passed each part.
pub >>-eq-ok : (m k : Outcome (Unit {0})) → (m >> k) ≡ ok tt → (m ≡ ok tt) × (k ≡ ok tt)
>>-eq-ok (ok u) k h = (refl, h)
>>-eq-ok (refused r) k h = cc
>>-eq-ok failed k h = cc

lab_isolation :
    (settings : Settings) (img : String) (kwargs : Dict Value) (net : String)
    → check_lab_isolation settings img kwargs net ≡ ok tt
    → let requested = or_else (value_at kwargs "network") (value_at kwargs "network_mode") in
      (elem img settings.allowed_lab_images ≡ true)
      × ((is_text requested net || is_null requested) ≡ true)
      × (some_set kwargs forbidden_run_keys ≡ false)
unfolding check_lab_isolation
lab_isolation settings img kwargs net passed = ground arith

lab_labels :
    (kwargs : Dict Value)
    → check_lab_identity kwargs ≡ ok tt
    → Gives (mapping (value_at kwargs "labels")) (λ labels.
      (str_eq (label labels managed_label) "true" ≡ true)
      × (str_eq (label labels lab_id_label) "" ≡ false))
unfolding check_lab_identity
lab_labels kwargs passed = elim (Outcome-cases (mapping (value_at kwargs "labels"))) [
  | inl (labels, e) ↦ (labels, e, (ground arith, ground arith))
  | inr bad ↦ absurd (ground arith)
]

lab_name :
    (kwargs : Dict Value)
    → check_lab_identity kwargs ≡ ok tt
    → Gives (text_of (value_at kwargs "name")) (λ n. starts_with n "shadowtrust-" ≡ true)
unfolding check_lab_identity
lab_name kwargs passed = elim (Outcome-cases (text_of (value_at kwargs "name"))) [
  | inl (n, e) ↦ (n, e, ground arith)
  | inr bad ↦ absurd (ground arith)
]

lab_ceilings :
    (settings : Settings) (img : String) (kwargs : Dict Value)
    → check_lab_resources settings img kwargs ≡ ok tt
    → (check_cpu settings.max_nano_cpus (value_at kwargs "nano_cpus") ≡ ok tt)
      × (memory_too_large settings.max_mem_gb (shown (value_at kwargs "mem_limit")) ≡ false)
unfolding check_lab_resources
lab_ceilings settings img kwargs passed = ground arith

lab_kvm :
    (settings : Settings) (img : String) (kwargs : Dict Value)
    → check_lab_resources settings img kwargs ≡ ok tt
    → Gives (items (value_at kwargs "cap_add")) (λ caps.
      Gives
        (items (value_at kwargs "devices"))
        (λ devices. check_kvm settings img caps devices ≡ ok tt))
unfolding check_lab_resources
lab_kvm settings img kwargs passed = elim (Outcome-cases (items (value_at kwargs "cap_add"))) [
  | inl (caps, e) ↦ (
    caps,
    e,
    elim (Outcome-cases (items (value_at kwargs "devices"))) [
      | inl (devices, d) ↦ (devices, d, ground arith)
      | inr bad ↦ absurd (ground arith)
    ],
  )
  | inr bad ↦ absurd (ground arith)
]

-- A launch that `validate_lab_run` accepts has a listed image; names no network but the one that the
-- caller allows (the deployment's lab network if the caller names none); sets none of the fourteen
-- options written out in `lab_escapes`; has the labels shadowtrust.managed=true and a lab id that is
-- not empty, and a name that begins with "shadowtrust-"; has a CPU limit, if it is a number, within
-- the ceiling, and a memory limit, if it is a decimal numeral and "g", within the ceiling; and adds
-- capabilities or devices only for a KVM image, and no other than NET_ADMIN and /dev/kvm.
pub validate_lab_run-IsSafeLab :
    (settings : Settings) (img : String) (kwargs : Dict Value) (net : Option String)
    → validate_lab_run settings img kwargs net ≡ ok tt
    → IsSafeLab settings img kwargs net
unfolding validate_lab_run
validate_lab_run-IsSafeLab settings img kwargs net passed =
    let (isolated, rest) =
      >>-eq-ok (check_lab_isolation settings img kwargs (lab_network settings net))
        (check_lab_identity kwargs >> check_lab_resources settings img kwargs) passed in
    let (identified, limited) =
      >>-eq-ok (check_lab_identity kwargs) (check_lab_resources settings img kwargs) rest in
    let front = lab_isolation settings img kwargs (lab_network settings net) isolated in
    let (labels, e, marks) = lab_labels kwargs identified in
    let (caps, c, more) = lab_kvm settings img kwargs limited in
    let (devices, d, checked) = more in
    let ceilings = lab_ceilings settings img kwargs limited in
    record {
      image_listed = front.0;
      joins =
          or_else-JoinsOnly (value_at kwargs "network") (value_at kwargs "network_mode")
            (named_network settings.default_lab_network net)
            (subst
              (λ n.
                let requested =
                  or_else (value_at kwargs "network") (value_at kwargs "network_mode") in
                (is_text requested n || is_null requested) ≡ true)
              (lab_network-named_network settings net) front.1);
      unset = some_set-AllUnset kwargs forbidden_run_keys front.2;
      labelled = (
        labels,
        e,
        (
          label-eq labels "shadowtrust.managed" "true" refl marks.0,
          label-HasText labels "shadowtrust.lab_id" marks.1,
        ),
      );
      named = lab_name kwargs identified;
      cpu_capped =
          λ n e. check_cpu_safe settings.max_nano_cpus n (value_at kwargs "nano_cpus") ceilings.0 e;
      memory_capped = memory_too_large-IsWithinGigabytes _ _ ceilings.1;
      kvm_only = (caps, c, (devices, d, check_kvm_safe settings img caps devices checked));
    }
