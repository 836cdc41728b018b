-- ===== src/Labs/Statuses.antt =====
-- What the operations do to the statuses of the labs, in memory and in the database.
use shadow_trust_security.Prelude.{
  ◌≡◌, ◌≢◌, refl, sym, ap, ◌∙◌, String, true, none, some, Bool-cases, Option-cases, inl, inr, Dict,
  get, get-put_self, get-put_ne,
}
use shadow_trust_security.Labs.{
  save_local_state, World, Lab, VmInstance, Reach, update, update_state, update_row,
}

pub get-update_self {ℓ} :
    {V : Type ℓ} (key : String) (f : V → V) (d : Dict V) (v : V)
    → get d key ≡ some v
    → get (update key f d) key ≡ some (f v)
unfolding update
get-update_self key f d v h = rw (update, h) (get-put_self d key (f v))

pub update-none {ℓ} :
    {V : Type ℓ} (key : String) (f : V → V) (d : Dict V) → get d key ≡ none → update key f d ≡ d
unfolding update
update-none key f d h = rw (update, h) refl

pub get-update_ne {ℓ} :
    {V : Type ℓ} (key other : String) (f : V → V) (d : Dict V)
    → key ≢ other
    → get (update key f d) other ≡ get d other
unfolding update
get-update_ne key other f d n = elim (Option-cases (get d key)) [
  | inl e ↦ rw (update, e) refl
  | inr (v, e) ↦ rw (update, e) (get-put_ne d key other (f v) n)
]

module _ (reach : Reach) (lab_id : String) where
  pub update_state-eq :
      (f : Lab → Lab) (w : World)
      → ((update_state reach lab_id f w).labs ≡ update lab_id f w.labs)
        × ((update_state reach lab_id f w).vms ≡ w.vms)
        × ((update_state reach lab_id f w).guacamole ≡ w.guacamole)
  unfolding update_state save_local_state
  update_state-eq f w = elim (Option-cases (get w.labs lab_id)) [
    | inl e ↦ (
      rw (update_state, e) (sym (update-none lab_id f w.labs e)),
      rw (update_state, e) refl,
      rw (update_state, e) refl,
    )
    | inr (l, e) ↦ elim (Bool-cases reach.disk) [
      | inl y ↦ (
        rw (update_state, save_local_state, e, y) refl,
        rw (update_state, save_local_state, e, y) refl,
        rw (update_state, save_local_state, e, y) refl,
      )
      | inr n ↦ (
        rw (update_state, save_local_state, e, n) refl,
        rw (update_state, save_local_state, e, n) refl,
        rw (update_state, save_local_state, e, n) refl,
      )
    ]
  ]

  pub update_row-eq :
      (g : VmInstance → VmInstance) (w : World)
      → reach.database ≡ true
      → ((update_row reach lab_id g w).labs ≡ w.labs)
        × ((update_row reach lab_id g w).vms ≡ update lab_id g w.vms)
        × ((update_row reach lab_id g w).guacamole ≡ w.guacamole)
  unfolding update_row
  update_row-eq g w up =
      (rw (update_row, up) refl, rw (update_row, up) refl, rw (update_row, up) refl)

-- Nothing but one lab's entry and row has changed.
pub record Others (lab_id : String) (w w' : World) : Type 0 where
  pub labs : (other : String) → lab_id ≢ other → get w'.labs other ≡ get w.labs other
  pub vms : (other : String) → lab_id ≢ other → get w'.vms other ≡ get w.vms other

pub Others-trans : (id : String) (u v w : World) → Others id u v → Others id v w → Others id u w
Others-trans id u v w p q = record {
  labs = λ other n. q.labs other n ∙ p.labs other n;
  vms = λ other n. q.vms other n ∙ p.vms other n;
}

-- The entry and the row of a lab are changed together.
module _ (reach : Reach) (lab_id : String) (f : Lab → Lab) (g : VmInstance → VmInstance) (w : World)
    (up : reach.database ≡ true) where
  abbrev both : World
  both = update_row reach lab_id g (update_state reach lab_id f w)

  labs-both : both.labs ≡ update lab_id f w.labs
  labs-both =
      (update_row-eq reach lab_id g (update_state reach lab_id f w) up).0
      ∙ (update_state-eq reach lab_id f w).0

  vms-both : both.vms ≡ update lab_id g w.vms
  vms-both =
      (update_row-eq reach lab_id g (update_state reach lab_id f w) up).1
      ∙ ap (update lab_id g) (update_state-eq reach lab_id f w).1

  pub guacamole-both : both.guacamole ≡ w.guacamole
  guacamole-both =
      (update_row-eq reach lab_id g (update_state reach lab_id f w) up).2
      ∙ (update_state-eq reach lab_id f w).2

  pub both-Others : Others lab_id w both
  both-Others = record {
    labs = λ other n. ap (λ d. get d other) labs-both ∙ get-update_ne lab_id other f w.labs n;
    vms = λ other n. ap (λ d. get d other) vms-both ∙ get-update_ne lab_id other g w.vms n;
  }

  pub get-labs-both : (l : Lab) → get w.labs lab_id ≡ some l → get both.labs lab_id ≡ some (f l)
  get-labs-both l h = ap (λ d. get d lab_id) labs-both ∙ get-update_self lab_id f w.labs l h

  pub get-vms-both : (v : VmInstance) → get w.vms lab_id ≡ some v → get both.vms lab_id ≡ some (g v)
  get-vms-both v h = ap (λ d. get d lab_id) vms-both ∙ get-update_self lab_id g w.vms v h

  pub get-labs-both_none : get w.labs lab_id ≡ none → get both.labs lab_id ≡ none
  get-labs-both_none h = ap (λ d. get d lab_id) (labs-both ∙ update-none lab_id f w.labs h) ∙ h

  pub get-vms-both_none : get w.vms lab_id ≡ none → get both.vms lab_id ≡ none
  get-vms-both_none h = ap (λ d. get d lab_id) (vms-both ∙ update-none lab_id g w.vms h) ∙ h
