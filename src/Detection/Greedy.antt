-- ===== src/Detection/Greedy.antt =====
-- A sequence rule fires exactly on the windows that have its steps in order.
use mathlib.Core.Path.{subst}
use shadow_trust_security.Prelude.{
  ℕ, zero, suc, ◌≡◌, refl, Bool, true, false, Option, none, some, List, [], ◌∷◌, ◌++◌, arith,
  if◌then◌else◌, Bool-cases, Option-cases, inl, inr,
}
use shadow_trust_security.Detection.Sequence.{Step}

-- Every step's conditions as often as its count says.
abbrev pub repeat : {C : Type 0} → ℕ → C → List C
repeat zero c = []
repeat (suc n) c = c ∷ repeat n c

abbrev pub plan : {C : Type 0} → List (Step C) → List C
plan [] = []
plan (s ∷ steps) = repeat s.min_count s.conditions ++ plan steps

module _ {E C : Type 0} (event_matches : E → C → Bool) where
  -- The events in `used` stand in that order in the window, and match the conditions one by one.
  pub data Chosen : List C → List E → List E → Type 0 where
    done : {events : List E} → Chosen [] [] events
    skip :
        {e : E} {cs : List C} {used events : List E}
        → Chosen cs used events
        → Chosen cs used (e ∷ events)
    hit :
        {e : E} {c : C} {cs : List C} {used events : List E}
        → event_matches e c ≡ true
        → Chosen cs used events
        → Chosen (c ∷ cs) (e ∷ used) (e ∷ events)

  abbrev pub cons_some : E → Option (List E) → Option (List E)
  cons_some e none = none
  cons_some e (some es) = some (e ∷ es)

  -- The first choice.
  unfoldable pub greedy : List C → List E → Option (List E)
  greedy [] events = some []
  greedy (c ∷ cs) [] = none
  greedy (c ∷ cs) (e ∷ events) =
      let taken = cons_some e (greedy cs events) in
      let passed = greedy (c ∷ cs) events in if event_matches e c then taken else passed

  abbrev pub is_some : Option (List E) → Bool
  is_some none = false
  is_some (some es) = true

  is_some-cons_some : (e : E) (o : Option (List E)) → is_some (cons_some e o) ≡ is_some o
  is_some-cons_some e none = refl
  is_some-cons_some e (some es) = refl

  pub greedy-Chosen :
      (cs : List C) (events used : List E) → greedy cs events ≡ some used → Chosen cs used events
  unfolding greedy
  greedy-Chosen [] events used h = subst (λ us. Chosen [] us events) (ground arith) done
  greedy-Chosen (c ∷ cs) [] used h = absurd (ground arith)
  greedy-Chosen (c ∷ cs) (e ∷ events) used h = elim (Bool-cases (event_matches e c)) [
    | inl y ↦ elim (Option-cases (greedy cs events)) [
      | inl nothing ↦ absurd (ground arith)
      | inr (us, chosen) ↦
          subst (λ vs. Chosen (c ∷ cs) vs (e ∷ events)) (ground arith)
            (hit y (greedy-Chosen cs events us chosen))
    ]
    | inr n ↦ skip (greedy-Chosen (c ∷ cs) events used (ground arith))
  ]

  later :
      (e : E) (cs : List C) (events : List E)
      → ((c : C) (ds : List C)
          → is_some (greedy (c ∷ ds) events) ≡ true
          → is_some (greedy ds events) ≡ true)
      → is_some (greedy cs events) ≡ true
      → is_some (greedy cs (e ∷ events)) ≡ true
  unfolding greedy
  later e [] events fewer h = refl
  later e (c ∷ cs) events fewer h = elim (Bool-cases (event_matches e c)) [
    | inl y ↦ rw (y, is_some-cons_some e (greedy cs events)) (fewer c cs h)
    | inr n ↦ rw n h
  ]

  fewer :
      (c : C) (cs : List C) (events : List E)
      → is_some (greedy (c ∷ cs) events) ≡ true
      → is_some (greedy cs events) ≡ true
  unfolding greedy
  fewer c cs [] h = absurd (ground arith)
  fewer c cs (e ∷ events) h =
      later e cs events (λ d ds. fewer d ds events)
        (elim (Bool-cases (event_matches e c)) [
          | inl y ↦ (ground (arith, is_some-cons_some e (greedy cs events)))
          | inr n ↦ fewer c cs events (ground arith)
        ])

  pub Chosen-greedy :
      (cs : List C) (events used : List E)
      → Chosen cs used events
      → is_some (greedy cs events) ≡ true
  unfolding greedy
  Chosen-greedy _ _ _ done = refl
  Chosen-greedy cs (e ∷ events) used (skip ch) =
      later e cs events (λ d ds. fewer d ds events) (Chosen-greedy cs events used ch)
  Chosen-greedy (c ∷ cs) (e ∷ events) (_ ∷ used) (hit m ch) =
      rw (m, is_some-cons_some e (greedy cs events)) (Chosen-greedy cs events used ch)
