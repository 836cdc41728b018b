-- ===== src/Detection/Window.antt =====
-- A test that every event passes, through the filters and sorts of a rule.
use mathlib.Core.Path.{ap}
use shadow_trust_security.Prelude.{
  ◌∙◌, inr, inl, suc, ◌≢◌, length, ◌⊎◌, ℕ, ◌≡◌, refl, Bool, true, List, [], ◌∷◌, ◌++◌, arith, keep,
  all, and_left, and_right,
}
use shadow_trust_security.Detection.Sequence.{sort_by_time, insert_by_time}
use shadow_trust_security.Detection.Greedy.{Chosen, skip, hit, done}

module _ {E : Type 0} (p : E → Bool) where
  pub all-append : (xs ys : List E) → all p xs ≡ true → all p ys ≡ true → all p (xs ++ ys) ≡ true
  all-append [] ys h k = k
  all-append (x ∷ xs) ys h k = ground (arith, all-append xs ys)

  pub all-keep : (q : E → Bool) (xs : List E) → all p xs ≡ true → all p (keep q xs) ≡ true
  all-keep q [] h = refl
  all-keep q (x ∷ xs) h = ground (arith, all-keep q xs)

  pub all-keep_test : (xs : List E) → all p (keep p xs) ≡ true
  all-keep_test [] = refl
  all-keep_test (x ∷ xs) = ground (arith, all-keep_test xs)

  pub all-insert_by_time :
      (time : E → ℕ) (e : E) (xs : List E)
      → p e ≡ true
      → all p xs ≡ true
      → all p (insert_by_time time e xs) ≡ true
  unfolding insert_by_time
  all-insert_by_time time e [] h k = ground arith
  all-insert_by_time time e (x ∷ xs) h k = ground (arith, all-insert_by_time time e xs)

  pub all-sort_by_time :
      (time : E → ℕ) (xs : List E) → all p xs ≡ true → all p (sort_by_time time xs) ≡ true
  unfolding sort_by_time
  all-sort_by_time time [] h = refl
  all-sort_by_time time (x ∷ xs) h =
      all-insert_by_time time x (sort_by_time time xs) (and_left _ _ h)
        (all-sort_by_time time xs (and_right (p x) _ h))

  pub length-insert_by_time :
      (time : E → ℕ) (e : E) (xs : List E) → length (insert_by_time time e xs) ≡ suc (length xs)
  unfolding insert_by_time
  length-insert_by_time time e [] = refl
  length-insert_by_time time e (x ∷ xs) = ground (arith, length-insert_by_time time e xs)

  pub length-sort_by_time : (time : E → ℕ) (xs : List E) → length (sort_by_time time xs) ≡ length xs
  unfolding sort_by_time
  length-sort_by_time time [] = refl
  length-sort_by_time time (x ∷ xs) =
      length-insert_by_time time x (sort_by_time time xs) ∙ ap suc (length-sort_by_time time xs)

  pub List-cases : (xs : List E) → (xs ≡ []) ⊎ (xs ≢ [])
  List-cases [] = inl refl
  List-cases (x ∷ xs) = inr (λ h. absurd (ground (arith, h)))

  pub all-Chosen :
      {C : Type 0} (m : E → C → Bool) (cs : List C) (used es : List E)
      → Chosen m cs used es
      → all p es ≡ true
      → all p used ≡ true
  all-Chosen m _ _ _ done h = refl
  all-Chosen m cs used (e ∷ es) (skip ch) h = all-Chosen m cs used es ch (and_right (p e) _ h)
  all-Chosen m (c ∷ cs) (e ∷ used) (_ ∷ es) (hit y ch) h =
      let rest = all-Chosen m cs used es ch (and_right (p e) _ h) in ground arith
