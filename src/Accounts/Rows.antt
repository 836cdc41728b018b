-- ===== src/Accounts/Rows.antt =====
-- The first row that a query finds, before and after a row is written.
use shadow_trust_security.Prelude.{
  ◌⊎◌, false≢true, subst, ◌≡◌, refl, sym, ap, ◌∙◌, Bool, true, false, none, some, List, [], ◌∷◌,
  Bool-cases, inl, inr,
}
use shadow_trust_security.Accounts.{User, find_user, update_user_row}

pub find_user-passes :
    (p : User → Bool) (us : List User) (u : User) → find_user p us ≡ some u → p u ≡ true
find_user-passes p [] u h = absurd (cc)
find_user-passes p (v ∷ us) u h = elim (Bool-cases (p v)) [
  | inl y ↦
      let e : find_user p (v ∷ us) ≡ some v = rw y refl in
      let same : v ≡ u = cc in subst (λ w. p w ≡ true) same y
  | inr n ↦
      let e : find_user p (v ∷ us) ≡ find_user p us = rw n refl in
      find_user-passes p us u (sym e ∙ h)
]

module _ (p : User → Bool) where
  -- The row that is written is found again.
  pub find_user-update :
      (f : User → User) (us : List User) (u : User)
      → find_user p us ≡ some u
      → p (f u) ≡ true
      → find_user p (update_user_row p f us) ≡ some (f u)
  find_user-update f [] u h k = absurd (cc)
  find_user-update f (v ∷ us) u h k = elim (Bool-cases (p v)) [
    | inl y ↦
        let e : find_user p (v ∷ us) ≡ some v = rw y refl in
        let same : v ≡ u = cc in
        let kv : p (f v) ≡ true = subst (λ w. p (f w) ≡ true) (sym same) k in
        rw y (rw kv (ap (λ w. some (f w)) same))
    | inr n ↦
        let e : find_user p (v ∷ us) ≡ find_user p us = rw n refl in
        rw n (rw n (find_user-update f us u (sym e ∙ h) k))
  ]

  module _ (q : User → Bool) (f : User → User) where
    -- A write for another query that this one does not see.
    pub find_user-update_none :
        ((v : User) → p (f v) ≡ p v)
        → (us : List User) → find_user p us ≡ none
        → find_user p (update_user_row q f us) ≡ none
    find_user-update_none keeps [] h = refl
    find_user-update_none keeps (v ∷ us) h = elim (Bool-cases (p v)) [
      | inl y ↦ let e : find_user p (v ∷ us) ≡ some v = rw y refl in absurd (cc)
      | inr n ↦
          let e : find_user p (v ∷ us) ≡ find_user p us = rw n refl in
          let rest : find_user p us ≡ none = sym e ∙ h in
          elim (Bool-cases (q v)) [
            | inl z ↦ let fn : p (f v) ≡ false = keeps v ∙ n in rw z (rw fn rest)
            | inr m ↦ rw m (rw n (find_user-update_none keeps us rest))
          ]
    ]

    pub find_user-update_some :
        ((v : User) → p (f v) ≡ p v)
        → (us : List User) (u : User) → find_user p us ≡ some u
        → (w : User) × (find_user p (update_user_row q f us) ≡ some w) × ((w ≡ u) ⊎ (w ≡ f u))
    find_user-update_some keeps [] u h = absurd (cc)
    find_user-update_some keeps (v ∷ us) u h = elim (Bool-cases (p v)) [
      | inl y ↦
          let at : find_user p (v ∷ us) ≡ some v = rw y refl in
          let same : v ≡ u = cc in
          elim (Bool-cases (q v)) [
            | inl z ↦
                let fy : p (f v) ≡ true = keeps v ∙ y in
                let found : find_user p (update_user_row q f (v ∷ us)) ≡ some (f v) =
                  rw z (rw fy refl) in
                (f v, found, inr (ap f same))
            | inr m ↦
                let found : find_user p (update_user_row q f (v ∷ us)) ≡ some v =
                  rw m (rw y refl) in
                (v, found, inl same)
          ]
      | inr n ↦
          let at : find_user p (v ∷ us) ≡ find_user p us = rw n refl in
          elim (Bool-cases (q v)) [
            | inl z ↦
                let fn : p (f v) ≡ false = keeps v ∙ n in
                let found : find_user p (update_user_row q f (v ∷ us)) ≡ some u =
                  rw z (rw fn (sym at ∙ h)) in
                (u, found, inl refl)
            | inr m ↦
                let (w, rest, from) = find_user-update_some keeps us u (sym at ∙ h) in
                let found : find_user p (update_user_row q f (v ∷ us)) ≡ some w =
                  rw m (rw n rest) in
                (w, found, from)
          ]
    ]

    -- Two queries that find the same row.
    pub find_user-update_same :
        ((v : User) → p (f v) ≡ p v)
        → (us : List User) (u : User) → find_user p us ≡ some u
        → find_user q us ≡ some u
        → find_user p (update_user_row q f us) ≡ some (f u)
    find_user-update_same keeps [] u h k = absurd (cc)
    find_user-update_same keeps (v ∷ us) u h k = elim (Bool-cases (p v)) [
      | inl y ↦
          let at : find_user p (v ∷ us) ≡ some v = rw y refl in
          let same : v ≡ u = cc in
          let z : q v ≡ true =
            subst (λ w. q w ≡ true) (sym same) (find_user-passes q (v ∷ us) u k) in
          let fy : p (f v) ≡ true = keeps v ∙ y in rw z (rw fy (ap (λ w. some (f w)) same))
      | inr n ↦
          let at : find_user p (v ∷ us) ≡ find_user p us = rw n refl in
          elim (Bool-cases (q v)) [
            | inl z ↦
                let first : find_user q (v ∷ us) ≡ some v = rw z refl in
                let same : v ≡ u = cc in
                let y : p v ≡ true =
                  subst (λ w. p w ≡ true) (sym same) (find_user-passes p (v ∷ us) u h) in
                absurd (false≢true (sym n ∙ y))
            | inr m ↦
                let next : find_user q (v ∷ us) ≡ find_user q us = rw m refl in
                rw m (rw n (find_user-update_same keeps us u (sym at ∙ h) (sym next ∙ k)))
          ]
    ]

    -- A write that makes the row the first that another query finds.
    pub find_user-update_makes :
        (us : List User) (u : User)
        → find_user p us ≡ none
        → find_user q us ≡ some u
        → p (f u) ≡ true
        → find_user p (update_user_row q f us) ≡ some (f u)
    find_user-update_makes [] u h k made = absurd (cc)
    find_user-update_makes (v ∷ us) u h k made = elim (Bool-cases (p v)) [
      | inl y ↦ let at : find_user p (v ∷ us) ≡ some v = rw y refl in absurd (cc)
      | inr n ↦
          let at : find_user p (v ∷ us) ≡ find_user p us = rw n refl in
          elim (Bool-cases (q v)) [
            | inl z ↦
                let first : find_user q (v ∷ us) ≡ some v = rw z refl in
                let same : v ≡ u = cc in
                let fy : p (f v) ≡ true = subst (λ w. p (f w) ≡ true) (sym same) made in
                rw z (rw fy (ap (λ w. some (f w)) same))
            | inr m ↦
                let next : find_user q (v ∷ us) ≡ find_user q us = rw m refl in
                rw m (rw n (find_user-update_makes us u (sym at ∙ h) (sym next ∙ k) made))
          ]
    ]
