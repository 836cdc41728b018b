-- ===== src/Telemetry/Collector/Batch.antt =====
-- The batch of a cycle: the events of the records that are read, without repeated ids.
use mathlib.Core.Path.{subst}
use shadow_trust_security.Prelude.{
  ap, none, some, Option-cases, eq_iff, false≢true, ◌≡◌, refl, sym, ◌∙◌, String, true, false,
  Option, List, [], ◌∷◌, arith, str_eq, eq_refl, elem, Bool-cases, inl, inr,
}
use shadow_trust_security.Telemetry.Collector.{ids, unseen, normalize_all}

module _ {E : Type 0} (event_id : E → String) where
  -- The dedupe keeps an id that it has not seen.
  pub unseen-keeps :
      (i : String) (seen : List String) (es : List E)
      → elem i seen ≡ false
      → elem i (ids event_id es) ≡ true
      → elem i (ids event_id (unseen event_id seen es)) ≡ true
  unfolding unseen
  unseen-keeps i seen [] new h = h
  unseen-keeps i seen (e ∷ es) new h = elim (Bool-cases (elem (event_id e) seen)) [
    | inl old ↦ elim (Bool-cases (str_eq (event_id e) i)) [
      | inl same ↦
          let at : event_id e ≡ i = (eq_iff _ _).0 same in
          absurd (false≢true (sym new ∙ subst (λ k. elem k seen ≡ true) at old))
      | inr other ↦ rw old (unseen-keeps i seen es new (ground arith))
    ]
    | inr fresh ↦ elim (Bool-cases (str_eq (event_id e) i)) [
      | inl same ↦ rw fresh (ground arith)
      | inr other ↦
          let later = unseen-keeps i (event_id e ∷ seen) es (ground arith) (ground arith) in
          rw fresh (ground (arith, later))
    ]
  ]

module _ {R E : Type 0} (normalize : R → Option E) where
  -- The event is that of a record of the list.
  pub data ComesFrom (e : E) : List R → Type 0 where
    here : (r : R) (rs : List R) → normalize r ≡ some e → ComesFrom e (r ∷ rs)
    there : (r : R) (rs : List R) → ComesFrom e rs → ComesFrom e (r ∷ rs)

  abbrev pub AllFrom : List E → List R → Type 0
  AllFrom [] rs = Unit
  AllFrom (e ∷ es) rs = ComesFrom e rs × AllFrom es rs

  AllFrom-there : (es : List E) (r : R) (rs : List R) → AllFrom es rs → AllFrom es (r ∷ rs)
  AllFrom-there [] r rs h = tt
  AllFrom-there (e ∷ es) r rs h = (there r rs h.0, AllFrom-there es r rs h.1)

  normalize_all-AllFrom : (rs : List R) → AllFrom (normalize_all normalize rs).0 rs
  unfolding normalize_all
  normalize_all-AllFrom [] = tt
  normalize_all-AllFrom (r ∷ rs) =
      let rest = AllFrom-there (normalize_all normalize rs).0 r rs (normalize_all-AllFrom rs) in
      elim (Option-cases (normalize r)) [
        | inl e ↦ rw (normalize_all, e) rest
        | inr (x, e) ↦ rw (normalize_all, e) (here r rs e, rest)
      ]

  module _ (event_id : E → String) where
    unseen-AllFrom :
        (seen : List String) (es : List E) (rs : List R)
        → AllFrom es rs
        → AllFrom (unseen event_id seen es) rs
    unfolding unseen
    unseen-AllFrom seen [] rs h = tt
    unseen-AllFrom seen (e ∷ es) rs h = elim (Bool-cases (elem (event_id e) seen)) [
      | inl old ↦ rw old (unseen-AllFrom seen es rs h.1)
      | inr new ↦ rw new (h.0, unseen-AllFrom (event_id e ∷ seen) es rs h.1)
    ]

    pub batch-AllFrom :
        (rs : List R) → AllFrom (unseen event_id [] (normalize_all normalize rs).0) rs
    batch-AllFrom rs =
        unseen-AllFrom [] (normalize_all normalize rs).0 rs (normalize_all-AllFrom rs)

    -- The event of a record, if it has one, is among `es`.
    abbrev pub IsTaken : List E → Option E → Type 0
    IsTaken es none = Unit
    IsTaken es (some e) = elem (event_id e) (ids event_id es) ≡ true

    abbrev pub AllTaken : List E → List R → Type 0
    AllTaken es [] = Unit
    AllTaken es (r ∷ rs) = IsTaken es (normalize r) × AllTaken es rs

    AllTaken-of :
        (es : List E) (rs : List R)
        → ((i : String)
            → elem i (ids event_id (normalize_all normalize rs).0) ≡ true
            → elem i (ids event_id es) ≡ true)
        → AllTaken es rs
    unfolding normalize_all
    AllTaken-of es [] h = tt
    AllTaken-of es (r ∷ rs) h = elim (Option-cases (normalize r)) [
      | inl e ↦
          let at : (normalize_all normalize (r ∷ rs)).0 ≡ (normalize_all normalize rs).0 =
            rw (normalize_all, e) refl in
          (rw e tt, AllTaken-of es rs (λ i m. h i (ap (λ l. elem i (ids event_id l)) at ∙ m)))
      | inr (x, e) ↦
          let at : (normalize_all normalize (r ∷ rs)).0 ≡ x ∷ (normalize_all normalize rs).0 =
            rw (normalize_all, e) refl in
          (
            rw e (
                h (event_id x) (
                  ap (λ l. elem (event_id x) (ids event_id l)) at
                  ∙ rw (eq_refl (event_id x)) refl)),
            AllTaken-of es rs
                (λ i m. h i (ap (λ l. elem i (ids event_id l)) at ∙ ground (arith, m))),
          )
    ]

    pub batch-AllTaken :
        (rs : List R) → AllTaken (unseen event_id [] (normalize_all normalize rs).0) rs
    batch-AllTaken rs =
        AllTaken-of (unseen event_id [] (normalize_all normalize rs).0) rs
          (λ i m. unseen-keeps event_id i [] (normalize_all normalize rs).0 refl m)
