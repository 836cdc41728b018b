-- ===== src/Detection/Refinement.antt =====
-- `_match_sequence` makes the first choice of events, and finds one if there is any.
use mathlib.Core.Path.{subst}
use shadow_trust_security.Prelude.{
  ℕ, zero, suc, ◌≡◌, ◌≢◌, refl, sym, ap, ◌∙◌, Bool, true, false, Option, none, some, List, [], ◌∷◌,
  ◌++◌, arith, if◌then◌else◌, Bool-cases, Option-cases, inl, inr, append-nil, append_assoc,
}
use shadow_trust_security.Detection.Sequence.{
  Step, sort_by_time, step_hits, match_steps, match_sequence,
}
use shadow_trust_security.Detection.Greedy.{
  cons_some, repeat, plan, Chosen, greedy, greedy-Chosen, Chosen-greedy,
}

module _ {E C : Type 0} (event_matches : E → C → Bool) where
  abbrev prepend : List E → Option (List E) → Option (List E)
  prepend hits none = none
  prepend hits (some us) = some (hits ++ us)

  abbrev or_empty : Option (List E) → List E
  or_empty none = []
  or_empty (some us) = us

  prepend-nil : (o : Option (List E)) → prepend [] o ≡ o
  prepend-nil none = refl
  prepend-nil (some us) = refl

  prepend-append :
      (xs ys : List E) (o : Option (List E))
      → or_empty (prepend (xs ++ ys) o) ≡ or_empty (prepend xs (prepend ys o))
  prepend-append xs ys none = refl
  prepend-append xs ys (some us) = append_assoc xs ys us

  cons_some-if :
      (b : Bool) (e : E) (hits : List E) (o : Option (List E))
      → cons_some event_matches e (if b then prepend hits o else none)
        ≡ (if b then prepend (e ∷ hits) o else none)
  cons_some-if false e hits o = refl
  cons_some-if true e hits none = refl
  cons_some-if true e hits (some us) = refl

  greedy-repeat :
      (c : C) (n : ℕ) (cs : List C) (events : List E)
      → greedy event_matches (repeat n c ++ cs) events ≡ (
          let (hits, enough, rest) = step_hits event_matches c n events in
          if enough then prepend hits (greedy event_matches cs rest) else none)
  unfolding greedy step_hits
  greedy-repeat c zero cs events = sym (prepend-nil (greedy event_matches cs events))
  greedy-repeat c (suc n) cs [] = refl
  greedy-repeat c (suc n) cs (e ∷ events) = elim (Bool-cases (event_matches e c)) [
    | inl y ↦
        rw y (ap (cons_some event_matches e) (greedy-repeat c n cs events) ∙ cons_some-if _ e _ _)
    | inr m ↦ rw m (greedy-repeat c (suc n) cs events)
  ]

  match_steps-greedy :
      (steps : List (Step C)) (events used : List E)
      → match_steps event_matches steps events used
        ≡ or_empty (prepend used (greedy event_matches (plan steps) events))
  unfolding match_steps greedy
  match_steps-greedy [] events used = sym (append-nil used)
  match_steps-greedy (s ∷ steps) events used =
      let hits = (step_hits event_matches s.conditions s.min_count events).0 in
      let enough = (step_hits event_matches s.conditions s.min_count events).1 in
      let rest = (step_hits event_matches s.conditions s.min_count events).2 in
      let found = greedy-repeat s.conditions s.min_count (plan steps) events in
      elim (Bool-cases enough) [
        | inl y ↦
            rw (found, y)
              (match_steps-greedy steps rest (used ++ hits)
                ∙ prepend-append used hits (greedy event_matches (plan steps) rest))
        | inr m ↦ rw (found, m) refl
      ]

module _ {E C : Type 0} (timestamp : E → ℕ) (event_matches : E → C → Bool) where
  match_sequence-greedy :
      (steps : List (Step C)) (events : List E)
      → match_sequence timestamp event_matches steps events
        ≡ or_empty event_matches (greedy event_matches (plan steps) (sort_by_time timestamp events))
  unfolding match_sequence
  match_sequence-greedy steps events =
      match_steps-greedy event_matches steps (sort_by_time timestamp events) []
      ∙ ap (or_empty event_matches) (
          prepend-nil event_matches
            (greedy event_matches (plan steps) (sort_by_time timestamp events)))

  -- What a sequence rule reports stands in this order in the window and satisfies its steps one
  -- after the other, each by as many events as it asks for.
  pub match_sequence-Chosen :
      (steps : List (Step C)) (events : List E)
      → match_sequence timestamp event_matches steps events ≢ []
      → Chosen event_matches
          (plan steps)
          (match_sequence timestamp event_matches steps events)
          (sort_by_time timestamp events)
  match_sequence-Chosen steps events fires =
      let e = match_sequence-greedy steps events in
      elim (Option-cases (greedy event_matches (plan steps) (sort_by_time timestamp events))) [
        | inl nothing ↦ absurd (fires (e ∙ ap (or_empty event_matches) nothing))
        | inr (us, chosen) ↦
            subst (λ vs. Chosen event_matches (plan steps) vs (sort_by_time timestamp events))
              (sym (e ∙ ap (or_empty event_matches) chosen))
              (greedy-Chosen event_matches (plan steps) (sort_by_time timestamp events) us chosen)
      ]

  -- A sequence rule misses nothing: if any events of the window satisfy its steps in order, then it
  -- reports such events.
  pub match_sequence_complete :
      (steps : List (Step C)) (events us : List E)
      → Chosen event_matches (plan steps) us (sort_by_time timestamp events)
      → Chosen event_matches
          (plan steps)
          (match_sequence timestamp event_matches steps events)
          (sort_by_time timestamp events)
  match_sequence_complete steps events us any =
      let e = match_sequence-greedy steps events in
      let found = Chosen-greedy event_matches (plan steps) (sort_by_time timestamp events) us any in
      elim (Option-cases (greedy event_matches (plan steps) (sort_by_time timestamp events))) [
        | inl nothing ↦ absurd (ground arith)
        | inr (vs, chosen) ↦
            subst (λ ws. Chosen event_matches (plan steps) ws (sort_by_time timestamp events))
              (sym (e ∙ ap (or_empty event_matches) chosen))
              (greedy-Chosen event_matches (plan steps) (sort_by_time timestamp events) vs chosen)
      ]
