-- ===== src/Detection/Sequence.antt =====
-- `_match_sequence`: the ordered-step match of a sequence rule.
use shadow_trust_security.Prelude.{
  ℕ, zero, suc, Bool, true, false, List, [], ◌∷◌, ◌++◌, leb, if◌then◌else◌,
}

-- A step: its conditions and how many events have to satisfy them.
pub record Step (C : Type 0) : Type 0 where
  pub conditions : C
  pub min_count : ℕ

-- `event_matches` is the method of the rule.
module _ {E C : Type 0} (event_matches : E → C → Bool) where
  -- The inner loop: the hits, whether they are enough, and the events from the new `idx`.
  unfoldable pub step_hits : C → ℕ → List E → List E × Bool × List E
  step_hits conditions zero events = ([], true, events)
  step_hits conditions (suc n) [] = ([], false, [])
  step_hits conditions (suc n) (e ∷ events) =
      let (hits, enough, rest) = step_hits conditions n events in
      let next = step_hits conditions (suc n) events in
      if event_matches e conditions then (e ∷ hits, enough, rest) else next

  -- The outer loop with the events used so far; no event where a step has too few hits.
  unfoldable pub match_steps : List (Step C) → List E → List E → List E
  unfolding step_hits
  match_steps [] events used = used
  match_steps (s ∷ steps) events used =
      let (hits, enough, rest) = step_hits s.conditions s.min_count events in
      let more = match_steps steps rest (used ++ hits) in if enough then more else []

-- `timestamp e` is `_as_naive(e.timestamp) or _now()`.
module _ {E : Type 0} (timestamp : E → ℕ) where
  unfoldable pub insert_by_time : E → List E → List E
  insert_by_time e [] = e ∷ []
  insert_by_time e (f ∷ fs) =
      if leb (timestamp e) (timestamp f) then e ∷ f ∷ fs else f ∷ insert_by_time e fs

  -- `sorted(events, key=timestamp)`, a stable sort.
  unfoldable pub sort_by_time : List E → List E
  unfolding insert_by_time
  sort_by_time [] = []
  sort_by_time (e ∷ es) = insert_by_time e (sort_by_time es)

  unfoldable pub match_sequence : {C : Type 0} → (E → C → Bool) → List (Step C) → List E → List E
  unfolding sort_by_time match_steps
  match_sequence event_matches steps events =
      match_steps event_matches steps (sort_by_time events) []
