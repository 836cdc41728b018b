-- ===== src/Detection/Candidates.antt =====
-- What a candidate of a rule is made of.
use mathlib.Core.Path.{ap, sym, subst}
use shadow_trust_security.Prelude.{
  ◌∙◌, eq_refl, inr, inl, ◌≤◌, Option-cases, Bool-cases, ◌≢◌, put, get, length, eq_iff, ◌⊎◌, ℕ, ◌-◌,
  ◌*◌, ◌≡◌, refl, String, Bool, true, false, Option, none, some, List, [], ◌∷◌, ◌++◌, arith, leb,
  all, str_eq, Dict,
}
use shadow_trust_security.Detection.Sequence.{match_sequence, sort_by_time}
use shadow_trust_security.Detection.Greedy.{plan}
use shadow_trust_security.Detection.Refinement.{match_sequence-Chosen}
use shadow_trust_security.Detection.Rules.{
  recent_of, evaluate_rule, evaluate_groups, evaluate_group, cons_some, candidate_of, hits_of,
  events_of, groups_of, matched_of, add_to_group, Candidate, DetectionRule, EventView, time_of,
}
use shadow_trust_security.Detection.Window.{
  all-append, all-keep, all-keep_test, all-sort_by_time, length-sort_by_time, List-cases,
  all-Chosen,
}

module _ {E C : Type 0} (view : EventView E C) (now : ℕ) where
  abbrev pub same_group : String → Option String → Bool
  same_group g none = false
  same_group g (some h) = str_eq h g

  -- The event belongs to the group and lies within the timeframe.
  abbrev pub in_group : String → E → Bool
  in_group g e = same_group g (view.group_key e)

  abbrev pub is_recent : DetectionRule C → E → Bool
  is_recent rule e = leb (now - rule.timeframe * 1000000) (time_of view now e)

  abbrev AllGrouped : Dict (List E) → Type 0
  AllGrouped [] = Unit
  AllGrouped ((g, evs) ∷ groups) = (all (in_group g) evs ≡ true) × AllGrouped groups

  AllGrouped-get :
      (groups : Dict (List E)) (g : String)
      → AllGrouped groups
      → all (in_group g) (events_of (get groups g)) ≡ true
  unfolding get
  AllGrouped-get [] g h = refl
  AllGrouped-get ((name, evs) ∷ groups) g h = elim (Bool-cases (str_eq name g)) [
    | inl same ↦
        let at : get ((name, evs) ∷ groups) g ≡ some evs = ground arith in
        subst (λ o. all (in_group g) (events_of o) ≡ true) (sym at)
          (subst (λ k. all (in_group k) evs ≡ true) ((eq_iff _ _).0 same) h.0)
    | inr other ↦
        let at : get ((name, evs) ∷ groups) g ≡ get groups g = ground arith in
        subst (λ o. all (in_group g) (events_of o) ≡ true) (sym at) (AllGrouped-get groups g h.1)
  ]

  AllGrouped-put :
      (groups : Dict (List E)) (g : String) (es : List E)
      → AllGrouped groups
      → all (in_group g) es ≡ true
      → AllGrouped (put groups g es)
  unfolding put
  AllGrouped-put [] g es h k = (k, tt)
  AllGrouped-put ((name, evs) ∷ groups) g es h k = elim (Bool-cases (str_eq name g)) [
    | inl same ↦
        let at : put ((name, evs) ∷ groups) g es ≡ (name, es) ∷ groups = ground arith in
        subst AllGrouped (sym at)
          (subst (λ n. all (in_group n) es ≡ true) (sym ((eq_iff _ _).0 same)) k, h.1)
    | inr other ↦
        let at : put ((name, evs) ∷ groups) g es ≡ (name, evs) ∷ put groups g es = ground arith in
        subst AllGrouped (sym at) (h.0, AllGrouped-put groups g es h.1 k)
  ]

  AllGrouped-add_to_group :
      (groups : Dict (List E)) (e : E)
      → AllGrouped groups
      → AllGrouped (add_to_group view now e (view.group_key e) groups)
  unfolding add_to_group
  AllGrouped-add_to_group groups e h = elim (Option-cases (view.group_key e)) [
    | inl nothing ↦ rw nothing h
    | inr (g, is_g) ↦
        let own : in_group g e ≡ true = rw is_g (eq_refl g) in
        let old = AllGrouped-get groups g h in
        rw is_g (
          AllGrouped-put groups g (events_of (get groups g) ++ e ∷ []) h
            (all-append (in_group g) (events_of (get groups g)) (e ∷ []) old (rw own refl)))
  ]

  AllGrouped-groups_of :
      (es : List E) (groups : Dict (List E))
      → AllGrouped groups
      → AllGrouped (groups_of view now es groups)
  unfolding groups_of
  AllGrouped-groups_of [] groups h = h
  AllGrouped-groups_of (e ∷ es) groups h =
      AllGrouped-groups_of es (add_to_group view now e (view.group_key e) groups)
        (AllGrouped-add_to_group groups e h)

  all-match_sequence :
      (p : E → Bool) (rule : DetectionRule C) (es : List E)
      → all p es ≡ true
      → all p (match_sequence (time_of view now) view.event_matches rule.steps es) ≡ true
  all-match_sequence p rule es h =
      let used = match_sequence (time_of view now) view.event_matches rule.steps es in
      elim (List-cases p used) [
        | inl empty ↦ rw empty refl
        | inr some_used ↦
            all-Chosen p view.event_matches (plan rule.steps) used
              (sort_by_time (time_of view now) es)
              (match_sequence-Chosen (time_of view now) view.event_matches rule.steps es some_used)
              (all-sort_by_time p (time_of view now) es h)
      ]

  all-matched_of :
      (p : E → Bool) (rule : DetectionRule C) (es : List E)
      → all p es ≡ true
      → all p (matched_of view now rule es) ≡ true
  unfolding matched_of hits_of
  all-matched_of p rule es h = ground (
    arith,
    all-match_sequence p rule es h,
    all-keep p (λ e. view.event_matches e rule.conditions) es h,
  )

  -- Every reported event is of the group and within the timeframe, and a threshold rule has as many
  -- as its threshold.
  pub record IsSound (rule : DetectionRule C) (c : Candidate E) : Type 0 where
    pub grouped : all (in_group c.group) c.matched ≡ true
    pub timely : all (is_recent rule) c.matched ≡ true
    pub enough : (rule.is_sequence ≡ true) ⊎ (rule.threshold ≤ length c.matched)

  matched_of-enough :
      (rule : DetectionRule C) (es : List E)
      → matched_of view now rule es ≢ []
      → (rule.is_sequence ≡ true) ⊎ (rule.threshold ≤ length (matched_of view now rule es))
  unfolding matched_of
  matched_of-enough rule es some_matched = ground arith

  candidate_of-some :
      (rule : DetectionRule C) (g : String) (es : List E) (c : Candidate E)
      → candidate_of view now rule g es ≡ some c
      → (c.group ≡ g) × (c.matched ≡ es) × (es ≢ [])
  candidate_of-some rule g [] c h = absurd (ground arith)
  candidate_of-some rule g (e ∷ es) c h =
      (ground arith, ground arith, λ k. absurd (ground (arith, k)))

  evaluate_group-IsSound :
      (rule : DetectionRule C) (since : ℕ) (g : String) (evs : List E) (c : Candidate E)
      → all (in_group g) evs ≡ true
      → evaluate_group view now rule since g evs ≡ some c
      → IsSound rule c
  unfolding evaluate_group recent_of sort_by_time
  evaluate_group-IsSound rule since g evs c grouped h =
      let recent = recent_of view now rule evs in
      let found = matched_of view now rule recent in
      let made : candidate_of view now rule g (sort_by_time (time_of view now) found) ≡ some c =
        ground arith in
      let (is_g, is_matched, filled) =
        candidate_of-some rule g (sort_by_time (time_of view now) found) c made in
      let own = all-matched_of (in_group g) rule recent (
        all-keep (in_group g) (is_recent rule) (sort_by_time (time_of view now) evs)
          (all-sort_by_time (in_group g) (time_of view now) evs grouped)) in
      let timely =
        all-matched_of (is_recent rule) rule recent
          (all-keep_test (is_recent rule) (sort_by_time (time_of view now) evs)) in
      let some_found : found ≢ [] = (λ k. filled (ap (sort_by_time (time_of view now)) k)) in
      record {
        grouped =
            subst (λ k. all (in_group k) c.matched ≡ true) (sym is_g)
              (subst (λ es. all (in_group g) es ≡ true) (sym is_matched)
                (all-sort_by_time (in_group g) (time_of view now) found own));
        timely =
            subst (λ es. all (is_recent rule) es ≡ true) (sym is_matched)
              (all-sort_by_time (is_recent rule) (time_of view now) found timely);
        enough =
            subst (λ n. (rule.is_sequence ≡ true) ⊎ (rule.threshold ≤ n))
              (sym (
                ap length is_matched
                ∙ length-sort_by_time (is_recent rule) (time_of view now) found))
              (matched_of-enough rule recent some_found);
      }

  abbrev pub AllSound : DetectionRule C → List (Candidate E) → Type 0
  AllSound rule [] = Unit
  AllSound rule (c ∷ cs) = IsSound rule c × AllSound rule cs

  evaluate_groups-AllSound :
      (rule : DetectionRule C) (since : ℕ) (groups : Dict (List E))
      → AllGrouped groups
      → AllSound rule (evaluate_groups view now rule since groups)
  unfolding evaluate_groups
  evaluate_groups-AllSound rule since [] h = tt
  evaluate_groups-AllSound rule since ((g, evs) ∷ groups) h =
      let rest = evaluate_groups-AllSound rule since groups h.1 in
      elim (Option-cases (evaluate_group view now rule since g evs)) [
        | inl nothing ↦
            subst
              (λ o.
                AllSound rule (cons_some view now o (evaluate_groups view now rule since groups)))
              (sym nothing) rest
        | inr (c, is_c) ↦
            subst
              (λ o.
                AllSound rule (cons_some view now o (evaluate_groups view now rule since groups)))
              (sym is_c) (evaluate_group-IsSound rule since g evs c h.0 is_c, rest)
      ]

  -- Every candidate that a rule reports consists of events of its group that lie within the rule's
  -- timeframe, and for a threshold rule of at least as many as the threshold.
  pub evaluate_rule-AllSound :
      (rule : DetectionRule C) (window_events : List E) (since : ℕ)
      → AllSound rule (evaluate_rule view now rule window_events since)
  unfolding evaluate_rule
  evaluate_rule-AllSound rule window_events since =
      evaluate_groups-AllSound rule since (groups_of view now window_events [])
        (AllGrouped-groups_of window_events [] tt)
