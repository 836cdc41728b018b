-- ===== src/Detection/Rules.antt =====
-- `evaluate_rule`: the candidate detections of one rule over the events of a window.
use shadow_trust_security.Prelude.{
  ◌*◌, ℕ, ◌-◌, ◌/◌, max, String, Bool, Option, none, some, List, [], ◌∷◌, ◌++◌, leb, ltb,
  if◌then◌else◌, length, keep, any, Dict, get, put,
}
use shadow_trust_security.Detection.Sequence.{Step, sort_by_time, match_sequence}

-- `timeframe` is in seconds.
pub record DetectionRule (C : Type 0) : Type 0 where
  pub id : String
  pub is_sequence : Bool
  pub timeframe : ℕ
  pub threshold : ℕ
  pub conditions : C
  pub steps : List (Step C)

-- What the engine reads of an event. The column `timestamp` is not null; the clock stands in for an
-- `ingested_at` that is.
pub record EventView (E C : Type 0) : Type 0 where
  pub timestamp : E → ℕ
  pub ingested_at : E → Option ℕ
  pub group_key : E → Option String
  pub event_matches : E → C → Bool

abbrev pub or_now : ℕ → Option ℕ → ℕ
or_now now none = now
or_now now (some t) = t

pub record Candidate (E : Type 0) : Type 0 where
  pub group : String
  pub matched : List E
  pub bucket : ℕ

abbrev pub events_of : {E : Type 0} → Option (List E) → List E
events_of none = []
events_of (some es) = es

-- Times are in microseconds; `_bucket` of the last timestamp.
unfoldable pub bucket_of : ℕ → ℕ → ℕ
bucket_of time timeframe = time / 1000000 / max timeframe 60

abbrev pub last_time : ℕ → List ℕ → ℕ
last_time t [] = t
last_time t (u ∷ us) = last_time u us

module _ {E C : Type 0} (view : EventView E C) (now : ℕ) where
  abbrev pub time_of : E → ℕ
  time_of e = view.timestamp e

  -- `groups.setdefault(g, []).append(e)`
  unfoldable pub add_to_group : E → Option String → Dict (List E) → Dict (List E)
  add_to_group e none groups = groups
  add_to_group e (some g) groups = put groups g (events_of (get groups g) ++ e ∷ [])

  unfoldable pub groups_of : List E → Dict (List E) → Dict (List E)
  unfolding add_to_group
  groups_of [] groups = groups
  groups_of (e ∷ es) groups = groups_of es (add_to_group e (view.group_key e) groups)

  -- The events of a group within the timeframe, in order.
  unfoldable pub recent_of : DetectionRule C → List E → List E
  recent_of rule evs =
      keep (λ e. leb (now - rule.timeframe * 1000000) (time_of e)) (sort_by_time time_of evs)

  unfoldable pub hits_of : DetectionRule C → List E → List E
  hits_of rule recent = keep (λ e. view.event_matches e rule.conditions) recent

  unfoldable pub matched_of : DetectionRule C → List E → List E
  unfolding hits_of
  matched_of rule recent =
      if rule.is_sequence
      then match_sequence time_of view.event_matches rule.steps recent
      else if leb rule.threshold (length (hits_of rule recent))
      then hits_of rule recent
      else []

  abbrev pub times : List E → List ℕ
  times [] = []
  times (e ∷ es) = time_of e ∷ times es

  abbrev pub candidate_of : DetectionRule C → String → List E → Option (Candidate E)
  candidate_of rule g [] = none
  candidate_of rule g (e ∷ es) = some (record {
    group = g;
    matched = e ∷ es;
    bucket = bucket_of (last_time (time_of e) (times es)) rule.timeframe;
  })

  unfoldable pub evaluate_group : DetectionRule C → ℕ → String → List E → Option (Candidate E)
  unfolding recent_of matched_of
  evaluate_group rule since g evs =
      let recent = recent_of rule evs in
      if any (λ e. ltb since (or_now now (view.ingested_at e))) recent
      then candidate_of rule g (sort_by_time time_of (matched_of rule recent))
      else none

  abbrev pub cons_some : Option (Candidate E) → List (Candidate E) → List (Candidate E)
  cons_some none cs = cs
  cons_some (some c) cs = c ∷ cs

  unfoldable pub evaluate_groups : DetectionRule C → ℕ → Dict (List E) → List (Candidate E)
  unfolding evaluate_group
  evaluate_groups rule since [] = []
  evaluate_groups rule since ((g, evs) ∷ groups) =
      cons_some (evaluate_group rule since g evs) (evaluate_groups rule since groups)

  unfoldable pub evaluate_rule : DetectionRule C → List E → ℕ → List (Candidate E)
  unfolding groups_of evaluate_groups
  evaluate_rule rule window_events since = evaluate_groups rule since (groups_of window_events [])
