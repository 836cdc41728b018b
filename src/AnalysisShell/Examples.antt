-- ===== src/AnalysisShell/Examples.antt =====
-- The shells of two analysts.
use shadow_trust_security.Prelude.{◌+◌, ◌≡◌, refl, true, false, none, [], ◌∷◌, arith}
use shadow_trust_security.AnalysisShell.{
  teardown, World, Settings, refused, launched, how_many, is_live, reap_stale, start_session,
}
use shadow_trust_security.AnalysisShell.Bounds.{
  History-IsBounded, IsBounded, begin, next, start, reap,
}
use shadow_trust_security.AnalysisShell.Reaping.{OnlyFreshRun, AllFresh, reap_stale-how_many}

abbrev env : Settings
env = record {
  ttl_min = 20;
  hard_max_min = 60;
  max_sessions = 1;
  source_tag = λ owner. owner;
  digest = λ session seq command. session;
  py = record {
    repr = λ v. [];
    int_text = λ cs. none;
    lower_other = λ c. c ∷ [];
    digit_other = λ c. false;
  };
}

abbrev empty : World
empty = record { sessions = []; containers = []; events = [] }

empty-IsBounded : IsBounded env empty
empty-IsBounded = record { single = λ owner. omega arith; running = omega arith }

abbrev ann_started : World
ann_started = (start_session env true (launched "c1" true) "ann" "s1" 0 empty).1

-- The maximum is reached, so the second analyst is refused.
ben_refused : (start_session env true (launched "c2" true) "ben" "s2" 0 ann_started).0 ≡ none
unfolding start_session teardown
ben_refused = refl

-- Her own second shell replaces the first.
ann_again :
    (start_session env true (launched "c3" true) "ann" "s3" 5 ann_started).1.containers ≡ "s3" ∷ []
unfolding start_session teardown
ann_again = refl

-- A refusal for want of Docker leaves the row of the old shell live.
ann_unreachable :
    how_many is_live (start_session env false refused "ann" "s3" 5 ann_started).1.sessions ≡ 1
unfolding start_session teardown
ann_unreachable = refl

-- A container that is not seen running in time keeps running under a row in error.
ann_slow :
    let w = (start_session env true (launched "c1" false) "ann" "s1" 0 empty).1 in
    (w.containers ≡ "s1" ∷ []) × (how_many is_live w.sessions ≡ 0)
unfolding start_session teardown
ann_slow = (refl, refl)

History-IsBounded_example :
    IsBounded env
      (reap_stale env true 99
        (start_session env true (launched "c3" true) "ann" "s3" 5 ann_started).1).1
History-IsBounded_example =
    History-IsBounded env empty _
      (next _ _
        (next _ _ (next _ _ begin (start true (launched "c1" true) "ann" "s1" 0))
          (start true (launched "c3" true) "ann" "s3" 5))
        (reap true 99))
      empty-IsBounded

reap_stale-how_many_example :
    let ((reaped, active), w') = reap_stale env true 99 ann_started in
    AllFresh env 99 w'.sessions
    × (true ≡ true → OnlyFreshRun env 99 ann_started.sessions w'.containers)
    × (how_many is_live w'.sessions ≡ active)
    × (how_many is_live ann_started.sessions ≡ reaped + active)
reap_stale-how_many_example = reap_stale-how_many env true 99 ann_started
