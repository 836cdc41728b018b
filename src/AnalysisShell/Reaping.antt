-- ===== src/AnalysisShell/Reaping.antt =====
-- What a reap leaves.
use shadow_trust_security.Prelude.{
  subst, keep, elem, not, ◌&&◌, str_eq, true, false, ◌*◌, ◌≤◌, ◌≢◌, ◌⊎◌, ap, sym, ◌∙◌, eq_iff,
  eq_refl, false≢true, String, ℕ, ◌+◌, ◌≡◌, refl, Bool, List, [], ◌∷◌, arith, Bool-cases, inl, inr,
}
use shadow_trust_security.AnalysisShell.{
  ids_where, torn, teardown, is_stale, World, AnalysisSession, Settings, how_many, torn_where,
  is_live, is_live_stale, reap_stale,
}

-- The live rows are the ones that are torn down and the ones that stay live.
how_many-split :
    (env : Settings) (now : ℕ) (ss : List AnalysisSession)
    → how_many is_live ss
      ≡ how_many (is_live_stale env now) ss
        + how_many is_live (torn_where (is_live_stale env now) now ss)
how_many-split env now [] = refl
how_many-split env now (s ∷ ss) =
    let rest = how_many-split env now ss in
    elim (Bool-cases (is_live s)) [
      | inl y ↦ elim (Bool-cases (is_stale env now s)) [
        | inl z ↦ rw (how_many, torn_where, y, z) (omega (arith, rest))
        | inr m ↦ rw (how_many, torn_where, y, m, y) (omega (arith, rest))
      ]
      | inr n ↦ rw (how_many, torn_where, n, n) rest
    ]

-- A shell that is starting or running.
abbrev pub IsUp : AnalysisSession → Type 0
IsUp s = (s.status ≡ "starting") ⊎ (s.status ≡ "running")

-- A shell within its idle minutes, the deployment's where it has none, and within the hard maximum.
pub record IsFresh (env : Settings) (now : ℕ) (s : AnalysisSession) : Type 0 where
  pub idle_own : s.ttl_minutes ≢ 0 → now ≤ s.last_activity_at + s.ttl_minutes * 60000000
  pub idle_default : s.ttl_minutes ≡ 0 → now ≤ s.last_activity_at + env.ttl_min * 60000000
  pub age : now ≤ s.started_at + env.hard_max_min * 60000000

is_stale-IsFresh :
    (env : Settings) (now : ℕ) (s : AnalysisSession)
    → is_stale env now s ≡ false
    → IsFresh env now s
is_stale-IsFresh env now s h = record {
  idle_own = λ own. ground arith;
  idle_default = λ none_own. ground arith;
  age = ground arith;
}

is_live-IsUp : (s : AnalysisSession) → IsUp s → is_live s ≡ true
is_live-IsUp s (inl e) = rw e refl
is_live-IsUp s (inr e) = rw e refl

-- Every shell that is up is fresh.
abbrev pub AllFresh : Settings → ℕ → List AnalysisSession → Type 0
AllFresh env now [] = Unit
AllFresh env now (s ∷ ss) = (IsUp s → IsFresh env now s) × AllFresh env now ss

torn_where-AllFresh :
    (env : Settings) (now : ℕ) (ss : List AnalysisSession)
    → AllFresh env now (torn_where (is_live_stale env now) now ss)
torn_where-AllFresh env now [] = tt
torn_where-AllFresh env now (s ∷ ss) = elim (Bool-cases (is_live_stale env now s)) [
  | inl y ↦ rw y (
    λ up. let live : is_live (torn now s) ≡ true = is_live-IsUp (torn now s) up in absurd (cc),
    torn_where-AllFresh env now ss,
  )
  | inr n ↦ rw n (
    λ up. is_stale-IsFresh env now s (live_left _ _ n (is_live-IsUp s up)),
    torn_where-AllFresh env now ss,
  )
]
  where
    live_left : (a b : Bool) → (a && b) ≡ false → a ≡ true → b ≡ false
    live_left a b h e = ground arith

-- Of the shells that were up, only fresh ones still have a container.
abbrev pub OnlyFreshRun : Settings → ℕ → List AnalysisSession → List String → Type 0
OnlyFreshRun env now [] containers = Unit
OnlyFreshRun env now (s ∷ ss) containers =
    (IsUp s → elem s.session_id containers ≡ true → IsFresh env now s)
    × OnlyFreshRun env now ss containers

elem-keep :
    (i : String) (gone cs : List String)
    → elem i (keep (λ c. not (elem c gone)) cs) ≡ true
    → elem i gone ≡ false
elem-keep i gone [] h = absurd (false≢true h)
elem-keep i gone (c ∷ cs) h = elim (Bool-cases (elem c gone)) [
  | inl y ↦
      let at : keep (λ c. not (elem c gone)) (c ∷ cs) ≡ keep (λ c. not (elem c gone)) cs =
        rw (keep, y) refl in
      elem-keep i gone cs (ap (elem i) (sym at) ∙ h)
  | inr n ↦
      let at : keep (λ c. not (elem c gone)) (c ∷ cs) ≡ c ∷ keep (λ c. not (elem c gone)) cs =
        rw (keep, n) refl in
      let there : elem i (c ∷ keep (λ c. not (elem c gone)) cs) ≡ true = ap (elem i) (sym at) ∙ h in
      elim (Bool-cases (str_eq c i)) [
        | inl same ↦ subst (λ k. elem k gone ≡ false) ((eq_iff c i).0 same) n
        | inr other ↦ elem-keep i gone cs (ground arith)
      ]
]

-- `gone` holds the ids of the stale shells, and perhaps more.
keep-OnlyFreshRun :
    (env : Settings) (now : ℕ) (gone containers : List String) (ss : List AnalysisSession)
    → ((i : String) → elem i (ids_where (is_live_stale env now) ss) ≡ true → elem i gone ≡ true)
    → OnlyFreshRun env now ss (keep (λ c. not (elem c gone)) containers)
keep-OnlyFreshRun env now gone containers [] h = tt
keep-OnlyFreshRun env now gone containers (s ∷ ss) h = (
  λ up there. elim (Bool-cases (is_stale env now s)) [
    | inr fresh ↦ is_stale-IsFresh env now s fresh
    | inl stale ↦
        let listed : elem s.session_id (ids_where (is_live_stale env now) (s ∷ ss)) ≡ true =
          rw (is_live-IsUp s up, stale, eq_refl s.session_id) refl in
        absurd
          (false≢true (sym (elem-keep s.session_id gone containers there) ∙ h s.session_id listed))
  ],
  keep-OnlyFreshRun env now gone containers ss (λ i m. h i (later i m)),
)
  where
    later :
        (i : String)
        → elem i (ids_where (is_live_stale env now) ss) ≡ true
        → elem i (ids_where (is_live_stale env now) (s ∷ ss)) ≡ true
    later i m = elim (Bool-cases (is_live_stale env now s)) [
      | inl y ↦ rw y (ground arith)
      | inr n ↦ rw n m
    ]

-- After a reap every shell that is starting or running was active within its idle minutes (the
-- deployment's, where it has 0) and started within the hard maximum. If Docker is reached, no
-- container is left of a shell that was starting or running and was not so. The numbers that the
-- reap reports are those of the live shells that it stopped and of those that are left.
pub reap_stale-how_many :
    (env : Settings) (reachable : Bool) (now : ℕ) (w : World)
    → let ((reaped, active), w') = reap_stale env reachable now w in
      AllFresh env now w'.sessions
      × (reachable ≡ true → OnlyFreshRun env now w.sessions w'.containers)
      × (how_many is_live w'.sessions ≡ active)
      × (how_many is_live w.sessions ≡ reaped + active)
unfolding reap_stale teardown
reap_stale-how_many env reachable now w =
    let split = how_many-split env now w.sessions in
    (
      torn_where-AllFresh env now w.sessions,
      λ up. rw up (
          keep-OnlyFreshRun env now (ids_where (is_live_stale env now) w.sessions) w.containers
            w.sessions (λ i m. m)),
      omega (arith, split),
      omega (arith, split),
    )
