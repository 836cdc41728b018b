-- ===== src/AnalysisShell/Bounds.antt =====
-- How many shells there are.
use shadow_trust_security.Prelude.{
  if◌then◌else◌, ◌&&◌, not_leb→lt, ap₂, ℕ, suc, ◌+◌, ◌≤◌, ◌≡◌, refl, sym, ap, subst, String, Bool,
  true, false, Option, List, [], ◌∷◌, ◌++◌, arith, Bool-cases, Option-cases, inl, inr, str_eq,
  eq_iff,
}
use shadow_trust_security.AnalysisShell.{
  elem, is_live_stale, get_session, has_id, leb, reap_stale, new_session, is_word, start_session,
  recorded, started, stop_session, record_command, teardown, record_where, World, AnalysisSession,
  Settings, Launch, refused, launched, how_many, is_running, is_owned_live, torn, torn_where,
}

how_many-append :
    (p : AnalysisSession → Bool) (ss ts : List AnalysisSession)
    → how_many p (ss ++ ts) ≡ how_many p ss + how_many p ts
how_many-append p [] ts = omega arith
how_many-append p (s ∷ ss) ts =
    let rest = how_many-append p ss ts in
    elim (Bool-cases (p s)) [
      | inl y ↦ rw (how_many, y) (omega (arith, rest))
      | inr n ↦ rw (how_many, n) rest
    ]

-- A tear-down adds nothing to a count of rows that are not stopped.
how_many-torn_where :
    (p q : AnalysisSession → Bool) (now : ℕ) (ss : List AnalysisSession)
    → ((s : AnalysisSession) → q (torn now s) ≡ false)
    → how_many q (torn_where p now ss) ≤ how_many q ss
how_many-torn_where p q now [] h = omega arith
how_many-torn_where p q now (s ∷ ss) h =
    let rest : how_many q (torn_where p now ss) ≤ how_many q ss =
      how_many-torn_where p q now ss h in
    let gone : q (torn now s) ≡ false = h s in
    elim (Bool-cases (p s)) [
      | inl y ↦ elim (Bool-cases (q s)) [
        | inl z ↦ rw (torn_where, how_many, y, gone, z) (omega (arith, rest))
        | inr m ↦ rw (torn_where, how_many, y, gone, m) rest
      ]
      | inr n ↦ elim (Bool-cases (q s)) [
        | inl z ↦ rw (torn_where, how_many, n, z) (omega (arith, rest))
        | inr m ↦ rw (torn_where, how_many, n, m) rest
      ]
    ]

-- What is torn down is no longer counted.
pub how_many-torn_self :
    (p : AnalysisSession → Bool) (now : ℕ) (ss : List AnalysisSession)
    → ((s : AnalysisSession) → p (torn now s) ≡ false)
    → how_many p (torn_where p now ss) ≡ 0
how_many-torn_self p now [] h = refl
how_many-torn_self p now (s ∷ ss) h =
    let rest = how_many-torn_self p now ss h in
    let gone : p (torn now s) ≡ false = h s in
    elim (Bool-cases (p s)) [
      | inl y ↦ rw (torn_where, how_many, y, gone) rest
      | inr n ↦ rw (torn_where, how_many, n, n) rest
    ]

-- A change of what the count does not read.
how_many-record_where :
    (p q : AnalysisSession → Bool) (f : AnalysisSession → AnalysisSession)
    (ss : List AnalysisSession)
    → ((s : AnalysisSession) → q (f s) ≡ q s)
    → how_many q (record_where p f ss) ≡ how_many q ss
how_many-record_where p q f [] h = refl
how_many-record_where p q f (s ∷ ss) h =
    let rest = how_many-record_where p q f ss h in
    let same : q (if p s then f s else s) ≡ q s = elim (Bool-cases (p s)) [
      | inl y ↦ rw y (h s)
      | inr n ↦ rw n refl
    ] in
    ap₂ (λ (b : Bool) (n : ℕ). if b then suc n else n) same rest

-- Each owner has at most one shell, and no more than the maximum are running.
pub record IsBounded (env : Settings) (w : World) : Type 0 where
  pub single : (owner : String) → how_many (is_owned_live owner) w.sessions ≤ 1
  pub running : how_many is_running w.sessions ≤ env.max_sessions

-- One call, on whatever Docker answers.
pub data Call (env : Settings) (w : World) : World → Type 0 where
  start :
      (reachable : Bool) (launch : Launch) (owner session_id : String) (now : ℕ)
      → Call env w (start_session env reachable launch owner session_id now w).1
  stop :
      (reachable : Bool) (session_id : String) (owner : Option String) (now : ℕ)
      → Call env w (stop_session reachable session_id owner now w).1
  command :
      (s : AnalysisSession) (line : List ℕ) (incident : Option String) (now : ℕ)
      → Call env w (record_command env s line incident now w).1
  reap : (reachable : Bool) (now : ℕ) → Call env w (reap_stale env reachable now w).1

pub data History (env : Settings) (w : World) : World → Type 0 where
  begin : History env w w
  next : (u v : World) → History env w u → Call env u v → History env w v

IsBounded-teardown :
    (env : Settings) (p : AnalysisSession → Bool) (reachable : Bool) (now : ℕ) (w : World)
    → IsBounded env w
    → IsBounded env (teardown p reachable now w)
unfolding teardown
IsBounded-teardown env p reachable now w b = record {
  single = λ owner. omega (
    arith,
    b.single owner,
    how_many-torn_where p (is_owned_live owner) now w.sessions (λ s. refl),
  );
  running = omega (arith, b.running, how_many-torn_where p is_running now w.sessions (λ s. refl));
}

-- A new row counts for its owner if it runs.
owned_started :
    (env : Settings) (launch : Launch) (owner id other : String) (now : ℕ)
    → how_many (is_owned_live other) (started launch (new_session env owner id now) ∷ []) ≤ 1
owned_started env launch owner id other now =
    elim (Bool-cases (is_owned_live other (started launch (new_session env owner id now)))) [
      | inl y ↦ rw (how_many, y) (omega arith)
      | inr n ↦ rw (how_many, n) (omega arith)
    ]

owned_started_other :
    (env : Settings) (launch : Launch) (owner id other : String) (now : ℕ)
    → str_eq owner other ≡ false
    → how_many (is_owned_live other) (started launch (new_session env owner id now) ∷ []) ≡ 0
owned_started_other env refused owner id other now h = refl
owned_started_other env (launched name true) owner id other now h = rw (how_many, h) refl
owned_started_other env (launched name false) owner id other now h = refl

running_started :
    (env : Settings) (launch : Launch) (owner id : String) (now : ℕ)
    → how_many is_running (started launch (new_session env owner id now) ∷ []) ≤ 1
running_started env launch owner id now =
    elim (Bool-cases (is_running (started launch (new_session env owner id now)))) [
      | inl y ↦ rw (how_many, y) (omega arith)
      | inr n ↦ rw (how_many, n) (omega arith)
    ]

IsBounded-sessions :
    (env : Settings) (w w' : World) → w'.sessions ≡ w.sessions → IsBounded env w → IsBounded env w'
IsBounded-sessions env w w' same b = record {
  single = λ owner. subst (λ ss. how_many (is_owned_live owner) ss ≤ 1) (sym same) (b.single owner);
  running = subst (λ ss. how_many is_running ss ≤ env.max_sessions) (sym same) b.running;
}

IsBounded-start_session :
    (env : Settings) (reachable : Bool) (launch : Launch) (owner id : String) (now : ℕ) (w : World)
    → IsBounded env w
    → IsBounded env (start_session env reachable launch owner id now w).1
unfolding start_session teardown
IsBounded-start_session env reachable launch owner id now w b =
    let p = is_owned_live owner in
    let ss = torn_where p now w.sessions in
    let row = started launch (new_session env owner id now) in
    let torn_down = IsBounded-teardown env p reachable now w b in
    elim (Bool-cases (leb env.max_sessions (how_many is_running ss))) [
      | inl full ↦ rw (start_session, teardown, full) (IsBounded-sessions env w _ refl b)
      | inr room ↦ elim (Bool-cases reachable) [
        | inr down ↦ rw (start_session, teardown, room, down) (IsBounded-sessions env w _ refl b)
        | inl up ↦
            rw (start_session, teardown, room, up)
              (record {
                single = λ other. elim (Bool-cases (str_eq owner other)) [
                  | inl y ↦
                      let same : owner ≡ other = (eq_iff owner other).0 y in
                      let zero : how_many (is_owned_live other) ss ≡ 0 =
                        subst (λ o. how_many (is_owned_live o) ss ≡ 0) same
                          (how_many-torn_self p now w.sessions (λ s. refl)) in
                      omega (
                        arith,
                        zero,
                        owned_started env launch owner id other now,
                        how_many-append (is_owned_live other) ss (row ∷ []),
                      )
                  | inr n ↦ omega (
                    arith,
                    owned_started_other env launch owner id other now n,
                    how_many-append (is_owned_live other) ss (row ∷ []),
                    torn_down.single other,
                  )
                ];
                running =
                    let less = not_leb→lt env.max_sessions (how_many is_running ss) room in
                    omega (
                      arith,
                      less,
                      running_started env launch owner id now,
                      how_many-append is_running ss (row ∷ []),
                    );
              })
      ]
    ]

recorded-same :
    (now : ℕ) (incident : Option String) (s : AnalysisSession)
    → ((recorded now incident s).status ≡ s.status) × ((recorded now incident s).owner ≡ s.owner)
recorded-same now incident s = elim (Option-cases s.incident_id) [
  | inl e ↦ elim (Option-cases incident) [
    | inl f ↦ (rw (e, f) refl, rw (e, f) refl)
    | inr (id, f) ↦ (rw (e, f) refl, rw (e, f) refl)
  ]
  | inr (id, e) ↦ (rw e refl, rw e refl)
]

IsBounded-record_command :
    (env : Settings) (s : AnalysisSession) (line : List ℕ) (incident : Option String) (now : ℕ)
    (w : World)
    → IsBounded env w
    → IsBounded env (record_command env s line incident now w).1
unfolding record_command
IsBounded-record_command env s line incident now w b =
    elim (Bool-cases (is_word line ("" ∷ ":" ∷ "clear" ∷ "exit" ∷ []))) [
      | inl y ↦ rw (record_command, y) b
      | inr n ↦
          let p = has_id s.session_id in
          let f = recorded now incident in
          rw (record_command, n)
            (record {
              single = λ owner.
                  subst (λ k. k ≤ 1)
                    (sym (
                      how_many-record_where p (is_owned_live owner) f w.sessions (λ t.
                        ap₂ (λ a o. elem a ("starting" ∷ "running" ∷ []) && str_eq o owner)
                          (recorded-same now incident t).0 (recorded-same now incident t).1)))
                    (b.single owner);
              running =
                  subst (λ k. k ≤ env.max_sessions)
                    (sym (
                      how_many-record_where p is_running f w.sessions
                        (λ t. ap (λ a. str_eq a "running") (recorded-same now incident t).0)))
                    b.running;
            })
    ]

IsBounded-Call : (env : Settings) (u v : World) → Call env u v → IsBounded env u → IsBounded env v
unfolding stop_session reap_stale
IsBounded-Call env u v (start reachable launch owner id now) b =
    IsBounded-start_session env reachable launch owner id now u b
IsBounded-Call env u v (stop reachable id owner now) b =
    elim (Option-cases (get_session id owner u.sessions)) [
      | inl e ↦ rw (stop_session, e) b
      | inr (s, e) ↦ rw (stop_session, e) (IsBounded-teardown env (has_id id) reachable now u b)
    ]
IsBounded-Call env u v (command s line incident now) b =
    IsBounded-record_command env s line incident now u b
IsBounded-Call env u v (reap reachable now) b =
    IsBounded-teardown env (is_live_stale env now) reachable now u b

-- Over any history of starts, stops, commands and reaps that do not overlap, from rows with at most
-- one live shell for an owner and at most the maximum running, each owner has at most one live
-- shell, and no more than the maximum run.
pub History-IsBounded :
    (env : Settings) (w w' : World) → History env w w' → IsBounded env w → IsBounded env w'
History-IsBounded env w w' begin b = b
History-IsBounded env w w' (next u v h c) b =
    IsBounded-Call env u w' c (History-IsBounded env w u h b)
