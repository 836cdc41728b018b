-- ===== src/SessionEngine/Groups.antt =====
-- The sessions divide the events, and their levels are those of their events.
use shadow_trust_security.Prelude.{
  length-append, length, ℕ, suc, ◌+◌, ◌≤◌, max, ◌≡◌, refl, ap, ◌∙◌, String, if◌then◌else◌, Option,
  none, some, List, [], ◌∷◌, ◌++◌, arith, Bool-cases, inl, inr, leb, ltb, str_eq, append_assoc,
}
use shadow_trust_security.SessionEngine.{
  time_of, gap, is_open, RawEvent, AttackerSession, Source, risk_level, score_of, taken, opened,
  continue_session, sessions_of,
}

-- The events of the sessions, in order.
abbrev pub events_of : List (AttackerSession × List RawEvent) → List RawEvent
events_of [] = []
events_of ((s, es) ∷ groups) = es ++ events_of groups

-- The score that the level of a score stands for.
abbrev band : ℕ → ℕ
band n = if leb 80 n then 80 else if leb 50 n then 50 else if leb 20 n then 20 else 0

score_of-risk_level : (n : ℕ) → score_of (risk_level n) ≡ band n
score_of-risk_level n = elim (Bool-cases (leb 80 n)) [
  | inl a ↦ rw a refl
  | inr a ↦ elim (Bool-cases (leb 50 n)) [
    | inl b ↦ rw (a, b) refl
    | inr b ↦ elim (Bool-cases (leb 20 n)) [ inl c ↦ rw (a, b, c) refl | inr c ↦ rw (a, b, c) refl ]
  ]
]

band_monotone : (m n : ℕ) → m ≤ n → band m ≤ band n
band_monotone m n h = ground arith

band-score_of : (level : String) → band (score_of level) ≡ score_of level
band-score_of level = elim (Bool-cases (str_eq level "CRITICAL")) [
  | inl a ↦ rw a refl
  | inr a ↦ elim (Bool-cases (str_eq level "HIGH")) [
    | inl b ↦ rw (a, b) refl
    | inr b ↦ elim (Bool-cases (str_eq level "MEDIUM")) [
      | inl c ↦ rw (a, b, c) refl
      | inr c ↦ rw (a, b, c) refl
    ]
  ]
]

-- Every event's level is at most the session's.
pub data Covers (level : String) : List RawEvent → Type 0 where
  nothing : Covers level []
  event :
      (e : RawEvent) (es : List RawEvent)
      → score_of (risk_level e.risk_score) ≤ score_of level
      → Covers level es
      → Covers level (e ∷ es)

Covers-raise :
    (low high : String) (es : List RawEvent)
    → score_of low ≤ score_of high
    → Covers low es
    → Covers high es
Covers-raise low high _ h nothing = nothing
Covers-raise low high _ h (event e es own rest) =
    event e es (omega (arith, own, h)) (Covers-raise low high es h rest)

Covers-append :
    (level : String) (es : List RawEvent) (e : RawEvent)
    → score_of (risk_level e.risk_score) ≤ score_of level
    → Covers level es
    → Covers level (es ++ e ∷ [])
Covers-append level _ e h nothing = event e [] h nothing
Covers-append level _ e h (event d es own rest) =
    event d (es ++ e ∷ []) own (Covers-append level es e h rest)

-- Taking an event in raises the level to it, and never lowers it.
raised_to :
    (score : ℕ) (level : String)
    → (score_of (risk_level score) ≤ score_of (risk_level (max score (score_of level))))
      × (score_of level ≤ score_of (risk_level (max score (score_of level))))
raised_to score level =
    let top = max score (score_of level) in
    let left = band_monotone score top (omega arith) in
    let right = band_monotone (score_of level) top (omega arith) in
    (
      omega (arith, left, score_of-risk_level score, score_of-risk_level top),
      omega (arith, right, band-score_of level, score_of-risk_level top),
    )

-- Each session covers the levels of its events and counts them; the first one had counted some before.
pub data IsCounted : ℕ → List (AttackerSession × List RawEvent) → Type 0 where
  none_left : IsCounted 0 []
  group :
      (s : AttackerSession) (es : List RawEvent) (before : ℕ)
      (groups : List (AttackerSession × List RawEvent))
      → s.total_events ≡ before + length es
      → Covers s.risk_level es
      → IsCounted 0 groups
      → IsCounted before ((s, es) ∷ groups)

-- What the first session has counted: that of the last session, when it goes on.
abbrev pub counted_before : Option AttackerSession → List RawEvent → ℕ
counted_before last [] = 0
counted_before none (e ∷ es) = 0
counted_before (some s) (e ∷ es) = if is_open s e then s.total_events else 0

continue_session-events :
    (src : Source) (s : AttackerSession) (got es : List RawEvent)
    → events_of (continue_session src s got es) ≡ got ++ es
unfolding continue_session
continue_session-events src s got [] = refl
continue_session-events src s got (e ∷ es) =
    elim (Bool-cases (ltb (s.last_seen + gap) (time_of src e))) [
      | inl y ↦
          rw (continue_session, y)
            (ap (λ r. got ++ r)
              (continue_session-events src (taken src e (opened src e)) (e ∷ []) es))
      | inr n ↦
          rw (continue_session, n)
            (continue_session-events src (taken src e s) (got ++ e ∷ []) es
              ∙ append_assoc got (e ∷ []) es)
    ]

length-append_one : (es : List RawEvent) (e : RawEvent) → length (es ++ e ∷ []) ≡ suc (length es)
length-append_one es e = length-append es (e ∷ []) ∙ omega arith

continue_session-IsCounted :
    (src : Source) (s : AttackerSession) (before : ℕ) (got es : List RawEvent)
    → s.total_events ≡ before + length got
    → Covers s.risk_level got
    → IsCounted before (continue_session src s got es)
unfolding continue_session
continue_session-IsCounted src s before got [] total covers =
    group s got before [] total covers none_left
continue_session-IsCounted src s before got (e ∷ es) total covers =
    let (own, kept) = raised_to e.risk_score s.risk_level in
    let (own_new, kept_new) = raised_to e.risk_score (risk_level e.risk_score) in
    elim (Bool-cases (ltb (s.last_seen + gap) (time_of src e))) [
      | inl y ↦
          rw (continue_session, y)
            (group s got before _ total covers (
              continue_session-IsCounted src (taken src e (opened src e)) 0 (e ∷ []) es
                (omega arith) (event e [] own_new nothing)))
      | inr n ↦
          rw (continue_session, n)
            (continue_session-IsCounted src (taken src e s) before (got ++ e ∷ []) es
              (omega (arith, total, length-append_one got e))
              (Covers-append _ got e own (Covers-raise s.risk_level _ got kept covers)))
    ]

opened-IsCounted :
    (src : Source) (e : RawEvent) (es : List RawEvent)
    → IsCounted 0 (continue_session src (taken src e (opened src e)) (e ∷ []) es)
opened-IsCounted src e es =
    continue_session-IsCounted src (taken src e (opened src e)) 0 (e ∷ []) es (omega arith)
      (event e [] (raised_to e.risk_score (risk_level e.risk_score)).0 nothing)

-- The sessions of a source get all of its events, each in one session and in order. Each counts its
-- events, the first one on top of the last session's count if that goes on, and no event is of a
-- higher risk level than its session.
pub sessions_of-IsCounted :
    (src : Source) (last : Option AttackerSession) (es : List RawEvent)
    → (events_of (sessions_of src last es) ≡ es)
      × IsCounted (counted_before last es) (sessions_of src last es)
unfolding sessions_of
sessions_of-IsCounted src last [] = (refl, none_left)
sessions_of-IsCounted src none (e ∷ es) = (
  continue_session-events src (taken src e (opened src e)) (e ∷ []) es,
  opened-IsCounted src e es,
)
sessions_of-IsCounted src (some s) (e ∷ es) = elim (Bool-cases (is_open s e)) [
  | inl y ↦ (
    rw (sessions_of, y) (continue_session-events src s [] (e ∷ es)),
    rw (sessions_of, y)
        (continue_session-IsCounted src s s.total_events [] (e ∷ es) (omega arith) nothing),
  )
  | inr n ↦ (
    rw (sessions_of, n) (continue_session-events src (taken src e (opened src e)) (e ∷ []) es),
    rw (sessions_of, n) (opened-IsCounted src e es),
  )
]
