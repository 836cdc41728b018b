-- ===== src/Incidents/Patching.antt =====
-- What a patch may change, and that it is audited.
use shadow_trust_security.Prelude.{
  false≢true, ℕ, ◌≡◌, ◌≢◌, ◌⊎◌, refl, sym, ◌∙◌, subst, String, true, Option, none, some, List, [],
  ◌∷◌, ◌++◌, ◌&&◌, arith, Bool-cases, Option-cases, inl, inr, str_eq, eq_refl, elem, codes,
  same_codes, upper,
}
use shadow_trust_security.Accounts.{Response, ok, http, raised}
use shadow_trust_security.Detection.Incidents.{update_incident, Incident, Technique}
use shadow_trust_security.Incidents.{
  audits, techniques_among, same_analyst, patch_techniques, patch_severity, patch_title,
  patch_analyst, patch_status, find_case, Desk, Draft, IncidentPatch, patch_incident, apply_patch,
  upper_among, statuses, severities,
}
use shadow_trust_security.Accounts.Authority.{Response-cases}

elem-append : (k : String) (xs ys : List String) → elem k xs ≡ true → elem k (xs ++ ys) ≡ true
elem-append k [] ys h = absurd (false≢true h)
elem-append k (x ∷ xs) ys h = elim (Bool-cases (str_eq x k)) [
  | inl y ↦ rw (elem, y) refl
  | inr n ↦
      let at : elem k (x ∷ xs) ≡ elem k xs = rw n refl in
      rw (elem, n) (elem-append k xs ys (sym at ∙ h))
]

elem-append_last : (k : String) (xs : List String) → elem k (xs ++ k ∷ []) ≡ true
elem-append_last k [] = rw (eq_refl k) refl
elem-append_last k (x ∷ xs) = elim (Bool-cases (str_eq x k)) [
  | inl y ↦ rw (elem, y) refl
  | inr n ↦ rw (elem, n) (elem-append_last k xs)
]

elem-upper_among :
    (other : ℕ → List ℕ) (text w : String) (words : List String)
    → upper_among other text words ≡ some w
    → elem w words ≡ true
elem-upper_among other text w [] h = absurd (ground arith)
elem-upper_among other text w (v ∷ words) h =
    elim (Bool-cases (same_codes (upper other (codes text)) (codes v))) [
      | inl y ↦
          let at : upper_among other text (v ∷ words) ≡ some v = rw y refl in
          let same : v ≡ w = cc in rw same (rw (elem, eq_refl w) refl)
      | inr n ↦
          let at : upper_among other text (v ∷ words) ≡ upper_among other text words = rw n refl in
          let rest = elem-upper_among other text w words (sym at ∙ h) in
          elim (Bool-cases (str_eq v w)) [ inl z ↦ rw (elem, z) refl | inr m ↦ rw (elem, m) rest ]
    ]

-- A field is as it was, or its action is among the actions and its value among the words.
abbrev pub Audited : String → String → String → List String → List String → Type 0
Audited before after action actions words =
    (after ≡ before) ⊎ ((elem action actions ≡ true) × (elem after words ≡ true))

-- A draft of an incident: status, severity and analyst change only with an audited action, to values
-- that there are.
pub record IsAudited (i : Incident) (draft : Draft) : Type 0 where
  pub same_id : draft.0.id ≡ i.id
  pub status : Audited i.status draft.0.status "STATUS_CHANGE" draft.1 statuses
  pub severity : Audited i.severity draft.0.severity "STATUS_CHANGE" draft.1 severities
  pub analyst : (draft.0.assigned_analyst ≡ i.assigned_analyst) ⊎ (elem "ASSIGN" draft.1 ≡ true)

Audited-append :
    (before after action : String) (actions more words : List String)
    → Audited before after action actions words
    → Audited before after action (actions ++ more) words
Audited-append before after action actions more words (inl same) = inl same
Audited-append before after action actions more words (inr (listed, among)) =
    inr (elem-append action actions more listed, among)

analyst-append :
    {P : Type 0} (actions more : List String)
    → P ⊎ (elem "ASSIGN" actions ≡ true)
    → P ⊎ (elem "ASSIGN" (actions ++ more) ≡ true)
analyst-append actions more (inl same) = inl same
analyst-append actions more (inr listed) = inr (elem-append "ASSIGN" actions more listed)

module _ (other : ℕ → List ℕ) (i : Incident) where
  status-IsAudited :
      (text : Option String) (draft draft' : Draft)
      → IsAudited i draft
      → patch_status other text draft ≡ ok draft'
      → IsAudited i draft'
  unfolding patch_status
  status-IsAudited none draft draft' a h =
      let same : draft ≡ draft' = cc in subst (IsAudited i) same a
  status-IsAudited (some text) (j, actions) draft' a h =
      elim (Option-cases (upper_among other text statuses)) [
        | inl e ↦
            let at : patch_status other (some text) (j, actions)
                ≡ http 400 "status must be one of the statuses" =
              rw (patch_status, e) refl in
            absurd (cc)
        | inr (new, e) ↦ elim (Bool-cases (str_eq new j.status)) [
          | inl y ↦
              let at : patch_status other (some text) (j, actions) ≡ ok (j, actions) =
                rw (patch_status, e, y) refl in
              let same : (j, actions) ≡ draft' = cc in subst (IsAudited i) same a
          | inr n ↦
              let made : Draft = (record j { status = new }, actions ++ "STATUS_CHANGE" ∷ []) in
              let at : patch_status other (some text) (j, actions) ≡ ok made =
                rw (patch_status, e, n) refl in
              let same : made ≡ draft' = cc in
              subst (IsAudited i) same (record {
                same_id = a.same_id;
                status = inr (
                  elem-append_last "STATUS_CHANGE" actions,
                  elem-upper_among other text new statuses e,
                );
                severity = Audited-append _ _ _ actions _ severities a.severity;
                analyst = analyst-append actions _ a.analyst;
              })
        ]
      ]

  severity-IsAudited :
      (text : Option String) (draft draft' : Draft)
      → IsAudited i draft
      → patch_severity other text draft ≡ ok draft'
      → IsAudited i draft'
  unfolding patch_severity
  severity-IsAudited none draft draft' a h =
      let same : draft ≡ draft' = cc in subst (IsAudited i) same a
  severity-IsAudited (some text) (j, actions) draft' a h =
      elim (Option-cases (upper_among other text severities)) [
        | inl e ↦
            let at : patch_severity other (some text) (j, actions) ≡ http 400 "invalid severity" =
              rw (patch_severity, e) refl in
            absurd (cc)
        | inr (new, e) ↦ elim (Bool-cases (str_eq new j.severity)) [
          | inl y ↦
              let at : patch_severity other (some text) (j, actions) ≡ ok (j, actions) =
                rw (patch_severity, e, y) refl in
              let same : (j, actions) ≡ draft' = cc in subst (IsAudited i) same a
          | inr n ↦
              let made : Draft = (record j { severity = new }, actions ++ "STATUS_CHANGE" ∷ []) in
              let at : patch_severity other (some text) (j, actions) ≡ ok made =
                rw (patch_severity, e, n) refl in
              let same : made ≡ draft' = cc in
              subst (IsAudited i) same (record {
                same_id = a.same_id;
                status = Audited-append _ _ _ actions _ statuses a.status;
                severity = inr (
                  elem-append_last "STATUS_CHANGE" actions,
                  elem-upper_among other text new severities e,
                );
                analyst = analyst-append actions _ a.analyst;
              })
        ]
      ]

  analyst-IsAudited :
      (text : Option String) (draft : Draft)
      → IsAudited i draft
      → IsAudited i (patch_analyst text draft)
  unfolding patch_analyst
  analyst-IsAudited none draft a = a
  analyst-IsAudited (some text) (j, actions) a =
      elim (Bool-cases (same_analyst text j.assigned_analyst)) [
        | inl y ↦ rw (patch_analyst, y) a
        | inr n ↦
            rw (patch_analyst, n)
              (record {
                same_id = a.same_id;
                status = Audited-append _ _ _ actions _ statuses a.status;
                severity = Audited-append _ _ _ actions _ severities a.severity;
                analyst = inr (elem-append_last "ASSIGN" actions);
              })
      ]

  title-IsAudited :
      (text : Option String) (draft : Draft)
      → IsAudited i draft
      → IsAudited i (patch_title text draft)
  unfolding patch_title
  title-IsAudited none draft a = a
  title-IsAudited (some text) (j, actions) a = elim (Bool-cases (str_eq text "")) [
    | inl y ↦ rw (patch_title, y) a
    | inr n ↦
        rw (patch_title, n)
          (record {
            same_id = a.same_id;
            status = a.status;
            severity = a.severity;
            analyst = a.analyst;
          })
  ]

  techniques-IsAudited :
      (new : Option (Option (List Technique))) (draft draft' : Draft)
      → IsAudited i draft
      → patch_techniques new draft ≡ ok draft'
      → IsAudited i draft'
  unfolding patch_techniques
  techniques-IsAudited none draft draft' a h =
      let same : draft ≡ draft' = cc in subst (IsAudited i) same a
  techniques-IsAudited (some none) draft draft' a h =
      let at : patch_techniques (some none) draft ≡ http 400 "invalid ATT&CK technique id" = refl in
      absurd (cc)
  techniques-IsAudited (some (some new)) (j, actions) draft' a h =
      elim (Bool-cases
        (techniques_among new j.attack_techniques && techniques_among j.attack_techniques new)) [
          | inl y ↦
              let at : patch_techniques (some (some new)) (j, actions) ≡ ok (j, actions) =
                rw (patch_techniques, y) refl in
              let same : (j, actions) ≡ draft' = cc in subst (IsAudited i) same a
          | inr n ↦
              let made : Draft =
                (record j { attack_techniques = new }, actions ++ "TECHNIQUES" ∷ []) in
              let at : patch_techniques (some (some new)) (j, actions) ≡ ok made =
                rw (patch_techniques, n) refl in
              let same : made ≡ draft' = cc in
              subst (IsAudited i) same (record {
                same_id = a.same_id;
                status = Audited-append _ _ _ actions _ statuses a.status;
                severity = Audited-append _ _ _ actions _ severities a.severity;
                analyst = analyst-append actions _ a.analyst;
              })
        ]

  apply_patch-IsAudited :
      (patch : IncidentPatch) (draft : Draft)
      → apply_patch other patch i ≡ ok draft
      → IsAudited i draft
  unfolding apply_patch
  apply_patch-IsAudited patch draft h =
      let start : IsAudited i (i, []) = record {
        same_id = refl;
        status = inl refl;
        severity = inl refl;
        analyst = inl refl;
      } in
      elim (Response-cases (patch_status other patch.status (i, []))) [
        | inr (inl (s, t, e)) ↦
            let at : apply_patch other patch i ≡ http s t = rw (apply_patch, e) refl in absurd (cc)
        | inr (inr e) ↦
            let at : apply_patch other patch i ≡ raised = rw (apply_patch, e) refl in absurd (cc)
        | inl (d, e) ↦
            let titled = patch_title patch.title (patch_analyst patch.assigned_analyst d) in
            let titled_a : IsAudited i titled =
              title-IsAudited patch.title (patch_analyst patch.assigned_analyst d) (
                analyst-IsAudited patch.assigned_analyst d
                  (status-IsAudited patch.status (i, []) d start e)) in
            elim (Response-cases (patch_severity other patch.severity titled)) [
              | inr (inl (s, t, e')) ↦
                  let at : apply_patch other patch i ≡ http s t = rw (apply_patch, e, e') refl in
                  absurd (cc)
              | inr (inr e') ↦
                  let at : apply_patch other patch i ≡ raised = rw (apply_patch, e, e') refl in
                  absurd (cc)
              | inl (d', e') ↦
                  let at : apply_patch other patch i ≡ patch_techniques patch.attack_techniques d' =
                    rw (apply_patch, e, e') refl in
                  techniques-IsAudited patch.attack_techniques d' draft
                    (severity-IsAudited patch.severity titled d' titled_a e') (sym at ∙ h)
            ]
      ]

-- What a patch comes to.
pub data Patched (other : ℕ → List ℕ) (ref actor : String) (patch : IncidentPatch) (d : Desk)
    : Type 0 where
  refused :
      (r : Response Incident)
      → ((j : Incident) → r ≢ ok j)
      → patch_incident other ref actor patch d ≡ (r, d)
      → Patched other ref actor patch d
  changed :
      (i : Incident) (draft : Draft)
      → find_case ref d.state.incidents ≡ some i
      → IsAudited i draft
      → patch_incident other ref actor patch d ≡ (
        ok draft.0,
        record {
          state = record d.state {
            incidents = update_incident i.id (λ j. draft.0) d.state.incidents;
          };
          activities = d.activities ++ audits i.id actor draft.1;
        },
      )
      → Patched other ref actor patch d

-- A patch is refused and changes nothing, or it replaces the incident that the reference finds and
-- appends its actions to the audit trail: the status and the severity are then as they were, or
-- among the known ones with a STATUS_CHANGE, and the analyst is as it was, or there is an ASSIGN.
pub patch_incident-Patched :
    (other : ℕ → List ℕ) (ref actor : String) (patch : IncidentPatch) (d : Desk)
    → Patched other ref actor patch d
unfolding patch_incident
patch_incident-Patched other ref actor patch d =
    elim (Option-cases (find_case ref d.state.incidents)) [
      | inl e ↦
          refused (http 404 "incident not found") (λ j h. absurd (cc)) (rw (patch_incident, e) refl)
      | inr (i, e) ↦ elim (Response-cases (apply_patch other patch i)) [
        | inr (inl (s, t, e')) ↦
            refused (http s t) (λ j h. absurd (cc)) (rw (patch_incident, e, e') refl)
        | inr (inr e') ↦ refused raised (λ j h. absurd (cc)) (rw (patch_incident, e, e') refl)
        | inl (draft, e') ↦
            changed i draft e (apply_patch-IsAudited other i patch draft e')
              (rw (patch_incident, e, e') refl)
      ]
    ]
