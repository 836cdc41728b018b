-- ===== src/Telemetry/Collector/Tables.antt =====
-- The tables under INSERT IGNORE.
use mathlib.Core.Path.{subst}
use shadow_trust_security.Prelude.{
  eq_iff, false≢true, ℕ, zero, suc, ◌*◌, ◌≤◌, ◌≡◌, refl, sym, ap, ◌∙◌, String, true, false, ◌||◌,
  List, [], ◌∷◌, ◌++◌, arith, if◌then◌else◌, str_eq, elem, length, take, drop, take-append-drop,
  length-drop, Bool-cases, inl, inr,
}
use shadow_trust_security.Telemetry.Collector.{
  ids, insert_ignore, insert_chunks, persist_chunk_rows,
}

module _ {E : Type 0} (event_id : E → String) where
  elem-append :
      (i : String) (xs : List E) (e : E)
      → elem i (ids event_id (xs ++ e ∷ [])) ≡ (elem i (ids event_id xs) || str_eq (event_id e) i)
  elem-append i [] e = ground arith
  elem-append i (x ∷ xs) e = ground (arith, elem-append i xs e)

  -- No row is lost.
  pub insert_ignore-keeps :
      (i : String) (table rows : List E)
      → elem i (ids event_id table) ≡ true
      → elem i (ids event_id (insert_ignore event_id table rows)) ≡ true
  unfolding insert_ignore
  insert_ignore-keeps i table [] h = h
  insert_ignore-keeps i table (e ∷ rows) h =
      elim (Bool-cases (elem (event_id e) (ids event_id table))) [
        | inl there ↦ rw there (insert_ignore-keeps i table rows h)
        | inr fresh ↦
            rw fresh
              (insert_ignore-keeps i (table ++ e ∷ []) rows (ground (arith, elem-append i table e)))
      ]

  -- The table after one row.
  abbrev with_row : List E → E → List E
  with_row table e = if elem (event_id e) (ids event_id table) then table else table ++ e ∷ []

  elem-with_row :
      (i : String) (table : List E) (e : E)
      → str_eq (event_id e) i ≡ true
      → elem i (ids event_id (with_row table e)) ≡ true
  elem-with_row i table e same = elim (Bool-cases (elem (event_id e) (ids event_id table))) [
    | inl there ↦
        rw there (subst (λ k. elem k (ids event_id table) ≡ true) ((eq_iff _ _).0 same) there)
    | inr fresh ↦ rw fresh (ground (arith, elem-append i table e))
  ]

  -- Every event of the statement has a row afterwards.
  pub insert_ignore-stores :
      (i : String) (table rows : List E)
      → elem i (ids event_id rows) ≡ true
      → elem i (ids event_id (insert_ignore event_id table rows)) ≡ true
  unfolding insert_ignore
  insert_ignore-stores i table [] h = absurd (false≢true h)
  insert_ignore-stores i table (e ∷ rows) h = elim (Bool-cases (elem i (ids event_id rows))) [
    | inl among ↦ insert_ignore-stores i (with_row table e) rows among
    | inr first ↦
        insert_ignore-keeps i (with_row table e) rows (elem-with_row i table e (ground arith))
  ]

  pub insert_ignore-append :
      (table xs ys : List E)
      → insert_ignore event_id table (xs ++ ys)
        ≡ insert_ignore event_id (insert_ignore event_id table xs) ys
  unfolding insert_ignore
  insert_ignore-append table [] ys = refl
  insert_ignore-append table (x ∷ xs) ys = insert_ignore-append (with_row table x) xs ys

  -- The chunks of a batch insert what one statement would.
  pub insert_chunks-insert_ignore :
      (n : ℕ) (table rows : List E)
      → length rows ≤ n * persist_chunk_rows
      → insert_chunks event_id n table rows ≡ insert_ignore event_id table rows
  unfolding insert_chunks insert_ignore
  insert_chunks-insert_ignore zero table [] h = refl
  insert_chunks-insert_ignore zero table (e ∷ rows) h = absurd (omega arith)
  insert_chunks-insert_ignore (suc n) table rows h =
      insert_chunks-insert_ignore n (insert_ignore event_id table (take persist_chunk_rows rows))
        (drop persist_chunk_rows rows) (omega (arith, length-drop persist_chunk_rows rows))
      ∙ (sym (
            insert_ignore-append table (take persist_chunk_rows rows)
              (drop persist_chunk_rows rows))
          ∙ ap (insert_ignore event_id table) (take-append-drop persist_chunk_rows rows))

  -- The ids of a table are distinct.
  abbrev pub IsKeyed : List E → Type 0
  IsKeyed [] = Unit
  IsKeyed (e ∷ es) = (elem (event_id e) (ids event_id es) ≡ false) × IsKeyed es

  swap : (s t : String) → str_eq s t ≡ str_eq t s
  swap s t = elim (Bool-cases (str_eq s t)) [
    | inl y ↦ (let e : s ≡ t = (eq_iff s t).0 y in rw (e) refl)
    | inr n ↦ elim (Bool-cases (str_eq t s)) [
      | inl y ↦ (let e : t ≡ s = (eq_iff t s).0 y in rw (e) refl)
      | inr m ↦ n ∙ sym m
    ]
  ]

  IsKeyed-append :
      (table : List E) (e : E)
      → IsKeyed table
      → elem (event_id e) (ids event_id table) ≡ false
      → IsKeyed (table ++ e ∷ [])
  IsKeyed-append [] e keyed fresh = (refl, tt)
  IsKeyed-append (t ∷ table) e keyed fresh = (
    ground (arith, elem-append (event_id t) table e, swap (event_id e) (event_id t)),
    IsKeyed-append table e keyed.1 (ground arith),
  )

  pub insert_ignore-IsKeyed :
      (table rows : List E) → IsKeyed table → IsKeyed (insert_ignore event_id table rows)
  unfolding insert_ignore
  insert_ignore-IsKeyed table [] keyed = keyed
  insert_ignore-IsKeyed table (e ∷ rows) keyed =
      elim (Bool-cases (elem (event_id e) (ids event_id table))) [
        | inl there ↦ rw there (insert_ignore-IsKeyed table rows keyed)
        | inr fresh ↦
            rw fresh
              (insert_ignore-IsKeyed (table ++ e ∷ []) rows (IsKeyed-append table e keyed fresh))
      ]
