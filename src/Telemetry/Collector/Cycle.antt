-- ===== src/Telemetry/Collector/Cycle.antt =====
-- Cycles of the collector.
use mathlib.Core.Path.{subst}
use shadow_trust_security.Prelude.{
  eq_iff, false≢true, ℕ, ◌*◌, ◌≤◌, ◌≡◌, refl, sym, ◌∙◌, String, true, false, Option, List, [], ◌∷◌,
  arith, str_eq, eq_refl, elem, Dict, length, map, Bool-cases, inl, inr,
}
use shadow_trust_security.EventBus.{publish_many}
use shadow_trust_security.Telemetry.LocalSource.{FileCursor, fetch_with_cursors}
use shadow_trust_security.Telemetry.Collector.{
  ids, insert_ignore, chunk_count, persist, Store, unseen, Collector, World, run_once, load_cursors,
}
use shadow_trust_security.Telemetry.Collector.Batch.{AllTaken, AllFrom}
use shadow_trust_security.Telemetry.Collector.Tables.{
  IsKeyed, insert_ignore-stores, insert_chunks-insert_ignore,
}

module _ {E : Type 0} (event_id : E → String) where
  pub persist-insert_ignore :
      (store : Store E) (events : List E)
      → ((persist event_id store events).normalized_events
          ≡ insert_ignore event_id store.normalized_events events)
        × ((persist event_id store events).raw_events
            ≡ insert_ignore event_id store.raw_events events)
  unfolding persist
  persist-insert_ignore store events =
      let enough : length events ≤ chunk_count event_id events * 500 = omega arith in
      (
        insert_chunks-insert_ignore event_id (chunk_count event_id events) store.normalized_events
            events enough,
        insert_chunks-insert_ignore event_id (chunk_count event_id events) store.raw_events events
            enough,
      )

  unseen-seen :
      (i : String) (seen : List String) (es : List E)
      → elem i seen ≡ true
      → elem i (ids event_id (unseen event_id seen es)) ≡ false
  unfolding unseen
  unseen-seen i seen [] h = refl
  unseen-seen i seen (e ∷ es) h = elim (Bool-cases (elem (event_id e) seen)) [
    | inl old ↦ rw old (unseen-seen i seen es h)
    | inr new ↦ elim (Bool-cases (str_eq (event_id e) i)) [
      | inl same ↦ absurd (
          let at : event_id e ≡ i = (eq_iff _ _).0 same in
          let w : elem (event_id e) seen ≡ true = subst (λ k. elem k seen ≡ true) (sym at) h in
          false≢true (sym new ∙ w))
      | inr other ↦
          let later = unseen-seen i (event_id e ∷ seen) es (rw other h) in
          rw new (ground (arith, later))
    ]
  ]

  pub unseen-IsKeyed :
      (seen : List String) (es : List E) → IsKeyed event_id (unseen event_id seen es)
  unfolding unseen
  unseen-IsKeyed seen [] = tt
  unseen-IsKeyed seen (e ∷ es) = elim (Bool-cases (elem (event_id e) seen)) [
    | inl old ↦ rw old (unseen-IsKeyed seen es)
    | inr new ↦ rw new (
      unseen-seen (event_id e) (event_id e ∷ seen) es (rw (eq_refl (event_id e)) refl),
      unseen-IsKeyed (event_id e ∷ seen) es,
    )
  ]

  -- Every event has a row in the table.
  abbrev pub AllStored : List E → List E → Type 0
  AllStored table [] = Unit
  AllStored table (e ∷ es) = (elem (event_id e) (ids event_id table) ≡ true) × AllStored table es

  pub AllStored-of :
      (table es : List E)
      → ((i : String) → elem i (ids event_id es) ≡ true → elem i (ids event_id table) ≡ true)
      → AllStored table es
  AllStored-of table [] h = tt
  AllStored-of table (e ∷ es) h = (
    h (event_id e) (rw (eq_refl (event_id e)) refl),
    AllStored-of table es (λ i m. h i (ground arith)),
  )

  -- A statement whose events are stored changes nothing.
  pub insert_ignore-AllStored :
      (table es : List E) → AllStored table es → insert_ignore event_id table es ≡ table
  unfolding insert_ignore
  insert_ignore-AllStored table [] h = refl
  insert_ignore-AllStored table (e ∷ es) h = rw h.0 (insert_ignore-AllStored table es h.1)

  pub insert_ignore_stores_all :
      (table es : List E) → AllStored (insert_ignore event_id table es) es
  insert_ignore_stores_all table es =
      AllStored-of (insert_ignore event_id table es) es
        (λ i m. insert_ignore-stores event_id i table es m)

module _ {R E P : Type 0} (loads : List ℕ → Option R) (normalize : R → Option E)
    (event_id : E → String) (payload_of : E → P) where
  abbrev cycle : World → Collector E P → Collector E P × ℕ
  cycle = run_once loads normalize event_id payload_of true

  -- What the watched directory gives a cycle.
  abbrev pub fetched : World → Collector E P → List R × Dict FileCursor
  fetched world c =
      fetch_with_cursors loads world.configured (load_cursors c.store.ingest_cursors) world.files

  -- What a cycle has done. It leaves the tables and the bus as they are if there is nothing to read
  -- or the commit fails. Otherwise there are events `es` with distinct ids, one for each id of the
  -- records that are read: all of them are in the tables, and they are published once and in order.
  pub data CycleResult (world : World) (c c' : Collector E P) : Type 0 where
    quiet :
        fetched world c ≡ ([], []) → c'.store ≡ c.store → c'.bus ≡ c.bus → CycleResult world c c'
    uncommitted :
        world.commits ≡ false → c'.store ≡ c.store → c'.bus ≡ c.bus → CycleResult world c c'
    stored :
        (es : List E)
        → IsKeyed event_id es
        → AllTaken normalize event_id es (fetched world c).0
        → AllFrom normalize es (fetched world c).0
        → AllStored event_id c'.store.normalized_events es
        → AllStored event_id c'.store.raw_events es
        → c'.bus ≡ publish_many c.bus (map payload_of es) "event"
        → CycleResult world c c'
