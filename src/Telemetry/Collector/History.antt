-- ===== src/Telemetry/Collector/History.antt =====
-- Many cycles, and records that are read again.
use mathlib.Core.Path.{subst}
use shadow_trust_security.Prelude.{
  ℕ, ◌≡◌, sym, ap, ◌∙◌, String, Bool, true, false, ◌&&◌, Option, List, [], ◌∷◌, Dict, Bool-cases,
  inl, inr,
}
use shadow_trust_security.Telemetry.LocalSource.{FileCursor, fetch_with_cursors}
use shadow_trust_security.Telemetry.Collector.{
  insert_ignore, Collector, nothing, World, batch, ingest, run_once, load_cursors,
}
use shadow_trust_security.Telemetry.Collector.Tables.{IsKeyed, insert_ignore-IsKeyed}
use shadow_trust_security.Telemetry.Collector.Cycle.{
  persist-insert_ignore, AllStored, insert_ignore-AllStored, insert_ignore_stores_all,
}

module _ {R E P : Type 0} (loads : List ℕ → Option R) (normalize : R → Option E)
    (event_id : E → String) (payload_of : E → P) (publishes : Bool) where
  unfoldable pub run_cycles : List World → Collector E P → Collector E P
  run_cycles [] c = c
  run_cycles (world ∷ worlds) c =
      run_cycles worlds (run_once loads normalize event_id payload_of publishes world c).0

  -- Each event has one row, and raw_events has the events of normalized_events.
  pub record IsConsistent (c : Collector E P) : Type 0 where
    pub keyed : IsKeyed event_id c.store.normalized_events
    pub mirrored : c.store.raw_events ≡ c.store.normalized_events

  ingest-IsConsistent :
      (commits : Bool) (raws : List R) (updated : Dict FileCursor) (c : Collector E P)
      → IsConsistent c
      → IsConsistent (ingest loads normalize event_id payload_of publishes commits raws updated c).0
  unfolding ingest
  ingest-IsConsistent false raws updated c h = record { keyed = h.keyed; mirrored = h.mirrored }
  ingest-IsConsistent true raws updated c h =
      let es = batch loads normalize event_id payload_of publishes raws in
      let tables = persist-insert_ignore event_id c.store es in
      record {
        keyed =
            subst (IsKeyed event_id) (sym tables.0)
              (insert_ignore-IsKeyed event_id c.store.normalized_events es h.keyed);
        mirrored = tables.1 ∙ (ap (λ t. insert_ignore event_id t es) h.mirrored ∙ sym tables.0);
      }

  run_once-IsConsistent :
      (world : World) (c : Collector E P)
      → IsConsistent c
      → IsConsistent (run_once loads normalize event_id payload_of publishes world c).0
  unfolding run_once
  run_once-IsConsistent world c h =
      let fetched =
        fetch_with_cursors loads world.configured (load_cursors c.store.ingest_cursors)
          world.files in
      elim (Bool-cases (nothing fetched.0 && nothing fetched.1)) [
        | inl quiet ↦ rw quiet h
        | inr work ↦ rw work (ingest-IsConsistent world.commits fetched.0 fetched.1 c h)
      ]

  -- If each event id has one row and the mirror table has the same events as the normalized one,
  -- then so it is after any cycles, whatever the files show and whichever commits fail.
  pub run_cycles-IsConsistent :
      (worlds : List World) (c : Collector E P)
      → IsConsistent c
      → IsConsistent (run_cycles worlds c)
  unfolding run_cycles
  run_cycles-IsConsistent [] c h = h
  run_cycles-IsConsistent (world ∷ worlds) c h =
      run_cycles-IsConsistent worlds
        (run_once loads normalize event_id payload_of publishes world c).0
        (run_once-IsConsistent world c h)

  -- Records that are ingested again after a commit, with whatever new cursors, add no row to either
  -- table.
  pub ingest_again :
      (raws : List R) (updated again : Dict FileCursor) (c : Collector E P)
      → let c' = (ingest loads normalize event_id payload_of publishes true raws updated c).0 in
        let c'' = (ingest loads normalize event_id payload_of publishes true raws again c').0 in
        (c''.store.normalized_events ≡ c'.store.normalized_events)
        × (c''.store.raw_events ≡ c'.store.raw_events)
  unfolding ingest
  ingest_again raws updated again c =
      let es = batch loads normalize event_id payload_of publishes raws in
      let first = persist-insert_ignore event_id c.store es in
      let c' = (ingest loads normalize event_id payload_of publishes true raws updated c).0 in
      let second = persist-insert_ignore event_id c'.store es in
      let there : AllStored event_id c'.store.normalized_events es =
        subst (λ t. AllStored event_id t es) (sym first.0)
          (insert_ignore_stores_all event_id c.store.normalized_events es) in
      let there' : AllStored event_id c'.store.raw_events es =
        subst (λ t. AllStored event_id t es) (sym first.1)
          (insert_ignore_stores_all event_id c.store.raw_events es) in
      (
        second.0 ∙ insert_ignore-AllStored event_id c'.store.normalized_events es there,
        second.1 ∙ insert_ignore-AllStored event_id c'.store.raw_events es there',
      )
