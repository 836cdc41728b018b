-- ===== src/Telemetry/Collector.antt =====
-- backend/app/services/telemetry/collector.py: one ingest cycle, from the watched files through the
-- tables to the event bus. `normalize` stands for normalize.py, `payload_of` for the message of an
-- event. A table of events is its rows, oldest first, keyed by `event_id`; the mirror table
-- raw_events has one row for one event too.
pub mod Tables
pub mod Batch
pub mod Cycle
pub mod History
mod Examples
use shadow_trust_security.Prelude.{
  ℕ, zero, suc, ◌+◌, ◌*◌, ◌/◌, String, Bool, true, false, not, ◌&&◌, Option, none, some, List, [],
  ◌∷◌, ◌++◌, if◌then◌else◌, str_eq, elem, Dict, get, put, length, take, drop, map,
}
use shadow_trust_security.EventBus.{EventBus, publish_many}
use shadow_trust_security.Telemetry.LocalSource.{FileCursor, LogFile, fetch_with_cursors}

abbrev pub persist_chunk_rows : ℕ
persist_chunk_rows = 500

-- A row of ingest_cursors.
pub record IngestCursor : Type 0 where
  pub inode : String
  pub size_bytes : ℕ
  pub byte_offset : ℕ
  pub events_ingested : ℕ

pub record Store (E : Type 0) : Type 0 where
  pub normalized_events : List E
  pub raw_events : List E
  pub ingest_cursors : Dict IngestCursor

unfoldable pub load_cursors : Dict IngestCursor → Dict FileCursor
load_cursors [] = []
load_cursors ((key, row) ∷ rows) =
    (
      key,
      record {
        source_key = key;
        inode = row.inode;
        size_bytes = row.size_bytes;
        byte_offset = row.byte_offset;
        mtime = 0;
      },
    )
    ∷ load_cursors rows

abbrev ingested : Option IngestCursor → ℕ
ingested none = 0
ingested (some row) = row.events_ingested

-- INSERT … ON DUPLICATE KEY UPDATE; the count that is added is 0 for every file.
unfoldable pub save_cursors : Dict IngestCursor → Dict FileCursor → Dict IngestCursor
save_cursors rows [] = rows
save_cursors rows ((key, cursor) ∷ cursors) =
    save_cursors
      (put rows key (record {
        inode = cursor.inode;
        size_bytes = cursor.size_bytes;
        byte_offset = cursor.byte_offset;
        events_ingested = ingested (get rows key) + 0;
      }))
      cursors

module _ {E : Type 0} (event_id : E → String) where
  abbrev pub ids : List E → List String
  ids [] = []
  ids (e ∷ es) = event_id e ∷ ids es

  -- INSERT IGNORE: a row whose primary key is there is passed over.
  unfoldable pub insert_ignore : List E → List E → List E
  insert_ignore table [] = table
  insert_ignore table (e ∷ es) =
      insert_ignore (if elem (event_id e) (ids table) then table else table ++ e ∷ []) es

  -- One statement for each of the next `n` chunks.
  unfoldable pub insert_chunks : ℕ → List E → List E → List E
  unfolding insert_ignore
  insert_chunks zero table rows = table
  insert_chunks (suc n) table rows =
      insert_chunks n (insert_ignore table (take persist_chunk_rows rows))
        (drop persist_chunk_rows rows)

  -- `range(0, len(rows), PERSIST_CHUNK_ROWS)` has this many members.
  abbrev pub chunk_count : List E → ℕ
  chunk_count rows = (length rows + 499) / 500

  unfoldable pub persist : Store E → List E → Store E
  unfolding insert_chunks
  persist store events = record store {
    normalized_events = insert_chunks (chunk_count events) store.normalized_events events;
    raw_events = insert_chunks (chunk_count events) store.raw_events events;
  }

  -- The dedupe within the batch, with the ids seen so far.
  unfoldable pub unseen : List String → List E → List E
  unseen seen [] = []
  unseen seen (e ∷ es) =
      let rest = unseen (event_id e ∷ seen) es in
      let others = unseen seen es in if elem (event_id e) seen then others else e ∷ rest

pub record Collector (E P : Type 0) : Type 0 where
  pub store : Store E
  pub bus : EventBus P
  pub events_ingested : ℕ
  pub events_skipped : ℕ

-- The events of the raw records that `normalize` takes, and how many it does not.
unfoldable pub normalize_all : {R E : Type 0} → (R → Option E) → List R → List E × ℕ
normalize_all normalize [] = ([], 0)
normalize_all normalize (r ∷ rs) =
    let (es, skipped) = normalize_all normalize rs in
    elim (normalize r) [ none ↦ (es, suc skipped) | some e ↦ (e ∷ es, skipped) ]

abbrev pub nothing {ℓ} : {A : Type ℓ} → List A → Bool
nothing [] = true
nothing (x ∷ xs) = false

-- What a cycle meets: whether the directory is there, its files, and whether the commit succeeds.
pub record World : Type 0 where
  pub configured : Bool
  pub files : List LogFile
  pub commits : Bool

module _ {R E P : Type 0} (loads : List ℕ → Option R) (normalize : R → Option E)
    (event_id : E → String) (payload_of : E → P) (publishes : Bool) where
  abbrev batch : List R → List E
  batch raws = unseen event_id [] (normalize_all normalize raws).0

  -- From the raw records and the cursors that the source gives.
  unfoldable pub ingest : Bool → List R → Dict FileCursor → Collector E P → Collector E P × ℕ
  unfolding persist save_cursors unseen normalize_all
  ingest commits raws updated c =
      let (events, skipped) = normalize_all normalize raws in
      let unique = unseen event_id [] events in
      let stored = persist event_id c.store unique in
      let counted = record c { events_skipped = c.events_skipped + skipped } in
      if not commits then (counted, 0) else (
        record counted {
          store = record stored { ingest_cursors = save_cursors c.store.ingest_cursors updated };
          events_ingested = c.events_ingested + length unique;
          bus = if publishes then publish_many c.bus (map payload_of unique) "event" else c.bus;
        },
        length unique,
      )

  unfoldable pub run_once : World → Collector E P → Collector E P × ℕ
  unfolding ingest load_cursors
  run_once world c =
      let (raws, updated) =
        fetch_with_cursors loads world.configured (load_cursors c.store.ingest_cursors)
          world.files in
      if nothing raws && nothing updated then (c, 0) else ingest world.commits raws updated c
