-- ===== src/Telemetry/Collector/Examples.antt =====
-- The collector on a sensor log of two lines.
use shadow_trust_security.Prelude.{
  get, put, ℕ, ◌≡◌, refl, String, true, false, Option, none, some, List, [], ◌∷◌, ◌==◌,
  if◌then◌else◌,
}
use shadow_trust_security.Telemetry.Text.{rfind, lines, decode, strip}
use shadow_trust_security.Telemetry.LocalSource.{fetch_with_cursors, events_of, LogFile}
use shadow_trust_security.Telemetry.Collector.{Collector, World, ingest, run_once}
use shadow_trust_security.Telemetry.Collector.History.{
  run_cycles, IsConsistent, run_cycles-IsConsistent, ingest_again,
}

abbrev whole_line : List ℕ → Option (List ℕ)
whole_line line = some line

-- Lines that begin with an opening brace are events.
abbrev braced : List ℕ → Option (List ℕ)
braced [] = none
braced (c ∷ cs) = if c == 123 then some cs else none

abbrev first_letter : List ℕ → String
first_letter [] = ""
first_letter (c ∷ cs) = if c == 49 then "one" else "other"

abbrev log : LogFile
log = record {
  key = "cowrie.json";
  stat = record { st_ino = "8"; st_size = 6; st_mtime = 1 };
  content = some (123 ∷ 49 ∷ 10 ∷ 123 ∷ 50 ∷ 10 ∷ []);
}

abbrev failing : World
failing = record { configured = true; files = log ∷ []; commits = false }

abbrev world : World
world = record { configured = true; files = log ∷ []; commits = true }

abbrev new : Collector (List ℕ) (List ℕ)
new = record {
  store = record { normalized_events = []; raw_events = []; ingest_cursors = [] };
  bus = record { subscribers = []; dropped = 0; published = []; next_id = 0 };
  events_ingested = 0;
  events_skipped = 0;
}

consistent : IsConsistent whole_line braced first_letter (λ e. e) true new
consistent = record { keyed = tt; mirrored = refl }

run_cycles-IsConsistent_example :
    IsConsistent whole_line braced first_letter
      (λ e. e)
      true
      (run_cycles whole_line braced first_letter (λ e. e) true (failing ∷ world ∷ world ∷ []) new)
run_cycles-IsConsistent_example =
    run_cycles-IsConsistent whole_line braced first_letter (λ e. e) true
      (failing ∷ world ∷ world ∷ []) new consistent

abbrev records : List (List ℕ)
records = (123 ∷ 49 ∷ []) ∷ (51 ∷ []) ∷ (123 ∷ 49 ∷ []) ∷ []

abbrev once : Collector (List ℕ) (List ℕ)
once = (ingest whole_line braced first_letter (λ e. e) true true records [] new).0

abbrev twice : Collector (List ℕ) (List ℕ)
twice = (ingest whole_line braced first_letter (λ e. e) true true records [] once).0

ingest_again_example :
    (twice.store.normalized_events ≡ once.store.normalized_events)
    × (twice.store.raw_events ≡ once.store.raw_events)
ingest_again_example = ingest_again whole_line braced first_letter (λ e. e) true records [] [] new

-- The failed commit leaves the events to the next cycle, which stores them both.
stored_test :
    (run_cycles whole_line braced first_letter
      (λ e. e)
      true
      (failing ∷ world ∷ world ∷ [])
      new).store.normalized_events
    ≡ (49 ∷ []) ∷ (50 ∷ []) ∷ []
unfolding run_cycles run_once fetch_with_cursors get rfind events_of lines decode strip put
stored_test = refl
