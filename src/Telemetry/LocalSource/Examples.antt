-- ===== src/Telemetry/LocalSource/Examples.antt =====
-- The theorems on the local telemetry source at concrete inputs, and tests.
use Prim.Native.Nat.{compare, Ordering}
use shadow_trust_security.Prelude.{
  length-append, ℕ, ◌≤◌, ◌≡◌, refl, ap, inr, true, Option, none, some, List, [], ◌∷◌, arith, length,
  take, drop, eq_iff, false≢true,
}
use shadow_trust_security.Telemetry.Text.{newline, decode, lines, splitlines, strip, rfind}
use shadow_trust_security.Telemetry.LocalSource.{
  FileCursor, LogFile, events_of, read_file, fetch_with_cursors,
}
use shadow_trust_security.Telemetry.LocalSource.Tailing.{EndsLine}
use shadow_trust_security.Telemetry.LocalSource.Cycles.{Growth, Tail, position, LinesFit}
use shadow_trust_security.Telemetry.LocalSource.Exactness.{
  cycle, run_cycles, new_log, tail_exact, tail_complete,
}
use shadow_trust_security.Telemetry.LocalSource.Fetch.{
  read_file-Restarted, Each, IsNoted, fetch_notes_every_file,
}

-- A parser that takes a line for an event if it starts with an opening brace.
abbrev braces : List ℕ → Option (List ℕ)
braces [] = none
braces (c ∷ cs) = elim (compare c 123) [ Ordering.eq ↦ some cs | _ ↦ none ]

decode_test : decode 0 (65 ∷ 0xc3 ∷ 0xa9 ∷ 0xff ∷ 66 ∷ []) ≡ 65 ∷ 0xe9 ∷ 66 ∷ []
unfolding decode
decode_test = refl

splitlines_test : splitlines (65 ∷ 13 ∷ 10 ∷ 10 ∷ 66 ∷ []) ≡ (65 ∷ []) ∷ [] ∷ (66 ∷ []) ∷ []
unfolding lines
splitlines_test = refl

-- Two appends, the second of which ends a line that the first began.
abbrev grown : List Growth
grown =
    record { bytes = 123 ∷ 49 ∷ 10 ∷ 123 ∷ []; size = 4; mtime = 1 }
    ∷ record { bytes = 50 ∷ 10 ∷ 51 ∷ []; size = 7; mtime = 2 }
    ∷ []

grown_log : Tail (List ℕ)
unfolding run_cycles read_file events_of decode lines strip rfind
grown_log = run_cycles braces "cowrie.json" "8" new_log grown

grown_events : grown_log.emitted ≡ (49 ∷ []) ∷ (50 ∷ []) ∷ []
unfolding grown_log
grown_events = refl

-- A log of fewer than 8 MB has no oversized line.
short_log : (content : List ℕ) → length content ≤ 100 → LinesFit content
short_log content h xs ys e long = absurd (omega (arith, ap length e, length-append xs ys))

tail_exact_example :
    let t = run_cycles braces "cowrie.json" "8" new_log grown in
    (t.emitted ≡ events_of braces (take (position t.cursor) t.content))
    × EndsLine (take (position t.cursor) t.content)
unfolding run_cycles
tail_exact_example =
    tail_exact braces "cowrie.json" "8" grown (omega arith) (short_log _ (omega arith))

abbrev last_growth : Growth
last_growth = record { bytes = 10 ∷ []; size = 8; mtime = 3 }

tail_complete_example :
    let t = run_cycles braces "cowrie.json" "8" new_log grown in
    let t' = cycle braces "cowrie.json" "8" t last_growth in
    (t'.emitted ≡ events_of braces (take (position t'.cursor) t'.content))
    × (rfind newline (drop (position t'.cursor) t'.content) ≡ none)
unfolding grown_log
tail_complete_example =
    tail_complete braces "cowrie.json" "8" grown last_growth (omega arith)
      (short_log _ (omega arith)) refl (omega arith)

abbrev stored : FileCursor
stored = record { source_key = "a.log"; inode = "7"; size_bytes = 9; byte_offset = 9; mtime = 1 }

abbrev rotated : LogFile
rotated = record {
  key = "a.log";
  stat = record { st_ino = "8"; st_size = 3; st_mtime = 2 };
  content = some (123 ∷ 49 ∷ 10 ∷ []);
}

read_file-Restarted_example : read_file braces (some stored) rotated ≡ read_file braces none rotated
read_file-Restarted_example = read_file-Restarted braces stored rotated (inr (omega arith))

abbrev other : LogFile
other = record {
  key = "b.log";
  stat = record { st_ino = "9"; st_size = 2; st_mtime = 1 };
  content = none;
}

fetch_notes_every_file_example :
    Each
      (IsNoted braces
        (("a.log", stored) ∷ [])
        (fetch_with_cursors braces true (("a.log", stored) ∷ []) (rotated ∷ other ∷ [])).1)
      (rotated ∷ other ∷ [])
fetch_notes_every_file_example =
    fetch_notes_every_file braces (("a.log", stored) ∷ []) (rotated ∷ other ∷ [])
      (((λ e. false≢true ((eq_iff "a.log" "b.log").1 e)), tt), (tt, tt)) (omega arith)
