-- ===== src/Telemetry/LocalSource.antt =====
-- backend/app/services/telemetry/local_source.py: the sensor logs are tailed from stored byte
-- offsets. Files are given by what one cycle sees of them: key, `stat`, and the bytes that
-- `open` and `read` reach (`none` where they raise). `loads` stands for `json.loads` restricted to
-- objects: `none` where it raises or gives another value.
pub mod Tailing
pub mod Cycles
pub mod Exactness
pub mod Fetch
mod Examples
use shadow_trust_security.Prelude.{
  ℕ, suc, ◌+◌, String, Bool, true, false, Option, none, some, List, [], ◌∷◌, ◌++◌, leb, ltb, str_eq,
  not, ◌&&◌, if◌then◌else◌, length, take, drop, get, put,
}
use shadow_trust_security.Telemetry.Text.{newline, decode, splitlines, lines, strip, rfind}

abbrev pub max_files_per_cycle : ℕ
max_files_per_cycle = 250

abbrev pub max_bytes_per_file : ℕ
max_bytes_per_file = 8388608

-- `mtime` is a count of time units; it is copied and compared only.
pub record FileCursor : Type 0 where
  pub source_key : String
  pub inode : String
  pub size_bytes : ℕ
  pub byte_offset : ℕ
  pub mtime : ℕ

abbrev pub new_cursor : String → FileCursor
new_cursor key = record { source_key = key; inode = ""; size_bytes = 0; byte_offset = 0; mtime = 0 }

-- `os.stat_result`; `st_ino` is the text `str(stat.st_ino)`.
pub record Stat : Type 0 where
  pub st_ino : String
  pub st_size : ℕ
  pub st_mtime : ℕ

pub record LogFile : Type 0 where
  pub key : String
  pub stat : Stat
  pub content : Option (List ℕ)

unfoldable pub resolve_offset : FileCursor → Stat → ℕ
resolve_offset cursor stat =
    if not (str_eq cursor.inode "") && not (str_eq cursor.inode stat.st_ino)
    then 0
    else if ltb stat.st_size cursor.byte_offset
    then 0
    else cursor.byte_offset

-- `cursors.get(key) or FileCursor(source_key=key)`
abbrev pub cursor_or_new : String → Option FileCursor → FileCursor
cursor_or_new key none = new_cursor key
cursor_or_new key (some c) = c

-- The cursor of a file that was read up to `offset`.
abbrev pub advanced : String → Stat → ℕ → FileCursor
advanced key stat offset = record {
  source_key = key;
  inode = stat.st_ino;
  size_bytes = stat.st_size;
  byte_offset = offset;
  mtime = stat.st_mtime;
}

-- `updated[key] = …`, where there is something to note.
abbrev pub note :
    String → Option FileCursor → List (String × FileCursor) → List (String × FileCursor)
note key none updated = updated
note key (some c) updated = put updated key c

module _ {E : Type 0} (loads : List ℕ → Option E) where
  -- One line, stripped: an empty line and one that does not parse give no event.
  unfoldable pub parse_stripped : List ℕ → List E
  parse_stripped [] = []
  parse_stripped (c ∷ cs) = elim (loads (c ∷ cs)) [ none ↦ [] | some event ↦ event ∷ [] ]

  unfoldable pub parse_lines : List (List ℕ) → List E
  unfolding parse_stripped
  parse_lines [] = []
  parse_lines (line ∷ rest) = parse_stripped (strip line) ++ parse_lines rest

  -- The events of the lines of `usable`.
  unfoldable pub events_of : List ℕ → List E
  unfolding parse_lines
  events_of usable = parse_lines (splitlines (decode 0 usable))

  -- What is made of a chunk that was read from offset `start`: its events, and the new position if
  -- the file counts as read.
  unfoldable pub consume : String → Stat → ℕ → List ℕ → List E × Option FileCursor
  consume key stat start [] = ([], none)
  consume key stat start (b ∷ bs) =
      let chunk = b ∷ bs in
      elim (rfind newline chunk) [
        | none ↦
            if ltb (length chunk) max_bytes_per_file
            then ([], none)
            else ([], some (advanced key stat (start + length chunk)))
        | some last_newline ↦
            let usable = take (suc last_newline) chunk in
            (events_of usable, some (advanced key stat (start + length usable)))
      ]

  -- What is read of a file from offset `start`.
  unfoldable pub read_from : ℕ → LogFile → List E × Option FileCursor
  unfolding consume
  read_from start file = if leb file.stat.st_size start then ([], none) else elim file.content [
    | none ↦ ([], none)
    | some bytes ↦ consume file.key file.stat start (take max_bytes_per_file (drop start bytes))
  ]

  -- The body of the loop over the files.
  unfoldable pub read_file : Option FileCursor → LogFile → List E × Option FileCursor
  unfolding resolve_offset read_from
  read_file stored file = read_from (resolve_offset (cursor_or_new file.key stored) file.stat) file

  unfoldable pub read_files :
      List (String × FileCursor)
      → List LogFile
      → List E
      → List (String × FileCursor)
      → List E × List (String × FileCursor)
  unfolding read_file
  read_files cursors [] parsed updated = (parsed, updated)
  read_files cursors (file ∷ files) parsed updated =
      let (events, cursor) = read_file (get cursors file.key) file in
      read_files cursors files (parsed ++ events) (note file.key cursor updated)

-- `all_files.sort(key=st_mtime)`, a stable sort.
unfoldable pub insert_by_mtime : LogFile → List LogFile → List LogFile
insert_by_mtime f [] = f ∷ []
insert_by_mtime f (g ∷ gs) =
    if leb f.stat.st_mtime g.stat.st_mtime then f ∷ g ∷ gs else g ∷ insert_by_mtime f gs

unfoldable pub sort_by_mtime : List LogFile → List LogFile
unfolding insert_by_mtime
sort_by_mtime [] = []
sort_by_mtime (f ∷ fs) = insert_by_mtime f (sort_by_mtime fs)

unfoldable pub fetch_with_cursors :
    {E : Type 0} (loads : List ℕ → Option E)
    → Bool
    → List (String × FileCursor)
    → List LogFile
    → List E × List (String × FileCursor)
unfolding read_files sort_by_mtime
fetch_with_cursors loads false cursors files = ([], [])
fetch_with_cursors loads true cursors files =
    read_files loads cursors (take max_files_per_cycle (sort_by_mtime files)) [] []
