-- ===== src/Telemetry/LocalSource/Fetch.antt =====
-- A whole cycle of the source over a directory, and files that were rotated or truncated.
use shadow_trust_security.Prelude.{
  get-put_self, ℕ, suc, ◌≤◌, ◌<◌, ◌≡◌, ◌≢◌, ◌⊎◌, refl, ap, sym, ◌∙◌, String, true, Option, none,
  some, List, [], ◌∷◌, ◌++◌, arith, leb, eq_iff, eq_refl, length, get, get-put_ne, Bool-cases, inl,
  inr,
}
use shadow_trust_security.Telemetry.LocalSource.{
  max_files_per_cycle, FileCursor, new_cursor, Stat, LogFile, resolve_offset, note, read_from,
  read_file, read_files, insert_by_mtime, sort_by_mtime, fetch_with_cursors,
}
use shadow_trust_security.Telemetry.LocalSource.Tailing.{take_fits}

-- Another file is at the path, or the file is shorter than what was read of it.
abbrev pub Restarted : FileCursor → Stat → Type 0
Restarted c stat = ((c.inode ≢ "") × (c.inode ≢ stat.st_ino)) ⊎ (stat.st_size < c.byte_offset)

resolve_offset-Restarted :
    (c : FileCursor) (stat : Stat) → Restarted c stat → resolve_offset c stat ≡ 0
unfolding resolve_offset
resolve_offset-Restarted c stat h = ground (arith, eq_iff c.inode "", eq_iff c.inode stat.st_ino)

resolve_offset_new : (key : String) (stat : Stat) → resolve_offset (new_cursor key) stat ≡ 0
unfolding resolve_offset
resolve_offset_new key stat = ground (arith, eq_refl "")

-- A file whose inode is not the recorded one, or that is smaller than the recorded offset, is read
-- just as a file that was never seen: from its first byte, with the same events and new cursor.
pub read_file-Restarted :
    {E : Type 0} (loads : List ℕ → Option E) (c : FileCursor) (file : LogFile)
    → Restarted c file.stat
    → read_file loads (some c) file ≡ read_file loads none file
unfolding read_file
read_file-Restarted loads c file h =
    ap (λ start. read_from loads start file)
      (resolve_offset-Restarted c file.stat h ∙ sym (resolve_offset_new file.key file.stat))

module _ {κ} (P : LogFile → Type κ) where
  abbrev pub Each : List LogFile → Type κ
  Each [] = Unit
  Each (f ∷ fs) = P f × Each fs

  Each-insert : (f : LogFile) (gs : List LogFile) → P f → Each gs → Each (insert_by_mtime f gs)
  unfolding insert_by_mtime
  Each-insert f [] p h = (p, tt)
  Each-insert f (g ∷ gs) p h = elim (Bool-cases (leb f.stat.st_mtime g.stat.st_mtime)) [
    | inl le ↦ rw le (p, (h.0, h.1))
    | inr gt ↦ rw gt (h.0, Each-insert f gs p h.1)
  ]

  Each-uninsert : (f : LogFile) (gs : List LogFile) → Each (insert_by_mtime f gs) → P f × Each gs
  unfolding insert_by_mtime
  Each-uninsert f [] h = (h.0, tt)
  Each-uninsert f (g ∷ gs) h = elim (Bool-cases (leb f.stat.st_mtime g.stat.st_mtime)) [
    | inl le ↦ rw (le, insert_by_mtime) at h
    | inr gt ↦
        let h' : P g × Each (insert_by_mtime f gs) = rw (gt, insert_by_mtime) at h in
        let rest = Each-uninsert f gs h'.1 in (rest.0, (h'.0, rest.1))
  ]

  Each-sort : (fs : List LogFile) → Each fs → Each (sort_by_mtime fs)
  unfolding sort_by_mtime
  Each-sort [] h = tt
  Each-sort (f ∷ fs) h = Each-insert f (sort_by_mtime fs) h.0 (Each-sort fs h.1)

  Each-unsort : (fs : List LogFile) → Each (sort_by_mtime fs) → Each fs
  unfolding sort_by_mtime
  Each-unsort [] h = tt
  Each-unsort (f ∷ fs) h =
      let rest = Each-uninsert f (sort_by_mtime fs) h in (rest.0, Each-unsort fs rest.1)

-- No two files have one key.
abbrev pub HaveDistinctKeys : List LogFile → Type 0
HaveDistinctKeys [] = Unit
HaveDistinctKeys (f ∷ fs) = Each (λ g. f.key ≢ g.key) fs × HaveDistinctKeys fs

insert_distinct :
    (f : LogFile) (gs : List LogFile)
    → HaveDistinctKeys (f ∷ gs)
    → HaveDistinctKeys (insert_by_mtime f gs)
unfolding insert_by_mtime
insert_distinct f [] h = h
insert_distinct f (g ∷ gs) h = elim (Bool-cases (leb f.stat.st_mtime g.stat.st_mtime)) [
  | inl le ↦ rw le h
  | inr gt ↦ rw gt (
    Each-insert (λ x. g.key ≢ x.key) f gs (λ e. h.0.0 (sym e)) h.1.0,
    insert_distinct f gs (h.0.1, h.1.1),
  )
]

sort_distinct : (fs : List LogFile) → HaveDistinctKeys fs → HaveDistinctKeys (sort_by_mtime fs)
unfolding sort_by_mtime
sort_distinct [] h = tt
sort_distinct (f ∷ fs) h =
    insert_distinct f (sort_by_mtime fs)
      (Each-sort (λ g. f.key ≢ g.key) fs h.0, sort_distinct fs h.1)

length-insert_by_mtime :
    (f : LogFile) (gs : List LogFile) → length (insert_by_mtime f gs) ≡ suc (length gs)
unfolding insert_by_mtime
length-insert_by_mtime f [] = refl
length-insert_by_mtime f (g ∷ gs) = ground (arith, length-insert_by_mtime f gs)

length-sort : (fs : List LogFile) → length (sort_by_mtime fs) ≡ length fs
unfolding sort_by_mtime
length-sort [] = refl
length-sort (f ∷ fs) = length-insert_by_mtime f (sort_by_mtime fs) ∙ ap suc (length-sort fs)

note_other :
    (k j : String) (c : Option FileCursor) (updated : List (String × FileCursor))
    → k ≢ j
    → get (note j c updated) k ≡ get updated k
note_other k j none updated h = refl
note_other k j (some c) updated h = get-put_ne updated j k c (λ e. h (sym e))

module _ {E : Type 0} (loads : List ℕ → Option E) (cursors : List (String × FileCursor)) where
  read_files_others :
      (k : String) (fs : List LogFile) (parsed : List E) (updated : List (String × FileCursor))
      → Each (λ g. k ≢ g.key) fs
      → get (read_files loads cursors fs parsed updated).1 k ≡ get updated k
  unfolding read_files
  read_files_others k [] parsed updated h = refl
  read_files_others k (f ∷ fs) parsed updated h =
      let (events, c) = read_file loads (get cursors f.key) f in
      read_files_others k fs (parsed ++ events) (note f.key c updated) h.1
      ∙ note_other k f.key c updated h.0

  -- The update for a file is what reading it gave, if that gave one.
  abbrev pub IsNoted : List (String × FileCursor) → LogFile → Type 0
  IsNoted updated f =
      (c : FileCursor)
      → (read_file loads (get cursors f.key) f).1 ≡ some c
      → get updated f.key ≡ some c

  read_files-IsNoted :
      (fs : List LogFile) (parsed : List E) (updated : List (String × FileCursor))
      → HaveDistinctKeys fs
      → Each (IsNoted (read_files loads cursors fs parsed updated).1) fs
  unfolding read_files
  read_files-IsNoted [] parsed updated h = tt
  read_files-IsNoted (f ∷ fs) parsed updated h =
      let r = read_file loads (get cursors f.key) f in
      let more = note f.key r.1 updated in
      (
        λ c e.
            read_files_others f.key fs (parsed ++ r.0) more h.0
            ∙ (ap (λ o. get (note f.key o updated) f.key) e ∙ get-put_self updated f.key c),
        read_files-IsNoted fs (parsed ++ r.0) more h.1,
      )

  -- A configured source with at most 250 files, no two of one key, gives for each file the cursor
  -- that reading it from its stored position gave, whatever the order of modification times.
  pub fetch_notes_every_file :
      (files : List LogFile)
      → HaveDistinctKeys files
      → length files ≤ max_files_per_cycle
      → Each (IsNoted (fetch_with_cursors loads true cursors files).1) files
  unfolding fetch_with_cursors
  fetch_notes_every_file files h few = Each-unsort (IsNoted _) files (
      rw (take_fits max_files_per_cycle (sort_by_mtime files) (rw length-sort few))
        (read_files-IsNoted (sort_by_mtime files) [] [] (sort_distinct files h)))
