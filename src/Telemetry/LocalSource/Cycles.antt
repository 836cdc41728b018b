-- ===== src/Telemetry/LocalSource/Cycles.antt =====
-- A log that only grows, read cycle by cycle: whatever the cycles see, its lines are ingested in
-- order and each once. A rotated or truncated file is read as a new one.
use shadow_trust_security.Prelude.{
  drop, take, ℕ, ◌≤◌, ◌≡◌, refl, ap, ◌∙◌, String, Option, none, some, List, [], ◌∷◌, ◌++◌, arith,
  leb, leb→le, eq_iff, eq_refl, length, append_assoc, Bool-cases, inl, inr, take-append,
  drop-length-append, length-append,
}
use shadow_trust_security.Telemetry.Text.{newline, rfind}
use shadow_trust_security.Telemetry.LocalSource.{
  Stat, consume, max_bytes_per_file, FileCursor, cursor_or_new, LogFile, resolve_offset, read_file,
}
use shadow_trust_security.Telemetry.LocalSource.Tailing.{
  InOneRead, rfind-nil, nothing, Consumed-weaken, NoOversize, Consumed, consume_lem,
}

-- What one cycle sees: the bytes appended since the cycle before, and the size and time that
-- `stat` gave, which may be older than the read.
pub record Growth : Type 0 where
  pub bytes : List ℕ
  pub size : ℕ
  pub mtime : ℕ

-- A log with its stored cursor, and the events that its cycles gave so far.
pub record Tail (E : Type 0) : Type 0 where
  pub content : List ℕ
  pub cursor : Option FileCursor
  pub emitted : List E

abbrev pub newer : Option FileCursor → Option FileCursor → Option FileCursor
newer old none = old
newer old (some c) = some c

abbrev pub position : Option FileCursor → ℕ
position none = 0
position (some c) = c.byte_offset

-- However the log is cut, a read of the second part meets no oversized line.
abbrev pub LinesFit : List ℕ → Type 0
LinesFit content = (xs ys : List ℕ) → content ≡ xs ++ ys → NoOversize ys

pub LinesFit-prefix : (content more : List ℕ) → LinesFit (content ++ more) → LinesFit content
LinesFit-prefix content more h xs ys e long = rw (← take-append max_bytes_per_file ys more long) (
    h xs (ys ++ more) (ap (λ c. c ++ more) e ∙ append_assoc xs ys more)
      (omega (arith, length-append ys more)))

abbrev pub IsOf : String → Option FileCursor → Type 0
IsOf ino none = Unit
IsOf ino (some c) = c.inode ≡ ino

resolve_offset_same :
    (key ino : String) (cursor : Option FileCursor) (size mtime : ℕ)
    → IsOf ino cursor
    → position cursor ≤ size
    → resolve_offset
        (cursor_or_new key cursor)
        (record { st_ino = ino; st_size = size; st_mtime = mtime })
      ≡ position cursor
unfolding resolve_offset
resolve_offset_same key ino none size mtime h le = ground (arith, eq_refl "")
resolve_offset_same key ino (some c) size mtime h le = ground (arith, eq_iff c.inode ino)

-- The size that `stat` gave is that of what is read, and the unread bytes fit one read.
abbrev pub CaughtUp : Growth → List ℕ → List ℕ → Type 0
CaughtUp g content unread = (g.size ≡ length content) × InOneRead unread

up_to_date :
    (g : Growth) (done unread : List ℕ)
    → g.size ≤ length done
    → CaughtUp g (done ++ unread) unread
    → rfind newline unread ≡ none
up_to_date g done [] le c = rfind-nil
up_to_date g done (b ∷ bs) le c = absurd (omega (arith, length-append done (b ∷ bs)))

pub newer-IsOf :
    (ino : String) (old new : Option FileCursor)
    → IsOf ino old
    → IsOf ino new
    → IsOf ino (newer old new)
newer-IsOf ino old none h k = h
newer-IsOf ino old (some c) h k = k

abbrev pub seen : String → String → List ℕ → Growth → LogFile
seen key ino content g = record {
  key = key;
  stat = record { st_ino = ino; st_size = g.size; st_mtime = g.mtime };
  content = some content;
}

module _ {E : Type 0} (loads : List ℕ → Option E) (key ino : String) where
  pub read_file-Consumed :
      (cursor : Option FileCursor) (g : Growth) (done unread : List ℕ)
      → IsOf ino cursor
      → position cursor ≡ length done
      → length done ≤ g.size
      → NoOversize unread
      → Consumed loads
          (CaughtUp g (done ++ unread) unread)
          (length done)
          unread
          (read_file loads cursor (seen key ino (done ++ unread) g))
  unfolding read_file
  read_file-Consumed cursor g done unread s p le h =
      let start : resolve_offset (cursor_or_new key cursor) (seen key ino (done ++ unread) g).stat
          ≡ length done =
        resolve_offset_same key ino cursor g.size g.mtime s (omega arith) ∙ p in
      rw start (elim (Bool-cases (leb g.size (length done))) [
        | inl old ↦
            rw old
              (nothing loads _ (length done) unread (up_to_date g done unread (leb→le _ _ old)))
        | inr new ↦
            rw (new, drop-length-append done unread)
              (Consumed-weaken loads (λ c. c.1)
                (consume_lem loads key (seen key ino (done ++ unread) g).stat (length done) unread _
                  refl h))
      ])

  consume-IsOf :
      (stat : Stat) (start : ℕ) (chunk : List ℕ)
      → IsOf stat.st_ino (consume loads key stat start chunk).1
  unfolding consume
  consume-IsOf stat start [] = tt
  consume-IsOf stat start (b ∷ bs) = ground arith

  pub read_file-IsOf :
      (cursor : Option FileCursor) (content : List ℕ) (g : Growth)
      → IsOf ino (read_file loads cursor (seen key ino content g)).1
  unfolding read_file
  read_file-IsOf cursor content g =
      let stat = (seen key ino content g).stat in
      let start = resolve_offset (cursor_or_new key cursor) stat in
      elim (Bool-cases (leb g.size start)) [
        | inl old ↦ rw old tt
        | inr new ↦ rw new (consume-IsOf stat start (take max_bytes_per_file (drop start content)))
      ]
