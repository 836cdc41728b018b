-- ===== src/Telemetry/LocalSource/Tailing.antt =====
-- Reading a growing log piece by piece gives the events of its complete lines, each exactly once.
use shadow_trust_security.Prelude.{
  ℕ, zero, suc, ◌+◌, ◌≤◌, ◌<◌, ◌≡◌, ◌≢◌, ◌⊎◌, refl, ap, sym, ◌∙◌, String, false, Option, none, some,
  List, [], ◌∷◌, ◌++◌, arith, ltb, ltb→lt, lt→ltb, not_ltb→le, length, take, drop, append-nil,
  append_assoc, Bool-cases, Option-cases, inl, inr, length-take, take-append-drop,
}
use shadow_trust_security.Telemetry.Text.{newline, decode, lines, rfind}
use shadow_trust_security.Telemetry.Text.Laws.{lines-decode-append, rfind-ends}
use shadow_trust_security.Telemetry.LocalSource.{
  advanced, max_bytes_per_file, FileCursor, Stat, parse_lines, events_of, consume,
}

-- The bytes are whole lines: none, or the last byte is a newline.
abbrev pub EndsLine : List ℕ → Type 0
EndsLine bs = (bs ≡ []) ⊎ ((xs : List ℕ) × (bs ≡ xs ++ newline ∷ []))

-- The unread bytes fit one read.
abbrev pub InOneRead : List ℕ → Type 0
InOneRead unread = length unread ≤ max_bytes_per_file

-- Unless the unread bytes fill a read with one unfinished line.
abbrev pub NoOversize : List ℕ → Type 0
NoOversize unread =
    max_bytes_per_file ≤ length unread → rfind newline (take max_bytes_per_file unread) ≢ none

pub EndsLine-append : (xs ys : List ℕ) → EndsLine xs → EndsLine ys → EndsLine (xs ++ ys)
EndsLine-append xs ys hx (inl e) = rw (e, append-nil xs) hx
EndsLine-append xs ys hx (inr (zs, e)) =
    inr (xs ++ zs, ap (λ r. xs ++ r) e ∙ sym (append_assoc xs zs (newline ∷ [])))

-- Behind the last newline there is none.
rfind-drop :
    (bs : List ℕ) (i : ℕ) → rfind newline bs ≡ some i → rfind newline (drop (suc i) bs) ≡ none
unfolding rfind
rfind-drop [] i h = absurd (ground arith)
rfind-drop (b ∷ bs) zero h = ground arith
rfind-drop (b ∷ bs) (suc i) h = rfind-drop bs i (ground arith)

pub take_fits {ℓ} : {A : Type ℓ} (n : ℕ) (xs : List A) → length xs ≤ n → take n xs ≡ xs
take_fits zero [] h = refl
take_fits zero (x ∷ xs) h = absurd (omega arith)
take_fits (suc n) [] h = refl
take_fits (suc n) (x ∷ xs) h = ap (λ r. x ∷ r) (take_fits n xs (omega arith))

drop_all {ℓ} : {A : Type ℓ} (n : ℕ) (xs : List A) → length xs ≤ n → drop n xs ≡ []
drop_all zero [] h = refl
drop_all zero (x ∷ xs) h = absurd (omega arith)
drop_all (suc n) [] h = refl
drop_all (suc n) (x ∷ xs) h = drop_all n xs (omega arith)

-- A read that gets everything that is unread.
all_read :
    (unread chunk : List ℕ)
    → take max_bytes_per_file unread ≡ chunk
    → length unread ≤ max_bytes_per_file
    → unread ≡ chunk
all_read unread chunk e fits = sym (take_fits max_bytes_per_file unread fits) ∙ e

pub rfind-nil : rfind newline [] ≡ none
unfolding rfind
rfind-nil = refl

-- A read of 8 MB has as much to read.
full :
    (unread chunk : List ℕ)
    → take max_bytes_per_file unread ≡ chunk
    → ltb (length chunk) max_bytes_per_file ≡ false
    → max_bytes_per_file ≤ length unread
full unread chunk e h =
    let n : max_bytes_per_file ≤ length chunk = not_ltb→le _ _ h in
    omega (arith, ap length e, length-take max_bytes_per_file unread)

module _ {E : Type 0} (loads : List ℕ → Option E) where
  parse_lines-append :
      (xs ys : List (List ℕ))
      → parse_lines loads (xs ++ ys) ≡ parse_lines loads xs ++ parse_lines loads ys
  unfolding parse_lines
  parse_lines-append [] ys = refl
  parse_lines-append (x ∷ xs) ys = simp (parse_lines-append xs ys, append_assoc)

  pub events_of-nil : events_of loads [] ≡ []
  unfolding events_of decode lines
  events_of-nil = refl

  -- Behind whole lines, events add up.
  pub events_of-append :
      (xs ys : List ℕ)
      → EndsLine xs
      → events_of loads (xs ++ ys) ≡ events_of loads xs ++ events_of loads ys
  unfolding events_of decode lines
  events_of-append xs ys (inl e) = rw e refl
  events_of-append xs ys (inr (zs, e)) =
      rw e (ap (parse_lines loads) (lines-decode-append zs ys) ∙ parse_lines-append _ _)

  abbrev pub offset_after : ℕ → Option FileCursor → ℕ
  offset_after start none = start
  offset_after start (some c) = c.byte_offset

  -- Of the unread bytes a first part was read: whole lines, with just their events as the result
  -- and the offset behind them. What is left has no newline if the read `Caught` up.
  pub record Consumed (Caught : Type 0) (start : ℕ) (unread : List ℕ)
      (r : List E × Option FileCursor) : Type 0 where
    pub done : List ℕ
    pub left : List ℕ
    pub parts : unread ≡ done ++ left
    pub whole : EndsLine done
    pub events : r.0 ≡ events_of loads done
    pub offset : offset_after start r.1 ≡ start + length done
    pub complete : Caught → rfind newline left ≡ none

  pub nothing :
      (Caught : Type 0) (start : ℕ) (unread : List ℕ)
      → (Caught → rfind newline unread ≡ none)
      → Consumed Caught start unread ([], none)
  unfolding events_of decode lines parse_lines
  nothing Caught start unread h = record {
    done = [];
    left = unread;
    parts = refl;
    whole = inl refl;
    events = refl;
    offset = omega arith;
    complete = h;
  }

  consume-none :
      (key : String) (stat : Stat) (start b : ℕ) (bs : List ℕ)
      → rfind newline (b ∷ bs) ≡ none
      → length (b ∷ bs) < max_bytes_per_file
      → consume loads key stat start (b ∷ bs) ≡ ([], none)
  unfolding consume
  consume-none key stat start b bs h short =
      rw (h, consume) (rw (lt→ltb (length (b ∷ bs)) max_bytes_per_file short) refl)

  consume-some :
      (key : String) (stat : Stat) (start b i : ℕ) (bs : List ℕ)
      → rfind newline (b ∷ bs) ≡ some i
      → let usable = take (suc i) (b ∷ bs) in
        consume loads key stat start (b ∷ bs)
        ≡ (events_of loads usable, some (advanced key stat (start + length usable)))
  unfolding consume
  consume-some key stat start b i bs h = rw (h, consume) refl

  used :
      (key : String) (stat : Stat) (start i : ℕ) (unread chunk : List ℕ)
      → take max_bytes_per_file unread ≡ chunk
      → rfind newline chunk ≡ some i
      → let usable = take (suc i) chunk in
        Consumed
          (InOneRead unread)
          start
          unread
          (events_of loads usable, some (advanced key stat (start + length usable)))
  used key stat start i unread chunk e found =
      let usable = take (suc i) chunk in
      let rest = drop max_bytes_per_file unread in
      record {
        done = usable;
        left = drop (suc i) chunk ++ rest;
        parts =
            sym (take-append-drop max_bytes_per_file unread)
            ∙ (ap (λ r. r ++ rest) (e ∙ sym (take-append-drop (suc i) chunk))
                ∙ append_assoc usable (drop (suc i) chunk) rest);
        whole = inr (rfind-ends chunk i found);
        events = refl;
        offset = refl;
        complete = λ fits.
            rw (drop_all max_bytes_per_file unread fits, append-nil (drop (suc i) chunk))
              (rfind-drop chunk i found);
      }

  -- `consume` on the first 8 MB of the unread bytes.
  pub consume_lem :
      (key : String) (stat : Stat) (start : ℕ) (unread chunk : List ℕ)
      → take max_bytes_per_file unread ≡ chunk
      → NoOversize unread
      → Consumed (InOneRead unread) start unread (consume loads key stat start chunk)
  unfolding consume
  consume_lem key stat start unread [] e h =
      nothing (InOneRead unread) start unread
        (λ fits. ap (rfind newline) (all_read unread [] e fits) ∙ rfind-nil)
  consume_lem key stat start unread (b ∷ bs) e h = elim (Option-cases (rfind newline (b ∷ bs))) [
    | inl none_found ↦ elim (Bool-cases (ltb (length (b ∷ bs)) max_bytes_per_file)) [
      | inl short ↦ rw (consume-none key stat start b bs none_found (ltb→lt _ _ short)) (
          nothing (InOneRead unread) start unread
            (λ fits. ap (rfind newline) (all_read unread (b ∷ bs) e fits) ∙ none_found))
      | inr long ↦ absurd (h (full unread (b ∷ bs) e long) (ap (rfind newline) e ∙ none_found))
    ]
    | inr (i, found) ↦
        rw (consume-some key stat start b i bs found)
          (used key stat start i unread (b ∷ bs) e found)
  ]

  pub Consumed-weaken :
      {C D : Type 0} {start : ℕ} {unread : List ℕ} {r : List E × Option FileCursor}
      → (D → C)
      → Consumed C start unread r
      → Consumed D start unread r
  Consumed-weaken f c = record {
    done = c.done;
    left = c.left;
    parts = c.parts;
    whole = c.whole;
    events = c.events;
    offset = c.offset;
    complete = λ d. c.complete (f d);
  }
