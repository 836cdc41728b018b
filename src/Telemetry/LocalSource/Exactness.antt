-- ===== src/Telemetry/LocalSource/Exactness.antt =====
-- The events of a growing log over any history of cycles.
use shadow_trust_security.Prelude.{
  ℕ, ◌≤◌, ◌≡◌, refl, ap, ap₂, sym, ◌∙◌, String, Option, none, some, List, [], ◌∷◌, ◌++◌, arith,
  length, take, drop, append-nil, append_assoc, inl, take-length-append, drop-length-append,
  length-append,
}
use shadow_trust_security.Telemetry.Text.{newline, rfind}
use shadow_trust_security.Telemetry.LocalSource.{
  max_bytes_per_file, FileCursor, events_of, read_file,
}
use shadow_trust_security.Telemetry.LocalSource.Tailing.{
  EndsLine, EndsLine-append, Consumed, offset_after, events_of-append, events_of-nil,
}
use shadow_trust_security.Telemetry.LocalSource.Cycles.{
  Growth, Tail, newer, position, LinesFit, LinesFit-prefix, IsOf, CaughtUp, newer-IsOf, seen,
  read_file-IsOf, read_file-Consumed,
}

take_done {ℓ} :
    {A : Type ℓ} (done left : List A) (n : ℕ) (all : List A)
    → all ≡ done ++ left
    → n ≡ length done
    → take n all ≡ done
take_done done left n all p e = rw (p, e) (take-length-append done left)

drop_done {ℓ} :
    {A : Type ℓ} (done left : List A) (n : ℕ) (all : List A)
    → all ≡ done ++ left
    → n ≡ length done
    → drop n all ≡ left
drop_done done left n all p e = rw (p, e) (drop-length-append done left)

-- A log that is new and was never read.
abbrev pub new_log : {E : Type 0} → Tail E
new_log = record { content = []; cursor = none; emitted = [] }

module _ {E : Type 0} (loads : List ℕ → Option E) (key ino : String) where
  unfoldable pub cycle : Tail E → Growth → Tail E
  cycle t g =
      let content = t.content ++ g.bytes in
      let (events, c) = read_file loads t.cursor (seen key ino content g) in
      record { content = content; cursor = newer t.cursor c; emitted = t.emitted ++ events }

  unfoldable pub run_cycles : Tail E → List Growth → Tail E
  unfolding cycle
  run_cycles t [] = t
  run_cycles t (g ∷ gs) = run_cycles (cycle t g) gs

  -- No `stat` is older than the read of the cycle before.
  abbrev pub Reported : Tail E → List Growth → Type 0
  Reported t [] = Unit
  Reported t (g ∷ gs) = (length t.content ≤ g.size) × Reported (cycle t g) gs

  -- Whole lines are done, with just their events emitted; the rest is still to be read.
  record IsTailed (t : Tail E) : Type 0 where
    done : List ℕ
    left : List ℕ
    parts : t.content ≡ done ++ left
    whole : EndsLine done
    events : t.emitted ≡ events_of loads done
    offset : position t.cursor ≡ length done
    same : IsOf ino t.cursor

  position-newer :
      (old new : Option FileCursor) (n : ℕ)
      → position old ≡ n
      → position (newer old new) ≡ offset_after loads n new
  position-newer old none n h = h
  position-newer old (some c) n h = refl

  advance :
      (t : Tail E) (g : Growth) (v : IsTailed t)
      → Consumed loads
          (CaughtUp g (v.done ++ (v.left ++ g.bytes)) (v.left ++ g.bytes))
          (length v.done)
          (v.left ++ g.bytes)
          (read_file loads t.cursor (seen key ino (t.content ++ g.bytes) g))
      → IsTailed (cycle t g)
  unfolding cycle
  advance t g v c = record {
    done = v.done ++ c.done;
    left = c.left;
    parts =
        ap (λ l. l ++ g.bytes) v.parts
        ∙ (append_assoc v.done v.left g.bytes
            ∙ (ap (λ l. v.done ++ l) c.parts ∙ sym (append_assoc v.done c.done c.left)));
    whole = EndsLine-append v.done c.done v.whole c.whole;
    events =
        ap₂ (λ x y. x ++ y) v.events c.events ∙ sym (events_of-append loads v.done c.done v.whole);
    offset =
        position-newer t.cursor (read_file loads t.cursor (seen key ino (t.content ++ g.bytes) g)).1
          _ v.offset
        ∙ (c.offset ∙ sym (length-append v.done c.done));
    same =
        newer-IsOf ino t.cursor (read_file loads t.cursor (seen key ino (t.content ++ g.bytes) g)).1
          v.same (read_file-IsOf loads key ino t.cursor (t.content ++ g.bytes) g);
  }

  -- What is left of the log goes on, and the file grows by it.
  IsTailed-cycle :
      (t : Tail E) (g : Growth) (v : IsTailed t)
      → length t.content ≤ g.size
      → LinesFit (t.content ++ g.bytes)
      → Consumed loads
          (CaughtUp g (v.done ++ (v.left ++ g.bytes)) (v.left ++ g.bytes))
          (length v.done)
          (v.left ++ g.bytes)
          (read_file loads t.cursor (seen key ino (t.content ++ g.bytes) g))
  IsTailed-cycle t g v size fit =
      let split : t.content ++ g.bytes ≡ v.done ++ (v.left ++ g.bytes) =
        ap (λ l. l ++ g.bytes) v.parts ∙ append_assoc v.done v.left g.bytes in
      let le : length v.done ≤ g.size =
        omega (arith, ap length v.parts, length-append v.done v.left) in
      rw split (
        read_file-Consumed loads key ino t.cursor g v.done (v.left ++ g.bytes) v.same v.offset le
          (fit v.done (v.left ++ g.bytes) split))

  content_grows :
      (t : Tail E) (gs : List Growth)
      → (more : List ℕ) × ((run_cycles t gs).content ≡ t.content ++ more)
  unfolding run_cycles
  content_grows t [] = ([], sym (append-nil t.content))
  content_grows t (g ∷ gs) =
      let (more, e) = content_grows (cycle t g) gs in
      (g.bytes ++ more, e ∙ append_assoc t.content g.bytes more)

  LinesFit-cycle :
      (t : Tail E) (g : Growth) (gs : List Growth)
      → LinesFit (run_cycles (cycle t g) gs).content
      → LinesFit (t.content ++ g.bytes)
  unfolding run_cycles
  LinesFit-cycle t g gs h =
      let (more, e) = content_grows (cycle t g) gs in
      LinesFit-prefix (t.content ++ g.bytes) more (λ xs ys p. h xs ys (e ∙ p))

  run_keeps :
      (t : Tail E) (gs : List Growth)
      → IsTailed t
      → Reported t gs
      → LinesFit (run_cycles t gs).content
      → IsTailed (run_cycles t gs)
  unfolding run_cycles
  run_keeps t [] v r h = v
  run_keeps t (g ∷ gs) v r h =
      run_keeps (cycle t g) gs (advance t g v (IsTailed-cycle t g v r.0 (LinesFit-cycle t g gs h)))
        r.1 h

  new_log-IsTailed : IsTailed new_log
  new_log-IsTailed = record {
    done = [];
    left = [];
    parts = refl;
    whole = inl refl;
    events = sym (events_of-nil loads);
    offset = refl;
    same = tt;
  }

  -- A new log is read over any number of cycles, with any bytes appended before each. If no `stat`
  -- is older than the read before it and no 8 MB of the log are without a newline, the events
  -- ingested so far are exactly those of the log's bytes before the stored offset, each once and in
  -- order, and those bytes are whole lines.
  pub tail_exact :
      (gs : List Growth)
      → Reported new_log gs
      → LinesFit (run_cycles new_log gs).content
      → let t = run_cycles new_log gs in
        (t.emitted ≡ events_of loads (take (position t.cursor) t.content))
        × EndsLine (take (position t.cursor) t.content)
  tail_exact gs r h =
      let t = run_cycles new_log gs in
      let v = run_keeps new_log gs new_log-IsTailed r h in
      let e : take (position t.cursor) t.content ≡ v.done =
        take_done v.done v.left (position t.cursor) t.content v.parts v.offset in
      rw e (v.events, v.whole)

  caught_up :
      (t : Tail E) (g : Growth) (v : IsTailed t)
      → let t' = cycle t g in
        LinesFit t'.content
        → g.size ≡ length t'.content
        → length (drop (position t.cursor) t'.content) ≤ max_bytes_per_file
        → (t'.emitted ≡ events_of loads (take (position t'.cursor) t'.content))
          × (rfind newline (drop (position t'.cursor) t'.content) ≡ none)
  unfolding cycle advance
  caught_up t g v h size small =
      let unread = v.left ++ g.bytes in
      let split : t.content ++ g.bytes ≡ v.done ++ unread =
        ap (λ l. l ++ g.bytes) v.parts ∙ append_assoc v.done v.left g.bytes in
      let now : g.size ≡ length (t.content ++ g.bytes) = size in
      let unread_is : drop (position t.cursor) (t.content ++ g.bytes) ≡ unread =
        drop_done v.done unread _ (t.content ++ g.bytes) split v.offset in
      let c = IsTailed-cycle t g v (omega (arith, now, length-append t.content g.bytes)) h in
      let v' = advance t g v c in
      let caught : CaughtUp g (v.done ++ unread) unread =
        (now ∙ ap length split, rw (← unread_is) small) in
      (
        v'.events ∙ ap (events_of loads) (sym (take_done v'.done v'.left _ _ v'.parts v'.offset)),
        rw (drop_done v'.done v'.left _ _ v'.parts v'.offset) (c.complete caught),
      )

  -- After such a history, a cycle whose `stat` gives the size that the log has, with no more than
  -- 8 MB unread, leaves no complete line unread: behind the stored offset there is no newline.
  pub tail_complete :
      (gs : List Growth) (g : Growth)
      → Reported new_log gs
      → let t = run_cycles new_log gs in
        let t' = cycle t g in
        LinesFit t'.content
        → g.size ≡ length t'.content
        → length (drop (position t.cursor) t'.content) ≤ max_bytes_per_file
        → (t'.emitted ≡ events_of loads (take (position t'.cursor) t'.content))
          × (rfind newline (drop (position t'.cursor) t'.content) ≡ none)
  unfolding cycle
  tail_complete gs g r h size small =
      let t = run_cycles new_log gs in
      caught_up t g (run_keeps new_log gs new_log-IsTailed r (LinesFit-prefix t.content g.bytes h))
        h size small
