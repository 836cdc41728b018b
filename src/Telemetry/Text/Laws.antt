-- ===== src/Telemetry/Text/Laws.antt =====
-- Decoding and splitting go piece by piece where the pieces are cut behind a newline.
use shadow_trust_security.Prelude.{
  ℕ, zero, suc, ◌+◌, ◌-◌, ◌*◌, ◌≤◌, ◌<◌, ◌≡◌, refl, false, ap, sym, ◌∙◌, Bool, true, none, some,
  List, [], ◌∷◌, ◌++◌, arith, ◌==◌, if◌then◌else◌, length, take, append-nil, append_assoc,
  Bool-cases, Option-cases, inl, inr,
}
use shadow_trust_security.Telemetry.Text.{
  newline, lead, tail_fits, code_point, sequence, decode, lines, splitlines, rfind, is_line_break,
}

-- No range admits a newline.
abbrev AboveNewline : List (ℕ × ℕ) → Type 0
AboveNewline [] = Unit
AboveNewline (r ∷ rs) = (newline < r.0) × AboveNewline rs

lead-AboveNewline : (b bits : ℕ) (rs : List (ℕ × ℕ)) → lead b ≡ some (bits, rs) → AboveNewline rs
unfolding lead
lead-AboveNewline b bits [] h = tt
lead-AboveNewline b bits (r ∷ []) h = ground arith
lead-AboveNewline b bits (r ∷ s ∷ []) h = ground arith
lead-AboveNewline b bits (r ∷ s ∷ t ∷ []) h = ground arith
lead-AboveNewline b bits (r ∷ s ∷ t ∷ u ∷ rs) h = absurd (ground arith)

tail_fits-cut :
    (rs : List (ℕ × ℕ)) (xs ys : List ℕ)
    → AboveNewline rs
    → tail_fits rs (xs ++ newline ∷ ys) ≡ tail_fits rs (xs ++ newline ∷ [])
unfolding tail_fits
tail_fits-cut [] xs ys h = refl
tail_fits-cut (r ∷ rs) [] ys h = ground arith
tail_fits-cut (r ∷ rs) (x ∷ xs) ys h = ground (arith, tail_fits-cut rs xs ys h.1)

tail_fits-length :
    (rs : List (ℕ × ℕ)) (xs ys : List ℕ)
    → AboveNewline rs
    → tail_fits rs (xs ++ newline ∷ ys) ≡ true
    → length rs ≤ length xs
unfolding tail_fits
tail_fits-length [] xs ys h t = omega arith
tail_fits-length (r ∷ rs) [] ys h t = ground arith
tail_fits-length (r ∷ rs) (x ∷ xs) ys h t = ground (arith, tail_fits-length rs xs ys h.1)

code_point-cut :
    (acc : ℕ) (rs : List (ℕ × ℕ)) (xs ys zs : List ℕ)
    → length rs ≤ length xs
    → code_point acc rs (xs ++ ys) ≡ code_point acc rs (xs ++ zs)
unfolding code_point
code_point-cut acc [] xs ys zs h = refl
code_point-cut acc (r ∷ rs) [] ys zs h = absurd (omega arith)
code_point-cut acc (r ∷ rs) (x ∷ xs) ys zs h =
    code_point-cut (acc * 64 + (x - 0x80)) rs xs ys zs (omega arith)

-- A code point that starts before a newline does not reach past it.
sequence-cut :
    (b : ℕ) (xs ys : List ℕ)
    → (sequence b (xs ++ newline ∷ ys) ≡ sequence b (xs ++ newline ∷ []))
      × ((sequence b (xs ++ newline ∷ [])).1 ≤ length xs)
unfolding sequence
sequence-cut b xs ys = elim (Option-cases (lead b)) [
  | inl e ↦ rw (e, sequence) (refl, omega arith)
  | inr ((bits, rs), e) ↦
      let above = lead-AboveNewline b bits rs e in
      elim (Bool-cases (tail_fits rs (xs ++ newline ∷ []))) [
        | inl fits ↦
            let room = tail_fits-length rs xs [] above fits in
            rw (e, tail_fits-cut rs xs ys above, fits, sequence)
              (
                ap (λ c. (c ∷ [], length rs))
                    (code_point-cut bits rs xs (newline ∷ ys) (newline ∷ []) room),
                room,
              )
        | inr bad ↦ rw (e, tail_fits-cut rs xs ys above, bad, sequence) (refl, omega arith)
      ]
]

glue {ℓ} : {A : Type ℓ} (e a b c : List A) → a ≡ b ++ c → e ++ a ≡ (e ++ b) ++ c
glue e a b c h = ap (λ r. e ++ r) h ∙ sym (append_assoc e b c)

pub decode-append :
    (k : ℕ) (xs ys : List ℕ)
    → k ≤ length xs
    → decode k (xs ++ newline ∷ ys) ≡ decode k (xs ++ newline ∷ []) ++ decode 0 ys
unfolding decode
decode-append zero [] ys h = refl
decode-append (suc k) [] ys h = absurd (omega arith)
decode-append (suc k) (x ∷ xs) ys h = decode-append k xs ys (omega arith)
decode-append zero (x ∷ xs) ys h =
    let (same, room) = sequence-cut x xs ys in
    let (out, n) = sequence x (xs ++ newline ∷ []) in
    rw same (
      ap (λ r. out ++ r) (decode-append n xs ys room)
      ∙ sym (append_assoc out (decode n (xs ++ newline ∷ [])) (decode 0 ys)))

decode_ends :
    (k : ℕ) (xs : List ℕ)
    → k ≤ length xs
    → (zs : List ℕ) × (decode k (xs ++ newline ∷ []) ≡ zs ++ newline ∷ [])
unfolding decode
decode_ends zero [] h = ([], refl)
decode_ends (suc k) [] h = absurd (omega arith)
decode_ends (suc k) (x ∷ xs) h = decode_ends k xs (omega arith)
decode_ends zero (x ∷ xs) h =
    let (same, room) = sequence-cut x xs [] in
    let (out, n) = sequence x (xs ++ newline ∷ []) in
    let (zs, ends) = decode_ends n xs room in (out ++ zs, glue out _ zs (newline ∷ []) ends)

pub lines-append :
    (after_cr : Bool) (current xs ys : List ℕ)
    → lines after_cr current (xs ++ newline ∷ ys)
      ≡ lines after_cr current (xs ++ newline ∷ []) ++ splitlines ys
unfolding lines
lines-append after_cr current [] ys = simp append-nil
lines-append after_cr current (x ∷ xs) ys =
    glue _ _ _ (splitlines ys)
      (lines-append (x == 13) (if is_line_break x then [] else current ++ x ∷ []) xs ys)

last_here : (t : Bool) {i : ℕ} → (if t then some 0 else none) ≡ some i → (t ≡ true) × (i ≡ 0)
last_here t h = ground arith

-- Up to and with the last newline, a text ends in a newline.
pub rfind-ends :
    (bs : List ℕ) (i : ℕ)
    → rfind newline bs ≡ some i
    → (xs : List ℕ) × (take (suc i) bs ≡ xs ++ newline ∷ [])
unfolding rfind
rfind-ends [] i h = absurd (ground arith)
rfind-ends (b ∷ bs) i h = elim (Option-cases (rfind newline bs)) [
  | inl none_left ↦
      let (found, first) = last_here (b == newline) (rw none_left at h) in
      rw first ([], ground arith)
  | inr (j, e) ↦
      let same : suc j ≡ i = ground arith in
      let (xs, ends) = rfind-ends bs j e in rw (← same) (b ∷ xs, ap (λ r. b ∷ r) ends)
]

-- The lines of a text whose first part ends in a newline are those of the parts.
pub lines-decode-append :
    (xs ys : List ℕ)
    → splitlines (decode 0 ((xs ++ newline ∷ []) ++ ys))
      ≡ splitlines (decode 0 (xs ++ newline ∷ [])) ++ splitlines (decode 0 ys)
lines-decode-append xs ys =
    let (zs, ends) = decode_ends 0 xs (omega arith) in
    rw (append_assoc xs (newline ∷ []) ys, decode-append 0 xs ys (omega arith), ends)
      (rw (append_assoc zs (newline ∷ []) (decode 0 ys)) (lines-append false [] zs (decode 0 ys)))
