-- ===== src/Telemetry/Text.antt =====
-- The text operations of Python that local_source.py uses, on bytes and code points as numbers:
-- `decode("utf-8", errors="ignore")`, `splitlines`, `strip` and `rfind`.
pub mod Laws
use shadow_trust_security.Prelude.{
  ℕ, zero, suc, ◌+◌, ◌-◌, ◌*◌, Bool, true, false, not, ◌&&◌, ◌||◌, Option, none, some, List, [],
  ◌∷◌, ◌++◌, leb, ltb, ◌==◌, if◌then◌else◌, length,
}

abbrev pub newline : ℕ
newline = 10

-- The bits of a lead byte and the ranges that the bytes after it must lie in.
unfoldable pub lead : ℕ → Option (ℕ × List (ℕ × ℕ))
lead b =
    if ltb b 0x80
    then some (b, [])
    else if ltb b 0xc2
    then none
    else if ltb b 0xe0
    then some (b - 0xc0, (0x80, 0xbf) ∷ [])
    else if ltb b 0xf0
    then some (
      b - 0xe0,
      ((if b == 0xe0 then 0xa0 else 0x80), (if b == 0xed then 0x9f else 0xbf)) ∷ (0x80, 0xbf) ∷ [],
    )
    else if ltb b 0xf5
    then some (
      b - 0xf0,
      ((if b == 0xf0 then 0x90 else 0x80), (if b == 0xf4 then 0x8f else 0xbf))
          ∷ (0x80, 0xbf)
          ∷ (0x80, 0xbf)
          ∷ [],
    )
    else none

unfoldable pub tail_fits : List (ℕ × ℕ) → List ℕ → Bool
tail_fits [] bs = true
tail_fits (r ∷ rs) [] = false
tail_fits ((lo, hi) ∷ rs) (b ∷ bs) = (leb lo b && leb b hi) && tail_fits rs bs

unfoldable pub code_point : ℕ → List (ℕ × ℕ) → List ℕ → ℕ
code_point acc [] bs = acc
code_point acc (r ∷ rs) [] = acc
code_point acc (r ∷ rs) (b ∷ bs) = code_point (acc * 64 + (b - 0x80)) rs bs

-- The code point that starts at byte `b` and the number of bytes after `b` that it takes. A byte
-- that starts no valid sequence gives no code point.
unfoldable pub sequence : ℕ → List ℕ → List ℕ × ℕ
unfolding lead tail_fits code_point
sequence b bs = elim (lead b) [
  | none ↦ ([], 0)
  | some (bits, rs) ↦ if tail_fits rs bs then (code_point bits rs bs ∷ [], length rs) else ([], 0)
]

-- The first `k` bytes belong to the code point before.
unfoldable pub decode : ℕ → List ℕ → List ℕ
unfolding sequence
decode k [] = []
decode zero (b ∷ bs) = let (out, n) = sequence b bs in out ++ decode n bs
decode (suc k) (b ∷ bs) = decode k bs

unfoldable pub is_line_break : ℕ → Bool
is_line_break c =
    (leb 10 c && leb c 13)
    || (leb 28 c && leb c 30)
    || (c == 0x85)
    || (c == 0x2028)
    || (c == 0x2029)

-- `current` is the line so far; `after_cr` says that the character before was a carriage return,
-- which makes one break with a newline.
unfoldable pub lines : Bool → List ℕ → List ℕ → List (List ℕ)
unfolding is_line_break
lines after_cr [] [] = []
lines after_cr (c ∷ current) [] = (c ∷ current) ∷ []
lines after_cr current (c ∷ cs) =
    (if is_line_break c && not (after_cr && c == newline) then current ∷ [] else [])
    ++ lines (c == 13) (if is_line_break c then [] else current ++ c ∷ []) cs

abbrev pub splitlines : List ℕ → List (List ℕ)
splitlines text = lines false [] text

unfoldable pub is_space : ℕ → Bool
is_space c =
    (leb 9 c && leb c 13)
    || (leb 28 c && leb c 32)
    || (c == 0x85)
    || (c == 0xa0)
    || (c == 0x1680)
    || (leb 0x2000 c && leb c 0x200a)
    || (c == 0x2028)
    || (c == 0x2029)
    || (c == 0x202f)
    || (c == 0x205f)
    || (c == 0x3000)

unfoldable pub lstrip : List ℕ → List ℕ
unfolding is_space
lstrip [] = []
lstrip (c ∷ cs) = let rest = lstrip cs in if is_space c then rest else c ∷ cs

unfoldable pub rstrip : List ℕ → List ℕ
unfolding is_space
rstrip [] = []
rstrip (c ∷ cs) = elim (rstrip cs) [ [] ↦ if is_space c then [] else c ∷ [] | d ∷ ds ↦ c ∷ d ∷ ds ]

unfoldable pub strip : List ℕ → List ℕ
unfolding lstrip rstrip
strip text = lstrip (rstrip text)

-- `none` is the -1 of `rfind`.
unfoldable pub rfind : ℕ → List ℕ → Option ℕ
rfind x [] = none
rfind x (b ∷ bs) = elim (rfind x bs) [
  | some i ↦ some (suc i)
  | none ↦ if b == x then some 0 else none
]
