-- ===== src/Prelude/Codes.antt =====
-- Texts as lists of code points, and the string methods that work on these.
use Prim.Native.Char.{code}
use Prim.Native.Nat.{ℕ, ◌+◌, ◌-◌}
use Prim.Native.String.{String}
use mathlib.Core.Bool.{Bool, true, false, ◌&&◌, ◌||◌}
use mathlib.Core.List.{List, [], ◌∷◌, ◌++◌}
use shadow_trust_security.Prelude.Tests.{◌==◌, leb, if◌then◌else◌}

-- The code points of a text.
unfoldable pub codes : String → List ℕ
codes String.[] = []
codes (String.◌∷◌ c s) = code c ∷ codes s

abbrev pub same_codes : List ℕ → List ℕ → Bool
same_codes [] [] = true
same_codes [] (d ∷ ds) = false
same_codes (c ∷ cs) [] = false
same_codes (c ∷ cs) (d ∷ ds) = (c == d) && same_codes cs ds

-- `s.startswith(t)`
abbrev pub has_prefix : List ℕ → List ℕ → Bool
has_prefix cs [] = true
has_prefix [] (d ∷ ds) = false
has_prefix (c ∷ cs) (d ∷ ds) = (c == d) && has_prefix cs ds

-- `t in s`
abbrev pub contains : List ℕ → List ℕ → Bool
contains [] t = has_prefix [] t
contains (c ∷ cs) t = has_prefix (c ∷ cs) t || contains cs t

-- `lower` and `upper`, with what they make of a character outside ASCII as a parameter.
unfoldable pub lower : (ℕ → List ℕ) → List ℕ → List ℕ
lower other [] = []
lower other (c ∷ cs) =
    (if leb 128 c then other c else if leb 65 c && leb c 90 then (c + 32) ∷ [] else c ∷ [])
    ++ lower other cs

unfoldable pub upper : (ℕ → List ℕ) → List ℕ → List ℕ
upper other [] = []
upper other (c ∷ cs) =
    (if leb 128 c then other c else if leb 97 c && leb c 122 then (c - 32) ∷ [] else c ∷ [])
    ++ upper other cs
