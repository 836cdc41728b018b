-- ===== src/Prelude/Assoc.antt =====
-- A Python `dict` with string keys as an association list in insertion order: a write to a key
-- that is there keeps its place.
use Prim.Native.String.{String}
use mathlib.Core.Path.{◌≡◌}
use mathlib.Core.Logic.{◌≢◌}
use mathlib.Core.Bool.{Bool, true, false, ◌||◌}
use mathlib.Core.Option.{Option, none, some}
use mathlib.Core.List.{List, [], ◌∷◌}
use native.Mathlib.Omega.{arith}
use text.Mathlib.Text.{◌==◌}
use text.Mathlib.TextEquality.{eq_iff}
use text.Mathlib.TextPositions.{eq_refl}
use shadow_trust_security.Prelude.Tests.{if◌then◌else◌}

-- `k in xs` for a list, set or tuple of strings.
abbrev pub elem : String → List String → Bool
elem k [] = false
elem k (x ∷ xs) = (x == k) || elem k xs

abbrev pub Dict {ℓ} : Type ℓ → Type ℓ
Dict V = List (String × V)

module _ {ℓ} {V : Type ℓ} where
  -- `d.get(key)`
  unfoldable pub get : Dict V → String → Option V
  get [] key = none
  get ((name, value) ∷ rest) key = elim (name == key) [ true ↦ some value | false ↦ get rest key ]

  -- `d[key] = value`
  unfoldable pub put : Dict V → String → V → Dict V
  put [] key value = (key, value) ∷ []
  put ((name, old) ∷ rest) key value = elim (name == key) [
    | true ↦ (name, value) ∷ rest
    | false ↦ (name, old) ∷ put rest key value
  ]

  -- A read after a write.
  pub get-put :
      (d : Dict V) (key other : String) (value : V)
      → get (put d key value) other ≡ (if key == other then some value else get d other)
  unfolding get put
  get-put [] key other value = ground arith
  get-put ((name, old) ∷ rest) key other value =
      let ih = get-put rest key other value in
      ground (arith, ih, eq_iff name key, eq_iff name other, eq_iff key other)

  pub get-put_self :
      (d : Dict V) (key : String) (value : V) → get (put d key value) key ≡ some value
  get-put_self d key value = simp (get-put, eq_refl)

  pub get-put_ne :
      (d : Dict V) (key other : String) (value : V)
      → key ≢ other
      → get (put d key value) other ≡ get d other
  get-put_ne d key other value n = rw get-put (ground (arith, eq_iff key other))
