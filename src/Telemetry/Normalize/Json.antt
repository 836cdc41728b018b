-- ===== src/Telemetry/Normalize/Json.antt =====
-- The values of json.loads, and what backend/app/services/telemetry/normalize.py asks of one: its
-- truth, its text, its number, and what it has under a key. Texts are lists of code points.
use shadow_trust_security.Prelude.{
  [], ◌∷◌, ◌&&◌, str_eq, ◌==◌, none, some, not, ◌∷◌, true, false, String, codes, List, Bool, Option,
  if◌then◌else◌, ℕ,
}

infixr 67 ◌⨾◌
-- A float by its whole part and the rest of it.
pub data Real : Type 0 where
  finite : Bool → ℕ → ℕ → Real
  infinite : Bool → Real
  nan : Real

-- An integer has whether it is negative, and its size. An object has its members in order.
mutual
  pub data Json : Type 0 where
    null : Json
    boolean : Bool → Json
    integer : Bool → ℕ → Json
    real : Real → Json
    text : List ℕ → Json
    array : Items → Json
    object : Members → Json

  pub data Items : Type 0 where
    end : Items
    ◌⨾◌ : Json → Items → Items

  pub data Members : Type 0 where
    done : Members
    member : String → Json → Members → Members

-- What the code relies on beyond ASCII and beyond texts: `str` of a number, list or object, `int`
-- of a text, and of a character outside ASCII
-- what `lower` makes of it and whether it is a digit.
pub record Python : Type 0 where
  pub repr : Json → List ℕ
  pub int_text : List ℕ → Option (Bool × ℕ)
  pub lower_other : ℕ → List ℕ
  pub digit_other : ℕ → Bool

-- `key in event`, with its value.
abbrev pub member_of : String → Members → Option Json
member_of key done = none
member_of key (member name v ms) = if str_eq key name then some v else member_of key ms

-- `key in event`
abbrev pub is_present : String → Members → Bool
is_present key ms = elim (member_of key ms) [ none ↦ false | some v ↦ true ]

-- `event.get(key)`
abbrev pub value_of : String → Members → Json
value_of key ms = elim (member_of key ms) [ none ↦ null | some v ↦ v ]

abbrev pub is_real_true : Real → Bool
is_real_true (finite negative whole rest) = not ((whole == 0) && (rest == 0))
is_real_true (infinite negative) = true
is_real_true nan = true

-- Whether `if value` takes the branch.
unfoldable pub truth : Json → Bool
truth null = false
truth (boolean b) = b
truth (integer negative size) = not (size == 0)
truth (real r) = is_real_true r
truth (text []) = false
truth (text (c ∷ cs)) = true
truth (array end) = false
truth (array (v ⨾ vs)) = true
truth (object done) = false
truth (object (member k v ms)) = true

-- `a or b`
abbrev pub or_else : Json → Json → Json
or_else a b = if truth a then a else b

-- `str(value)`
unfoldable pub str : Python → Json → List ℕ
unfolding codes
str py (text cs) = cs
str py null = codes "None"
str py (boolean true) = codes "True"
str py (boolean false) = codes "False"
str py v = py.repr v

-- `value in (None, "")`
abbrev pub is_blank : Json → Bool
is_blank null = true
is_blank (text []) = true
is_blank v = false

-- `value in (None, "", [])`
abbrev pub is_empty : Json → Bool
is_empty null = true
is_empty (text []) = true
is_empty (array end) = true
is_empty v = false

-- What `int(value)` comes to: a number, a ValueError or TypeError, or the OverflowError of an
-- infinite float.
pub data Number : Type 0 where
  number : Bool → ℕ → Number
  invalid overflow : Number

unfoldable pub int : Python → Json → Number
int py null = invalid
int py (boolean true) = number false 1
int py (boolean false) = number false 0
int py (integer negative size) = number negative size
int py (real (finite negative whole rest)) = number negative whole
int py (real (infinite negative)) = overflow
int py (real nan) = invalid
int py (text cs) = elim (py.int_text cs) [
  | none ↦ invalid
  | some (negative, size) ↦ number negative size
]
int py (array vs) = invalid
int py (object ms) = invalid

-- The object that `isinstance(value, dict)` finds.
abbrev pub dict_of : Json → Option Members
dict_of (object ms) = some ms
dict_of v = none

-- `_first(event, *keys)`
unfoldable pub first : Members → List String → Json
first event [] = null
first event (key ∷ keys) = elim (member_of key event) [
  | none ↦ first event keys
  | some v ↦ if is_empty v then first event keys else v
]

-- The first child that is there: `none` is that the search goes on.
abbrev pub child : Members → List String → Option Json
child nested [] = none
child nested (key ∷ keys) =
    if is_empty (value_of key nested) then child nested keys else some (value_of key nested)

-- `_nested(event, parent_keys, child_keys)`
unfoldable pub nested : Members → List String → List String → Json
nested event [] keys = null
nested event (parent ∷ parents) keys = elim (dict_of (value_of parent event)) [
  | none ↦ nested event parents keys
  | some ms ↦ elim (child ms keys) [ none ↦ nested event parents keys | some v ↦ v ]
]

-- The members with one of the keys that are not None or "", in the order of the keys.
abbrev pub selection : Members → List String → Members
selection event [] = done
selection event (key ∷ keys) = elim (member_of key event) [
  | none ↦ selection event keys
  | some v ↦ if is_blank v then selection event keys else member key v (selection event keys)
]

-- `members.setdefault(key, value)`: a new key comes last.
abbrev pub set_default : String → Json → Members → Members
set_default key v done = member key v done
set_default key v (member name w ms) =
    if str_eq key name then member name w ms else member name w (set_default key v ms)
