-- ===== src/Containers/Value.antt =====
-- The Python values of the keyword arguments of `containers.run`, and the operations that the
-- policy checks make on them. A check raises ContainerPolicyError (`refused`), or another exception
-- where a value has a type that the operation does not take (`failed`).
use shadow_trust_security.Prelude.{
  ℕ, ◌+◌, ◌-◌, ◌*◌, String, Bool, true, false, not, ◌&&◌, Option, none, some, List, [], ◌∷◌, leb,
  ◌==◌, if◌then◌else◌, str_eq, elem, Dict, get,
}

pub data Value : Type 0 where
  null : Value
  bool : Bool → Value
  int : ℕ → Value
  str : String → Value
  strs : List String → Value
  dict : Dict String → Value

pub data Refusal : Type 0 where
  image network forbidden unmanaged lab_id name cpu memory capability device user cap_drop
        privileges pids identity :
      Refusal

pub data Outcome {ℓ} (A : Type ℓ) : Type ℓ where
  ok : A → Outcome A
  refused : Refusal → Outcome A
  failed : Outcome A

infixl 5 ◌>>=◌ ◌>>◌
abbrev pub ◌>>=◌ {ℓ κ} : {A : Type ℓ} {B : Type κ} → Outcome A → (A → Outcome B) → Outcome B
ok a >>= f = f a
refused r >>= f = refused r
failed >>= f = failed

abbrev pub ◌>>◌ {ℓ κ} : {A : Type ℓ} {B : Type κ} → Outcome A → Outcome B → Outcome B
m >> k = m >>= λ _. k

-- `if not condition: raise ContainerPolicyError`
abbrev pub require : Bool → Refusal → Outcome (Unit {0})
require true r = ok tt
require false r = refused r

unfoldable pub truthy : Value → Bool
truthy null = false
truthy (bool b) = b
truthy (int n) = not (n == 0)
truthy (str s) = not (str_eq s "")
truthy (strs []) = false
truthy (strs (s ∷ ss)) = true
truthy (dict []) = false
truthy (dict (e ∷ es)) = true

-- `run_kwargs.get(key)`
abbrev pub or_null : Option Value → Value
or_null none = null
or_null (some v) = v

unfoldable pub value_at : Dict Value → String → Value
value_at kwargs key = or_null (get kwargs key)

-- `a or b`
unfoldable pub or_else : Value → Value → Value
unfolding truthy
or_else a b = if truthy a then a else b

-- `v == text` for a text
unfoldable pub is_text : Value → String → Bool
is_text (str s) t = str_eq s t
is_text _ t = false

abbrev pub is_null : Value → Bool
is_null null = true
is_null (bool b) = false
is_null (int n) = false
is_null (str s) = false
is_null (strs ss) = false
is_null (dict d) = false

chars : String → List String
chars String.[] = []
chars (String.◌∷◌ c s) = String.◌∷◌ c String.[] ∷ chars s

keys : Dict String → List String
keys [] = []
keys ((k, v) ∷ d) = k ∷ keys d

-- What iterating over `v or []` gives.
unfoldable pub items : Value → Outcome (List String)
unfolding chars keys
items null = ok []
items (bool b) = if b then failed else ok []
items (int n) = if n == 0 then ok [] else failed
items (str s) = ok (chars s)
items (strs ss) = ok ss
items (dict d) = ok (keys d)

-- `(v or {})`, on which `.get` is called.
unfoldable pub mapping : Value → Outcome (Dict String)
unfolding truthy
mapping (dict d) = ok d
mapping null = ok []
mapping (bool b) = if b then failed else ok []
mapping (int n) = if n == 0 then ok [] else failed
mapping (str s) = if str_eq s "" then ok [] else failed
mapping (strs []) = ok []
mapping (strs (s ∷ ss)) = failed

-- `(v or "")`, on which `.startswith` is called.
unfoldable pub text_of : Value → Outcome String
text_of (str s) = ok s
text_of null = ok ""
text_of (bool b) = if b then failed else ok ""
text_of (int n) = if n == 0 then ok "" else failed
text_of (strs []) = ok ""
text_of (strs (s ∷ ss)) = failed
text_of (dict []) = ok ""
text_of (dict (e ∷ es)) = failed

-- `str(v or "")`; `none` stands for the text of a value that is no text, which is none of the texts
-- that the checks compare with and does not end in "g".
unfoldable pub shown : Value → Option String
unfolding truthy
shown (str s) = some s
shown null = some ""
shown (bool b) = if b then none else some ""
shown (int n) = if n == 0 then some "" else none
shown (strs []) = some ""
shown (strs (s ∷ ss)) = none
shown (dict []) = some ""
shown (dict (e ∷ es)) = none

-- `labels.get(key)` as a text, "" where it is missing: the checks compare it with a text that is
-- not empty or ask whether it is empty.
unfoldable pub label : Dict String → String → String
label labels key = elim (get labels key) [ none ↦ "" | some v ↦ v ]

-- `xs <= ys` on sets of texts.
unfoldable pub subset : List String → List String → Bool
subset [] ys = true
subset (x ∷ xs) ys = elem x ys && subset xs ys

abbrev pub is_empty {ℓ} : {A : Type ℓ} → List A → Bool
is_empty [] = true
is_empty (x ∷ xs) = false

-- The number before a final "g", if the text is digits and then "g". The digits are ASCII: other
-- characters that `str.isdigit` takes are outside the model.
unfoldable pub gigabytes : ℕ → Bool → List ℕ → Option ℕ
gigabytes acc some_digit [] = none
gigabytes acc some_digit (c ∷ []) = if some_digit && c == 103 then some acc else none
gigabytes acc some_digit (c ∷ d ∷ cs) =
    let rest = gigabytes (acc * 10 + (c - 48)) true (d ∷ cs) in
    if leb 48 c && leb c 57 then rest else none
