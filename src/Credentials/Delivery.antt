-- ===== src/Credentials/Delivery.antt =====
-- Who gets a notification and by which way. The sending itself is outside: the status that
-- `send_email_notification` or `send_whatsapp_notification` gives for an address is a parameter.
use shadow_trust_security.Prelude.{
  same_codes, codes, ℕ, ◌+◌, String, Bool, true, false, not, ◌&&◌, ◌||◌, Option, none, some, List,
  [], ◌∷◌, ◌++◌, leb, if◌then◌else◌, str_eq, map, any,
}

-- The truth value of an optional text.
abbrev pub is_given : Option String → Bool
is_given none = false
is_given (some s) = not (str_eq s "")

-- `.lower()` of one character, as far as equality with "email", "whatsapp" and "both" goes.
abbrev pub lower_code : ℕ → ℕ
lower_code c = if leb 65 c && leb c 90 then c + 32 else c

-- `word in [d.lower() for d in delivery]`
unfoldable pub asks_for : String → List String → Bool
asks_for word delivery = any (λ d. same_codes (map lower_code (codes d)) (codes word)) delivery

pub record Recipient : Type 0 where
  pub email : Option String
  pub phone : Option String
  pub do_email : Bool
  pub do_whatsapp : Bool

-- An entry of `additional_recipients`; `delivery` is none or empty where it is left out.
pub record Extra : Type 0 where
  pub email : Option String
  pub phone : Option String
  pub delivery : List String

unfoldable pub recipient_of : Option String → Option String → List String → Recipient
unfolding asks_for
recipient_of email phone delivery = record {
  email = email;
  phone = phone;
  do_email = asks_for "email" delivery || asks_for "both" delivery;
  do_whatsapp = asks_for "whatsapp" delivery || asks_for "both" delivery;
}

abbrev pub delivery_or : List String → List String → List String
delivery_or [] delivery = delivery
delivery_or (d ∷ ds) delivery = d ∷ ds

unfoldable pub extras_of : List String → List Extra → List Recipient
unfolding recipient_of
extras_of delivery [] = []
extras_of delivery (x ∷ xs) =
    recipient_of x.email x.phone (delivery_or x.delivery delivery) ∷ extras_of delivery xs

unfoldable pub recipients_of :
    Option String → Option String → List String → List Extra → List Recipient
unfolding extras_of
recipients_of email phone delivery extras =
    (if is_given email || is_given phone then recipient_of email phone delivery ∷ [] else [])
    ++ extras_of delivery extras

abbrev pub method_of : Bool → Bool → String
method_of true true = "BOTH"
method_of true false = "EMAIL"
method_of false true = "WHATSAPP"
method_of false false = "NONE"

-- What is sent for the status: nothing if the way is not asked for or there is no address.
abbrev pub sent_status : (String → String) → Bool → Option String → String
sent_status send asked none = "NOT_SENT"
sent_status send asked (some to) = if asked && not (str_eq to "") then send to else "NOT_SENT"
