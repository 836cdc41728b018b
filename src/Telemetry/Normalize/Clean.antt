-- ===== src/Telemetry/Normalize/Clean.antt =====
-- What the parsers give: addresses that are no placeholders and ports in range.
use shadow_trust_security.Prelude.{
  [], ◌∷◌, str_eq, leb, ◌&&◌, ltb, if◌then◌else◌, ℕ, ◌≡◌, refl, sym, ◌∙◌, subst, String, Bool, true,
  false, Option, none, some, List, arith, Bool-cases, Option-cases, inl, inr, ◌<◌, ◌≤◌,
}
use shadow_trust_security.Telemetry.Normalize.Json.{
  str, Python, Json, Members, Number, number, invalid, overflow, is_blank, int, null, text,
}
use shadow_trust_security.Telemetry.Normalize.Endpoint.{
  clean_ip, clean_port, in_range, empty_ips, search_connection,
}
use shadow_trust_security.Telemetry.Normalize.Sensor.{is_word}
use shadow_trust_security.Telemetry.Text.{strip}
use shadow_trust_security.Telemetry.Normalize.Parsers.{
  parse_generic, with_ports, parse_honeytrap, parse_cowrie, Parsed,
}
use shadow_trust_security.Telemetry.Normalize.Dionaea.{
  dionaea_event_type, object_at, dionaea_fields, Endpoints, parse_dionaea, from_brackets, or_option,
  dionaea_endpoints,
}
use shadow_trust_security.Telemetry.Normalize.Event.{parser, parse}

-- A port, if there is one, is in 1 to 65535.
abbrev pub IsPort : Option ℕ → Type 0
IsPort none = Unit
IsPort (some port) = (0 < port) × (port ≤ 65535)

-- The texts that stand for no address.
abbrev pub placeholders : List String
placeholders = "" ∷ "0.0.0.0" ∷ "::" ∷ "None" ∷ "null" ∷ []

-- An address, if there is one, is not a placeholder.
abbrev pub IsAddress : Option (List ℕ) → Type 0
IsAddress none = Unit
IsAddress (some ip) = is_word ip placeholders ≡ false

some-injective {ℓ} : {A : Type ℓ} (a b : A) → some a ≡ some b → a ≡ b
some-injective a b e = cc

in_range-IsPort : (negative : Bool) (size : ℕ) → IsPort (in_range negative size)
in_range-IsPort true size = tt
in_range-IsPort false size = elim (Bool-cases (ltb 0 size && leb size 65535)) [
  | inl y ↦ rw y (ground arith, ground arith)
  | inr n ↦ rw n tt
]

Number-IsPort :
    (py : Python) (v : Json) (n : Number)
    → int py v ≡ n
    → is_blank v ≡ false
    → (o : Option ℕ) → clean_port py v ≡ some o
    → IsPort o
unfolding clean_port
Number-IsPort py v (number negative size) e b o h =
    let at : clean_port py v ≡ some (in_range negative size) = rw (clean_port, b, e) refl in
    let same : in_range negative size ≡ o = cc in subst IsPort same (in_range-IsPort negative size)
Number-IsPort py v invalid e b o h =
    let at : clean_port py v ≡ some none = rw (clean_port, b, e) refl in
    let same : none ≡ o = cc in subst IsPort same tt
Number-IsPort py v overflow e b o h =
    let at : clean_port py v ≡ none = rw (clean_port, b, e) refl in absurd (cc)

pub clean_port-IsPort :
    (py : Python) (v : Json) (o : Option ℕ) → clean_port py v ≡ some o → IsPort o
unfolding clean_port
clean_port-IsPort py v o h = elim (Bool-cases (is_blank v)) [
  | inl y ↦
      let at : clean_port py v ≡ some none = rw (clean_port, y) refl in
      let same : none ≡ o = cc in subst IsPort same tt
  | inr n ↦ Number-IsPort py v (int py v) refl n o h
]

-- What is made from the ports has what is shown of it for ports in range.
pub with_ports-all {ℓ κ} :
    {A : Type ℓ} (P : A → Type κ) (py : Python) (s d : Json)
    (build : Option ℕ → Option ℕ → Option A)
    → ((sp dp : Option ℕ) → IsPort sp → IsPort dp → (a : A) → build sp dp ≡ some a → P a)
    → (a : A) → with_ports py s d build ≡ some a
    → P a
unfolding with_ports
with_ports-all P py s d build made a h = elim (Option-cases (clean_port py s)) [
  | inl e ↦ let at : with_ports py s d build ≡ none = rw (with_ports, e) refl in absurd (cc)
  | inr (sp, e) ↦ elim (Option-cases (clean_port py d)) [
    | inl e' ↦ let at : with_ports py s d build ≡ none = rw (with_ports, e, e') refl in absurd (cc)
    | inr (dp, e') ↦
        let at : with_ports py s d build ≡ build sp dp = rw (with_ports, e, e') refl in
        made sp dp (clean_port-IsPort py s sp e) (clean_port-IsPort py d dp e') a (sym at ∙ h)
  ]
]

stripped-IsAddress : (ip : List ℕ) → IsAddress (if is_word ip empty_ips then none else some ip)
stripped-IsAddress ip = elim (Bool-cases (is_word ip empty_ips)) [
  | inl y ↦ rw y tt
  | inr n ↦ rw n n
]

pub clean_ip-IsAddress : (py : Python) (v : Json) → IsAddress (clean_ip py v)
unfolding clean_ip
clean_ip-IsAddress py null = tt
clean_ip-IsAddress py v = stripped-IsAddress (strip (str py v))

-- A parsed record with usable endpoints.
pub record IsClean (p : Parsed) : Type 0 where
  pub source_ip : IsAddress p.source_ip
  pub source_port : IsPort p.source_port
  pub destination_ip : IsAddress p.destination_ip
  pub destination_port : IsPort p.destination_port

fields-IsClean :
    (p q : Parsed)
    → some p ≡ some q
    → IsAddress p.source_ip
    → IsPort p.source_port
    → IsAddress p.destination_ip
    → IsPort p.destination_port
    → IsClean q
fields-IsClean p q e source_ip source_port destination_ip destination_port =
    subst IsClean (some-injective p q e) (record {
      source_ip = source_ip;
      source_port = source_port;
      destination_ip = destination_ip;
      destination_port = destination_port;
    })

-- The endpoints of dionaea's parser are usable as well.
record IsUsable (e : Endpoints) : Type 0 where
  source_ip : IsAddress e.source_ip
  source_port : IsPort e.source_port
  destination_ip : IsAddress e.destination_ip
  destination_port : IsPort e.destination_port

or_option-IsAddress :
    (a b : Option (List ℕ)) → IsAddress a → IsAddress b → IsAddress (or_option a b)
or_option-IsAddress none b is_a is_b = is_b
or_option-IsAddress (some ip) b is_a is_b = is_a

pub or_option-IsPort : (a b : Option ℕ) → IsPort a → IsPort b → IsPort (or_option a b)
or_option-IsPort none b is_a is_b = is_b
or_option-IsPort (some port) b is_a is_b = is_a

from_brackets-IsUsable :
    (py : Python) (event_type : List ℕ) (e e' : Endpoints)
    → IsUsable e
    → from_brackets py event_type e ≡ some e'
    → IsUsable e'
unfolding from_brackets
from_brackets-IsUsable py event_type e e' is_e h =
    elim (Option-cases (search_connection py event_type)) [
      | inl nothing ↦
          let at : from_brackets py event_type e ≡ some e = rw (from_brackets, nothing) refl in
          subst IsUsable (some-injective e e' (sym at ∙ h)) is_e
      | inr (m, found) ↦ elim (Option-cases (clean_port py (text m.local_port))) [
        | inl l ↦
            let at : from_brackets py event_type e ≡ none = rw (from_brackets, found, l) refl in
            absurd (cc)
        | inr (local_port, l) ↦ elim (Option-cases (clean_port py (text m.remote_port))) [
          | inl r ↦
              let at : from_brackets py event_type e ≡ none =
                rw (from_brackets, found, l, r) refl in
              absurd (cc)
          | inr (remote_port, r) ↦
              let filled : Endpoints = record {
                source_ip = or_option e.source_ip (clean_ip py (text m.remote_ip));
                source_port = or_option e.source_port remote_port;
                destination_ip = or_option e.destination_ip (clean_ip py (text m.local_ip));
                destination_port = or_option e.destination_port local_port;
              } in
              let at : from_brackets py event_type e ≡ some filled =
                rw (from_brackets, found, l, r) refl in
              subst IsUsable (some-injective filled e' (sym at ∙ h)) (record {
                source_ip = or_option-IsAddress _ _ is_e.source_ip (clean_ip-IsAddress py _);
                source_port =
                    or_option-IsPort _ _ is_e.source_port
                      (clean_port-IsPort py (text m.remote_port) _ r);
                destination_ip =
                    or_option-IsAddress _ _ is_e.destination_ip (clean_ip-IsAddress py _);
                destination_port =
                    or_option-IsPort _ _ is_e.destination_port
                      (clean_port-IsPort py (text m.local_port) _ l);
              })
        ]
      ]
    ]

completed-IsUsable :
    (py : Python) (event_type : List ℕ) (missing : Bool) (e e' : Endpoints)
    → IsUsable e
    → (if missing then from_brackets py event_type e else some e) ≡ some e'
    → IsUsable e'
completed-IsUsable py event_type true e e' is_e h = from_brackets-IsUsable py event_type e e' is_e h
completed-IsUsable py event_type false e e' is_e h = subst IsUsable (some-injective e e' h) is_e

dionaea_endpoints-IsUsable :
    (py : Python) (event connection : Members) (event_type : List ℕ) (e : Endpoints)
    → dionaea_endpoints py event connection event_type ≡ some e
    → IsUsable e
unfolding dionaea_endpoints
dionaea_endpoints-IsUsable py event connection event_type e h =
    with_ports-all IsUsable py _ _ _
      (λ sp dp is_sp is_dp a made.
        completed-IsUsable py event_type _ _ a
          (record {
            source_ip = clean_ip-IsAddress py _;
            source_port = is_sp;
            destination_ip = clean_ip-IsAddress py _;
            destination_port = is_dp;
          })
          made)
      e h

module _ (py : Python) (event : Members) (p : Parsed) where
  parse_cowrie-IsClean : parse_cowrie py event ≡ some p → IsClean p
  unfolding parse_cowrie
  parse_cowrie-IsClean h =
      with_ports-all IsClean py _ _ _
        (λ sp dp is_sp is_dp a made.
          fields-IsClean _ a made (clean_ip-IsAddress py _) is_sp (clean_ip-IsAddress py _) is_dp)
        p h

  parse_honeytrap-IsClean : parse_honeytrap py event ≡ some p → IsClean p
  unfolding parse_honeytrap
  parse_honeytrap-IsClean h =
      with_ports-all IsClean py _ _ _
        (λ sp dp is_sp is_dp a made.
          fields-IsClean _ a made (clean_ip-IsAddress py _) is_sp (clean_ip-IsAddress py _) is_dp)
        p h

  parse_generic-IsClean : parse_generic py event ≡ some p → IsClean p
  unfolding parse_generic
  parse_generic-IsClean h =
      with_ports-all IsClean py _ _ _
        (λ sp dp is_sp is_dp a made.
          fields-IsClean _ a made (clean_ip-IsAddress py _) is_sp (clean_ip-IsAddress py _) is_dp)
        p h

  parse_dionaea-IsClean : parse_dionaea py event ≡ some p → IsClean p
  unfolding parse_dionaea dionaea_fields
  parse_dionaea-IsClean h =
      let connection = object_at "connection" event in
      let event_type = dionaea_event_type py event connection in
      elim (Option-cases (dionaea_endpoints py event connection event_type)) [
        | inl e ↦ let at : parse_dionaea py event ≡ none = rw (parse_dionaea, e) refl in absurd (cc)
        | inr (e, found) ↦
            let at : parse_dionaea py event
                ≡ some (dionaea_fields py event connection event_type e) =
              rw (parse_dionaea, found) refl in
            let is_e = dionaea_endpoints-IsUsable py event connection event_type e found in
            fields-IsClean _ p (sym at ∙ h) is_e.source_ip is_e.source_port is_e.destination_ip
              is_e.destination_port
      ]

  pub parse-IsClean : (sensor : String) → parse py sensor event ≡ some p → IsClean p
  unfolding parse parser
  parse-IsClean sensor h = elim (Option-cases (parser sensor py event)) [
    | inl e ↦
        let at : parse py sensor event ≡ parse_generic py event = rw (parse, e) refl in
        parse_generic-IsClean (sym at ∙ h)
    | inr (q, e) ↦
        let at : parse py sensor event ≡ some q = rw (parse, e) refl in
        let run : parser sensor py event ≡ some p = e ∙ sym at ∙ h in
        elim (Bool-cases (str_eq sensor "cowrie")) [
          | inl y ↦ parse_cowrie-IsClean (ground arith)
          | inr n ↦ elim (Bool-cases (str_eq sensor "dionaea")) [
            | inl y ↦ parse_dionaea-IsClean (ground arith)
            | inr m ↦ elim (Bool-cases (str_eq sensor "honeytrap")) [
              | inl y ↦ parse_honeytrap-IsClean (ground arith)
              | inr k ↦ parse_generic-IsClean (ground arith)
            ]
          ]
        ]
  ]
