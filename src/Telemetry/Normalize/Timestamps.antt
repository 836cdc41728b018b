-- ===== src/Telemetry/Normalize/Timestamps.antt =====
-- Which records make `normalize` raise.
use shadow_trust_security.Prelude.{
  ℕ, ◌+◌, ◌≤◌, ◌<◌, ◌≡◌, ◌⊎◌, refl, sym, ◌∙◌, String, true, false, Option, none, some, List, [],
  ◌∷◌, arith, Bool-cases, Option-cases, inl, inr,
}
use shadow_trust_security.Telemetry.Normalize.Event.{
  built, is_dropped_loopback, event_type_of, is_heartbeat, parse, formats, by_format, zone_spelled,
  parse_timestamp, to_utc, dropped, raised, stored, Libraries, Datetime, normalize, finish,
}
use shadow_trust_security.Telemetry.Normalize.Json.{
  text, or_else, str, first, dict_of, Members, Json, Python,
}
use shadow_trust_security.Telemetry.Text.{strip}
use shadow_trust_security.Telemetry.Normalize.Parsers.{Parsed}
use shadow_trust_security.Telemetry.Normalize.Sensor.{detect_sensor}

-- A date whose time in UTC is before year 1 or after year 9999.
abbrev pub IsOutsideYears : Datetime → Type 0
IsOutsideYears d =
    (size : ℕ) × (((d.offset ≡ some (true, size)) × (315537897600000000 ≤ d.local + size))
      ⊎ ((d.offset ≡ some (false, size)) × (d.local < size)))

-- The library reads the date from the text, as ISO or in some format.
abbrev pub IsRead : Libraries → List ℕ → Datetime → Type 0
IsRead lib cs d =
    (lib.fromisoformat (zone_spelled cs) ≡ some d) ⊎ ((f : String) × (lib.strptime f cs ≡ some d))

to_utc-eq_none : (d : Datetime) → to_utc d ≡ none → IsOutsideYears d
to_utc-eq_none d h = elim (Option-cases d.offset) [
  | inl e ↦ let at : to_utc d ≡ some d.local = rw e refl in absurd (cc)
  | inr ((true, size), e) ↦ (size, inl (e, west d.local size (sym (rw e refl) ∙ h)))
  | inr ((false, size), e) ↦ (size, inr (e, east d.local size (sym (rw e refl) ∙ h)))
]
  where
    west :
        (local size : ℕ)
        → to_utc (record { local = local; offset = some (true, size) }) ≡ none
        → 315537897600000000 ≤ local + size
    west local size h = ground arith

    east :
        (local size : ℕ)
        → to_utc (record { local = local; offset = some (false, size) }) ≡ none
        → local < size
    east local size h = ground arith

by_format-strptime :
    (lib : Libraries) (cs : List ℕ) (fs : List String) (d : Datetime)
    → by_format lib cs fs ≡ some d
    → (f : String) × (lib.strptime f cs ≡ some d)
by_format-strptime lib cs [] d h = absurd (ground arith)
by_format-strptime lib cs (f ∷ fs) d h = elim (Option-cases (lib.strptime f cs)) [
  | inl e ↦
      let at : by_format lib cs (f ∷ fs) ≡ by_format lib cs fs = rw (by_format, e) refl in
      by_format-strptime lib cs fs d (sym at ∙ h)
  | inr (d', e) ↦
      let at : by_format lib cs (f ∷ fs) ≡ some d' = rw (by_format, e) refl in (f, e ∙ sym at ∙ h)
]

-- What `parse_timestamp` does with a text, stripped.
abbrev read_text : Libraries → List ℕ → Option ℕ
read_text lib [] = some lib.utcnow
read_text lib (c ∷ cs) = elim (lib.fromisoformat (zone_spelled (c ∷ cs))) [
  | some d ↦ to_utc d
  | none ↦ elim (by_format lib (c ∷ cs) formats) [ some d ↦ to_utc d | none ↦ some lib.utcnow ]
]

read_text-eq_none :
    (lib : Libraries) (cs : List ℕ)
    → read_text lib cs ≡ none
    → (d : Datetime) × IsRead lib cs d × IsOutsideYears d
read_text-eq_none lib [] h = absurd (ground arith)
read_text-eq_none lib (c ∷ cs) h = elim (Option-cases (lib.fromisoformat (zone_spelled (c ∷ cs)))) [
  | inr (d, e) ↦
      let at : read_text lib (c ∷ cs) ≡ to_utc d = rw (read_text, e) refl in
      (d, inl e, to_utc-eq_none d (sym at ∙ h))
  | inl e ↦ elim (Option-cases (by_format lib (c ∷ cs) formats)) [
    | inr (d, e') ↦
        let at : read_text lib (c ∷ cs) ≡ to_utc d = rw (read_text, e, e') refl in
        (d, inr (by_format-strptime lib (c ∷ cs) formats d e'), to_utc-eq_none d (sym at ∙ h))
    | inl e' ↦
        let at : read_text lib (c ∷ cs) ≡ some lib.utcnow = rw (read_text, e, e') refl in
        absurd (cc)
  ]
]

parse_timestamp-read_text :
    (py : Python) (lib : Libraries) (v : Json) (cs : List ℕ)
    → strip (str py (or_else v (text []))) ≡ cs
    → parse_timestamp py lib v ≡ read_text lib cs
unfolding parse_timestamp
parse_timestamp-read_text py lib v [] e = rw (parse_timestamp, e) refl
parse_timestamp-read_text py lib v (c ∷ cs) e = rw (parse_timestamp, e) refl

-- The text of a record's time.
abbrev pub time_text : Python → Members → List ℕ
time_text py raw =
    strip
      (str py (or_else (first raw ("timestamp" ∷ "time" ∷ "date" ∷ "@timestamp" ∷ [])) (text [])))

-- The record's time is a date that UTC cannot write.
abbrev pub HasBadTime : Python → Libraries → Members → Type 0
HasBadTime py lib raw = (d : Datetime) × IsRead lib (time_text py raw) d × IsOutsideYears d

finish-raised :
    (py : Python) (lib : Libraries) (raw : Members) (sensor : String) (p : Parsed)
    → finish py lib raw sensor p ≡ raised
    → HasBadTime py lib raw
unfolding finish
finish-raised py lib raw sensor p h =
    let time = first raw ("timestamp" ∷ "time" ∷ "date" ∷ "@timestamp" ∷ []) in
    elim (Bool-cases (is_heartbeat py (event_type_of p))) [
      | inl y ↦ let at : finish py lib raw sensor p ≡ dropped = rw (finish, y) refl in absurd (cc)
      | inr n ↦ elim (Option-cases p.source_ip) [
        | inl e ↦
            let at : finish py lib raw sensor p ≡ dropped = rw (finish, n, e) refl in absurd (cc)
        | inr (ip, found) ↦ elim (Bool-cases (is_dropped_loopback lib ip)) [
          | inl y ↦
              let at : finish py lib raw sensor p ≡ dropped = rw (finish, n, found, y) refl in
              absurd (cc)
          | inr m ↦ elim (Option-cases (parse_timestamp py lib time)) [
            | inl e ↦
                read_text-eq_none lib (time_text py raw)
                  (sym (parse_timestamp-read_text py lib time (time_text py raw) refl) ∙ e)
            | inr (t, e) ↦
                let at : finish py lib raw sensor p ≡ stored (built py lib raw sensor p ip t) =
                  rw (finish, n, found, m, e) refl in
                absurd (cc)
          ]
        ]
      ]
    ]

-- `normalize` raises for one kind of JSON value only: an object whose time (the first of its four
-- timestamp fields that has one) is a text from which the library reads a date that has a zone and
-- lies before year 1 or after year 9999 in UTC. A parser that fails, a missing field and a time that
-- is not readable never make it raise.
pub normalize-raised :
    (py : Python) (lib : Libraries) (v : Json)
    → normalize py lib v ≡ raised
    → (raw : Members) × (dict_of v ≡ some raw) × HasBadTime py lib raw
unfolding normalize
normalize-raised py lib v h = elim (Option-cases (dict_of v)) [
  | inl e ↦ let at : normalize py lib v ≡ dropped = rw (normalize, e) refl in absurd (cc)
  | inr (raw, found) ↦ elim (Option-cases (parse py (detect_sensor py raw) raw)) [
    | inl e ↦ let at : normalize py lib v ≡ dropped = rw (normalize, found, e) refl in absurd (cc)
    | inr (p, parsed) ↦
        let at : normalize py lib v ≡ finish py lib raw (detect_sensor py raw) p =
          rw (normalize, found, parsed) refl in
        (raw, found, finish-raised py lib raw (detect_sensor py raw) p (sym at ∙ h))
  ]
]
