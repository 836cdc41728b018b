-- ===== src/Telemetry/Normalize/Fingerprint.antt =====
-- Which sensor a record is from.
use shadow_trust_security.Prelude.{
  ◌||◌, if◌then◌else◌, ℕ, ◌≡◌, refl, sym, ◌∙◌, String, true, false, none, some, List, [], ◌∷◌, ◌++◌,
  arith, Bool-cases, Option-cases, inl, inr, codes, has_prefix, contains, false≢true,
}
use shadow_trust_security.Telemetry.Normalize.Sensor.{
  detect_sensor, sensor_by_shape, named, known_sensors, lower_first,
}
use shadow_trust_security.Telemetry.Normalize.Json.{value_of, dict_of, is_present, Members, Python}
use shadow_trust_security.Telemetry.Normalize.Dionaea.{or_option}

has_prefix-append : (cs t u : List ℕ) → has_prefix cs (t ++ u) ≡ true → has_prefix cs t ≡ true
has_prefix-append cs [] u h = ground arith
has_prefix-append [] (d ∷ t) u h = h
has_prefix-append (c ∷ cs) (d ∷ t) u h =
    let tail : has_prefix cs (t ++ u) ≡ true = ground arith in
    let rest : has_prefix cs t ≡ true = has_prefix-append cs t u tail in ground arith

contains-has_prefix : (cs t : List ℕ) → has_prefix cs t ≡ true → contains cs t ≡ true
contains-has_prefix [] t h = h
contains-has_prefix (c ∷ cs) t h = rw h refl

no_prefix :
    (cs : List ℕ) → contains cs (codes "cowrie") ≡ false → has_prefix cs (codes "cowrie.") ≡ false
unfolding codes
no_prefix cs h = elim (Bool-cases (has_prefix cs (codes "cowrie."))) [
  | inr n ↦ n
  | inl y ↦ absurd (
      false≢true (
        sym h
        ∙ contains-has_prefix cs (codes "cowrie")
            (has_prefix-append cs (codes "cowrie") (codes ".") y)))
]

not_named : (cs : List ℕ) → named cs known_sensors ≡ none → contains cs (codes "cowrie") ≡ false
not_named cs h = elim (Bool-cases (contains cs (codes "cowrie"))) [
  | inr n ↦ n
  | inl y ↦ let at : named cs known_sensors ≡ some "cowrie" = rw y refl in absurd (cc)
]

-- The sensor by the names in the record, or else by its fields alone.
abbrev pub sensor_by_names_and_fields : Python → Members → String
sensor_by_names_and_fields py event =
    let declared = lower_first py event ("sensor" ∷ "system" ∷ "sensor_name" ∷ "honeypot" ∷ []) in
    let event_id = lower_first py event ("eventid" ∷ "event" ∷ "type" ∷ []) in
    elim (or_option (named declared known_sensors) (named event_id known_sensors)) [
      | some name ↦ name
      | none ↦
          if is_present "source-ip" event || is_present "destination-ip" event
          then "honeytrap"
          else elim (dict_of (value_of "connection" event)) [
            | some ms ↦ "dionaea"
            | none ↦ "unknown"
          ]
    ]

-- `detect_sensor` goes by the names alone and then by the fields: its test of the prefix "cowrie."
-- never decides, since an event id with the prefix has the name in it.
pub detect_sensor-sensor_by_names_and_fields :
    (py : Python) (event : Members) → detect_sensor py event ≡ sensor_by_names_and_fields py event
unfolding detect_sensor sensor_by_shape
detect_sensor-sensor_by_names_and_fields py event =
    let declared = lower_first py event ("sensor" ∷ "system" ∷ "sensor_name" ∷ "honeypot" ∷ []) in
    let event_id = lower_first py event ("eventid" ∷ "event" ∷ "type" ∷ []) in
    elim (Option-cases (named declared known_sensors)) [
      | inr (name, e) ↦ rw (detect_sensor, sensor_by_names_and_fields, e) refl
      | inl e ↦ elim (Option-cases (named event_id known_sensors)) [
        | inr (name, e') ↦ rw (detect_sensor, sensor_by_names_and_fields, e, e') refl
        | inl e' ↦
            rw
              (
                detect_sensor,
                sensor_by_names_and_fields,
                e,
                e',
                no_prefix event_id (not_named event_id e'),
              )
              refl
      ]
    ]
