-- ===== src/Schemas/Parse/Refusals.antt =====
-- With what the parsers fail.
use voltron_ocpp_protocols.Common.{
  ℕ, ◌+◌, inl, inr, String, Option, none, some, List, [], ◌∷◌, Bool-cases,
}
use voltron_ocpp_protocols.Json.{Value, null, num, str, nan, nat, obj, arr, items}
use voltron_ocpp_protocols.Errors.{Result, ok, err, Thrown, call_error, ◌>>=◌}
use voltron_ocpp_protocols.Schemas.Timestamp.{is_blank, is_iso_date}
use voltron_ocpp_protocols.Schemas.Guards.{
  ensure_object, ensure_string, ensure_optional_string, ensure_number, ensure_timestamp,
  check_timestamp,
}
use voltron_ocpp_protocols.Schemas.Parse.{
  parse_boot_notification, parse_authorize, optional_timestamp, optional_number,
  parse_status_notification, parse_start_transaction, parse_stop_transaction, parse_sampled_value,
  map_index, parse_array, parse_meter_value_entry, parse_meter_values, truthy,
}

-- An `OcppCallError` with one of the two codes of OCPP for a payload that breaks its schema.
pub data IsConstraintViolation : Thrown → Type 0 where
  of_type : (m : String) → IsConstraintViolation (call_error "TypeConstraintViolation" m)
  of_property : (m : String) → IsConstraintViolation (call_error "PropertyConstraintViolation" m)

-- A result that is a value, or such an error.
pub data Checked {ℓ} {A : Type ℓ} : Result A → Type ℓ where
  accepted : (a : A) → Checked (ok a)
  refused : {e : Thrown} → IsConstraintViolation e → Checked (err e)

Checked-bind {ℓ κ} :
    {A : Type ℓ} {B : Type κ} {m : Result A} (k : A → Result B)
    → Checked m
    → ((a : A) → Checked (k a))
    → Checked (m >>= k)
Checked-bind k (accepted a) h = h a
Checked-bind k (refused v) h = refused v

ensure_object-Checked : (v : Option Value) (s : String) → Checked (ensure_object v s)
unfolding ensure_object
ensure_object-Checked (some (obj fs)) s = accepted _
ensure_object-Checked (some (arr vs)) s = accepted _
ensure_object-Checked _ s = refused (of_type _)

ensure_string-Checked : (v : Option Value) (s : String) → Checked (ensure_string v s)
unfolding ensure_string
ensure_string-Checked (some (str t)) s = elim (Bool-cases (is_blank t)) [
  | inl e ↦ rw e (refused (of_type _))
  | inr e ↦ rw e (accepted t)
]
ensure_string-Checked _ s = refused (of_type _)

ensure_optional_string-Checked :
    (v : Option Value) (s : String) → Checked (ensure_optional_string v s)
unfolding ensure_optional_string
ensure_optional_string-Checked none s = accepted _
ensure_optional_string-Checked (some null) s = accepted _
ensure_optional_string-Checked (some (str t)) s = accepted _
ensure_optional_string-Checked _ s = refused (of_type _)

ensure_number-Checked : (v : Option Value) (s : String) → Checked (ensure_number v s)
unfolding ensure_number
ensure_number-Checked (some (num nan)) s = refused (of_type _)
ensure_number-Checked (some (num (nat n))) s = accepted _
ensure_number-Checked (some (num n)) s = accepted _
ensure_number-Checked _ s = refused (of_type _)

check_timestamp-Checked : (t s : String) → Checked (check_timestamp t s)
unfolding check_timestamp
check_timestamp-Checked t s = elim (Bool-cases (is_iso_date t)) [
  | inl e ↦ rw e (accepted _)
  | inr e ↦ rw e (refused (of_property _))
]

ensure_timestamp-Checked : (v : Option Value) (s : String) → Checked (ensure_timestamp v s)
unfolding ensure_timestamp
ensure_timestamp-Checked v s =
    Checked-bind _ (ensure_string-Checked v s) (λ t. check_timestamp-Checked t s)

optional_timestamp-Checked : (v : Option Value) (s : String) → Checked (optional_timestamp v s)
unfolding optional_timestamp
optional_timestamp-Checked v s = elim (Bool-cases (truthy v)) [
  | inl e ↦ rw e (Checked-bind _ (ensure_timestamp-Checked v s) (λ t. accepted _))
  | inr e ↦ rw e (accepted _)
]

optional_number-Checked : (v : Option Value) (s : String) → Checked (optional_number v s)
unfolding optional_number
optional_number-Checked none s = accepted _
optional_number-Checked (some v) s =
    Checked-bind _ (ensure_number-Checked (some v) s) (λ n. accepted _)

ruleset guards = (
  Checked-bind, accepted, ensure_object-Checked, ensure_string-Checked,
  ensure_optional_string-Checked, ensure_number-Checked, ensure_timestamp-Checked,
  optional_timestamp-Checked, optional_number-Checked,
)

module _ {ℓ} {A : Type ℓ} {parse : Value → ℕ → Result A}
    (checked : (v : Value) (i : ℕ) → Checked (parse v i)) where
  map_index-Checked : (vs : List Value) (i : ℕ) → Checked (map_index parse vs i)
  unfolding map_index
  map_index-Checked [] i = accepted _
  map_index-Checked (v ∷ vs) i =
      Checked-bind _ (checked v i)
        (λ a. Checked-bind _ (map_index-Checked vs (i + 1)) (λ as'. accepted _))

  parse_array-Checked : (v : Option Value) (s : String) → Checked (parse_array parse v s)
  unfolding parse_array
  parse_array-Checked (some (arr vs)) s =
      Checked-bind _ (map_index-Checked (items vs) 0)
        (elim [ [] ↦ refused (of_type _) | a ∷ as' ↦ accepted _ ])
  parse_array-Checked _ s = refused (of_type _)

parse_sampled_value-Checked : (v : Value) (i : ℕ) → Checked (parse_sampled_value v i)
unfolding parse_sampled_value
parse_sampled_value-Checked v i = search guards depth 20

parse_meter_value_entry-Checked : (v : Value) (i : ℕ) → Checked (parse_meter_value_entry v i)
unfolding parse_meter_value_entry
parse_meter_value_entry-Checked v i =
    search (guards, parse_array-Checked parse_sampled_value-Checked) depth 20

pub parse_boot_notification-Checked : (v : Option Value) → Checked (parse_boot_notification v)
unfolding parse_boot_notification
parse_boot_notification-Checked v = search guards depth 24

pub parse_status_notification-Checked : (v : Option Value) → Checked (parse_status_notification v)
unfolding parse_status_notification
parse_status_notification-Checked v = search guards depth 20

-- Each of the six parsers, whatever it is given, returns a payload or fails with an `OcppCallError` whose
-- code is `TypeConstraintViolation` or `PropertyConstraintViolation`.
pub parse-Checked :
    (v : Option Value)
    → Checked (parse_boot_notification v)
      × Checked (parse_authorize v)
      × Checked (parse_status_notification v)
      × Checked (parse_start_transaction v)
      × Checked (parse_stop_transaction v)
      × Checked (parse_meter_values v)
unfolding parse_authorize parse_start_transaction parse_stop_transaction parse_meter_values
parse-Checked v = (
  parse_boot_notification-Checked v,
  search guards depth 20,
  parse_status_notification-Checked v,
  search guards depth 20,
  search guards depth 20,
  search (guards, parse_array-Checked parse_meter_value_entry-Checked) depth 20,
)
