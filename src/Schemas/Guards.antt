-- ===== src/Schemas/Guards.antt =====
-- `ensureObject`, `ensureString`, `ensureOptionalString`, `ensureNumber` and `ensureTimestamp` of
-- src/modules/ocpp/messages/schemas.ts. A value of type `unknown` is an `Option Value`: `none` is
-- `undefined`.
pub mod Laws
use Prim.Native.String.{◌++◌}
use voltron_ocpp_protocols.Common.{Bool, true, false, String, if◌then◌else◌, Option, none, some}
use voltron_ocpp_protocols.Json.{Value, null, num, str, arr, obj, Number, nan}
use voltron_ocpp_protocols.Errors.{Result, ok, err, Thrown, call_error, ◌>>=◌}
use voltron_ocpp_protocols.Schemas.Timestamp.{is_blank, is_iso_date, has_zone}

abbrev pub type_violation {ℓ} : {A : Type ℓ} → String → Result A
type_violation message = err (call_error "TypeConstraintViolation" message)

abbrev pub property_violation {ℓ} : {A : Type ℓ} → String → Result A
property_violation message = err (call_error "PropertyConstraintViolation" message)

-- A record of unknown values is the object or array itself.
unfoldable pub ensure_object : Option Value → String → Result Value
ensure_object (some (obj fields)) context = ok (obj fields)
ensure_object (some (arr items)) context = ok (arr items)
ensure_object _ context = type_violation ("Expected object for " ++ context)

unfoldable pub ensure_string : Option Value → String → Result String
ensure_string (some (str s)) field =
    if is_blank s then type_violation (field ++ " must be a non-empty string") else ok s
ensure_string _ field = type_violation (field ++ " must be a non-empty string")

unfoldable pub ensure_optional_string : Option Value → String → Result (Option String)
ensure_optional_string none field = ok none
ensure_optional_string (some null) field = ok none
ensure_optional_string (some (str s)) field = ok (if is_blank s then none else some s)
ensure_optional_string _ field = type_violation (field ++ " must be a string")

unfoldable pub ensure_number : Option Value → String → Result Number
ensure_number (some (num nan)) field = type_violation (field ++ " must be a number")
ensure_number (some (num n)) field = ok n
ensure_number _ field = type_violation (field ++ " must be a number")

-- The text behind `ensureString`: a timestamp, with `Z` if it has no zone.
unfoldable pub check_timestamp : String → String → Result String
check_timestamp timestamp field =
    if is_iso_date timestamp
    then ok (if has_zone timestamp then timestamp else timestamp ++ "Z")
    else property_violation (field ++ " must be an ISO-8601 timestamp")

unfoldable pub ensure_timestamp : Option Value → String → Result String
unfolding check_timestamp
ensure_timestamp value field = do
  timestamp ← ensure_string value field
  check_timestamp timestamp field
