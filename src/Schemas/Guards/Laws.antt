-- ===== src/Schemas/Guards/Laws.antt =====
-- What the guards accept, and what they refuse.
use Prim.Native.String.{◌++◌}
use voltron_ocpp_protocols.Common.{
  ◌≡◌, ◌≢◌, refl, inl, inr, true, false, String, if◌then◌else◌, Option, none, some, Bool-cases,
  arith,
}
use voltron_ocpp_protocols.Json.{Value, num, str, arr, obj, Number, nan}
use voltron_ocpp_protocols.Errors.{ok, >>=-eq-ok, ok_inj}
use voltron_ocpp_protocols.Schemas.Timestamp.{is_blank, is_iso_date, has_zone}
use voltron_ocpp_protocols.Schemas.Timestamp.Zones.{
  is_iso_date-append, is_blank-append, has_zone-append,
}
use voltron_ocpp_protocols.Schemas.Guards.{
  ensure_object, ensure_string, ensure_number, ensure_timestamp, check_timestamp,
}

-- A date and time with a zone.
pub record IsTimestamp (t : String) : Type 0 where
  pub iso : is_iso_date t ≡ true
  pub zoned : has_zone t ≡ true

pub ensure_string-eq-ok :
    (v : Option Value) (field : String) {s : String}
    → ensure_string v field ≡ ok s
    → (v ≡ some (str s)) × (is_blank s ≡ false)
unfolding ensure_string
ensure_string-eq-ok v field h = ground arith

-- The cases of an accepted timestamp.
check_timestamp-eq-ok :
    (s field : String) {t : String}
    → check_timestamp s field ≡ ok t
    → (is_iso_date s ≡ true) × (t ≡ (if has_zone s then s else s ++ "Z"))
unfolding check_timestamp
check_timestamp-eq-ok s field h = ground arith

with_zone-IsTimestamp :
    (s : String) → is_iso_date s ≡ true → IsTimestamp (if has_zone s then s else s ++ "Z")
with_zone-IsTimestamp s h = elim (Bool-cases (has_zone s)) [
  | inl e ↦ rw e (record { iso = h; zoned = e })
  | inr e ↦ rw e (record { iso = is_iso_date-append s h e; zoned = has_zone-append s })
]

with_zone-is_blank :
    (s : String) → is_blank s ≡ false → is_blank (if has_zone s then s else s ++ "Z") ≡ false
with_zone-is_blank s h = elim (Bool-cases (has_zone s)) [
  | inl e ↦ rw e h
  | inr e ↦ rw e (is_blank-append s)
]

-- An accepted timestamp is the text that was sent, or that text with `Z` where it has no zone; it
-- matches the pattern, has a zone and is not blank.
pub ensure_timestamp-IsTimestamp :
    (v : Option Value) (field : String) {t : String}
    → ensure_timestamp v field ≡ ok t
    → (s : String) × (v ≡ some (str s))
      × (t ≡ (if has_zone s then s else s ++ "Z"))
      × IsTimestamp t
      × (is_blank t ≡ false)
unfolding ensure_timestamp
ensure_timestamp-IsTimestamp v field {t} h =
    let (s, p, q) = >>=-eq-ok (ensure_string v field) _ h in
    let (sent, full) = ensure_string-eq-ok v field p in
    let (iso, e) = check_timestamp-eq-ok s field q in
    (s, sent, e, rw e (with_zone-IsTimestamp s iso), rw e (with_zone-is_blank s full))

-- Checking an accepted timestamp again changes nothing.
pub ensure_timestamp_idempotent :
    (v : Option Value) (field : String) {t : String}
    → ensure_timestamp v field ≡ ok t
    → ensure_timestamp (some (str t)) field ≡ ok t
unfolding ensure_timestamp ensure_string
ensure_timestamp_idempotent v field {t} h =
    let (s, sent, e, v, full) = ensure_timestamp-IsTimestamp v field h in rw (full, v.iso, v.zoned)

-- The text behind an accepted timestamp.
pub record Sent (v : Option Value) (s t : String) : Type 0 where
  pub sent : v ≡ some (str s)
  pub full : is_blank s ≡ false
  pub iso : is_iso_date s ≡ true
  pub zoned : t ≡ (if has_zone s then s else s ++ "Z")

pub ensure_timestamp-Sent :
    (v : Option Value) (field : String) {t : String}
    → ensure_timestamp v field ≡ ok t
    → (s : String) × Sent v s t
unfolding ensure_timestamp
ensure_timestamp-Sent v field h =
    let (s, p, q) = >>=-eq-ok (ensure_string v field) _ h in
    let (sent, full) = ensure_string-eq-ok v field p in
    let (iso, e) = check_timestamp-eq-ok s field q in
    (s, record { sent = sent; full = full; iso = iso; zoned = e })

pub ensure_timestamp_of_Sent :
    (v : Option Value) (field s t : String) → Sent v s t → ensure_timestamp v field ≡ ok t
unfolding ensure_timestamp ensure_string
ensure_timestamp_of_Sent v field s t x = rw (x.sent, ensure_string, x.full, x.iso, x.zoned)

pub ensure_string_of_str :
    (v : Option Value) (field s : String)
    → v ≡ some (str s)
    → is_blank s ≡ false
    → ensure_string v field ≡ ok s
unfolding ensure_string
ensure_string_of_str v field s e full = rw (e, ensure_string, full)

pub ensure_number-eq-ok :
    (v : Option Value) (field : String) {n : Number}
    → ensure_number v field ≡ ok n
    → (v ≡ some (num n)) × (n ≢ nan)
unfolding ensure_number
ensure_number-eq-ok v field h = (ground arith, λ e. ground arith)

pub ensure_number_of_num :
    (v : Option Value) (field : String) (n : Number)
    → v ≡ some (num n)
    → n ≢ nan
    → ensure_number v field ≡ ok n
unfolding ensure_number
ensure_number_of_num v field n e h = ground arith

-- An object, or an array, which `typeof` takes for one.
abbrev pub IsObject : Value → Type 0
IsObject (obj fs) = Unit {0}
IsObject (arr vs) = Unit {0}
IsObject _ = ⊥

pub ensure_object-eq-ok :
    (v : Option Value) (context : String) {body : Value}
    → ensure_object v context ≡ ok body
    → (v ≡ some body) × IsObject body
unfolding ensure_object
ensure_object-eq-ok (some (obj fs)) context h = rw (← ok_inj h) (refl, tt)
ensure_object-eq-ok (some (arr vs)) context h = rw (← ok_inj h) (refl, tt)
ensure_object-eq-ok none context h = cc
ensure_object-eq-ok (some _) context h = cc

pub ensure_object_of_IsObject :
    (body : Value) (context : String) → IsObject body → ensure_object (some body) context ≡ ok body
unfolding ensure_object
ensure_object_of_IsObject (obj fs) context h = refl
ensure_object_of_IsObject (arr vs) context h = refl
ensure_object_of_IsObject _ context h = absurd h
