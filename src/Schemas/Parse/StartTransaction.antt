-- ===== src/Schemas/Parse/StartTransaction.antt =====
-- `parseStartTransaction` against the fields that it reads.
use mathlib.Core.Option
use voltron_ocpp_protocols.Common.{◌≡◌, ◌≢◌, ◌↔◌, false, String, Option, none, some, arith}
use voltron_ocpp_protocols.Json.{Value, Number, num, str, nan, member}
use voltron_ocpp_protocols.Errors.{ok, >>=-eq-ok, ok_inj}
use voltron_ocpp_protocols.Schemas.Timestamp.{is_blank}
use voltron_ocpp_protocols.Schemas.Guards.{
  ensure_object, ensure_string, ensure_number, ensure_timestamp,
}
use voltron_ocpp_protocols.Schemas.Guards.Laws.{
  Sent, ensure_timestamp-Sent, ensure_timestamp_of_Sent, ensure_string-eq-ok, ensure_string_of_str,
  ensure_number-eq-ok, ensure_number_of_num, IsObject, ensure_object-eq-ok,
  ensure_object_of_IsObject,
}
use voltron_ocpp_protocols.Schemas.Payloads.{StartTransactionPayload}
use voltron_ocpp_protocols.Schemas.Parse.{optional_number, parse_start_transaction}

optional_number-eq-ok :
    (v : Option Value) (field : String) {n : Option Number}
    → optional_number v field ≡ ok n
    → (v ≡ Option.map num n) × (n ≢ some nan)
unfolding optional_number ensure_number
optional_number-eq-ok v field h = (ground arith, λ e. ground arith)

optional_number_of_num :
    (v : Option Value) (field : String) (n : Option Number)
    → v ≡ Option.map num n
    → n ≢ some nan
    → optional_number v field ≡ ok n
unfolding optional_number ensure_number
optional_number_of_num v field none e h = rw (e, optional_number)
optional_number_of_num v field (some n) e h = ground arith

-- A `StartTransaction` payload and the value that it is read from.
pub record StartTransactionOf (body : Value) (p : StartTransactionPayload) : Type 0 where
  pub connector : member body "connectorId" ≡ some (num p.connector_id)
  pub connector_ok : p.connector_id ≢ nan
  pub tag : member body "idTag" ≡ some (str p.id_tag)
  pub tag_ok : is_blank p.id_tag ≡ false
  pub meter : member body "meterStart" ≡ some (num p.meter_start)
  pub meter_ok : p.meter_start ≢ nan
  pub text : String
  pub stamped : Sent (member body "timestamp") text p.timestamp
  pub reservation : member body "reservationId" ≡ Option.map num p.reservation_id
  pub reservation_ok : p.reservation_id ≢ some nan

parse_start_transaction_sound :
    (v : Option Value) (p : StartTransactionPayload)
    → parse_start_transaction v ≡ ok p
    → (body : Value) × (v ≡ some body) × IsObject body × StartTransactionOf body p
unfolding parse_start_transaction
parse_start_transaction_sound v p h =
    let (body, o, h₁) = >>=-eq-ok (ensure_object v _) _ h in
    let (connector, a, h₂) = >>=-eq-ok (ensure_number (member body "connectorId") _) _ h₁ in
    let (tag, b, h₃) = >>=-eq-ok (ensure_string (member body "idTag") _) _ h₂ in
    let (meter, c, h₄) = >>=-eq-ok (ensure_number (member body "meterStart") _) _ h₃ in
    let (timestamp, d, h₅) = >>=-eq-ok (ensure_timestamp (member body "timestamp") _) _ h₄ in
    let (reservation, e, h₆) = >>=-eq-ok (optional_number (member body "reservationId") _) _ h₅ in
    let (is_body, object) = ensure_object-eq-ok v _ o in
    let (a₁, a₂) = ensure_number-eq-ok (member body "connectorId") _ a in
    let (b₁, b₂) = ensure_string-eq-ok (member body "idTag") _ b in
    let (c₁, c₂) = ensure_number-eq-ok (member body "meterStart") _ c in
    let (s, sent) = ensure_timestamp-Sent (member body "timestamp") _ d in
    let (e₁, e₂) = optional_number-eq-ok (member body "reservationId") _ e in
    (
      body,
      is_body,
      object,
      rw (← ok_inj h₆) (record {
        connector = a₁;
        connector_ok = a₂;
        tag = b₁;
        tag_ok = b₂;
        meter = c₁;
        meter_ok = c₂;
        text = s;
        stamped = sent;
        reservation = e₁;
        reservation_ok = e₂;
      }),
    )

parse_start_transaction_complete :
    (body : Value) (p : StartTransactionPayload)
    → IsObject body
    → StartTransactionOf body p
    → parse_start_transaction (some body) ≡ ok p
unfolding parse_start_transaction
parse_start_transaction_complete body p o s = rw (
  ensure_object_of_IsObject body "StartTransaction" o,
  ensure_number_of_num (member body "connectorId") "connectorId" p.connector_id s.connector
      s.connector_ok,
  ensure_string_of_str (member body "idTag") "idTag" p.id_tag s.tag s.tag_ok,
  ensure_number_of_num (member body "meterStart") "meterStart" p.meter_start s.meter s.meter_ok,
  ensure_timestamp_of_Sent (member body "timestamp") "timestamp" s.text p.timestamp s.stamped,
  optional_number_of_num (member body "reservationId") "reservationId" p.reservation_id
      s.reservation s.reservation_ok,
)

-- `parseStartTransaction` accepts exactly the objects that have a `StartTransaction` payload in their
-- fields, and returns that payload: numbers that are no `NaN`, a tag that is not blank, an ISO
-- timestamp, completed by `Z` where it has no zone, and a reservation number only where one was sent.
pub parse_start_transaction_iff :
    (body : Value) (p : StartTransactionPayload)
    → (parse_start_transaction (some body) ≡ ok p) ↔ (IsObject body × StartTransactionOf body p)
parse_start_transaction_iff body p = (sound, λ (o, s). parse_start_transaction_complete body p o s)
  where
    sound : parse_start_transaction (some body) ≡ ok p → IsObject body × StartTransactionOf body p
    sound h =
        let (body', e, o, s) = parse_start_transaction_sound (some body) p h in
        let same : body' ≡ body = cc in
        let parts : IsObject body' × StartTransactionOf body' p = (o, s) in rw same at parts
