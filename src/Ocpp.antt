-- ===== src/Ocpp.antt =====
-- `OcppService` of src/modules/ocpp/ocpp.service.ts: a raw message is parsed and dispatched, and its reply is
-- written. `JSON.parse` and `JSON.stringify` are given.
pub mod Refusals
pub mod Replies
mod Tests
use voltron_ocpp_protocols.Common.{
  ℕ, suc, Bool, true, false, not, String, ◌==◌, leb, if◌then◌else◌, Option, none, some, or_else,
  List, [], ◌∷◌, length, string_eq, ltb,
}
use voltron_ocpp_protocols.Json.{
  Number, nat, Value, null, num, str, arr, obj, Items, no_items, item, no_fields, field, items,
  number_eq,
}
use voltron_ocpp_protocols.Errors.{Result, ok, err, Thrown, error}
use voltron_ocpp_protocols.Effect.{Effect, pure, throw, ◌>>=◌, ◌>>◌, read, modify, lift}
use voltron_ocpp_protocols.Connection.{ConnectionManager, associate_station}
use voltron_ocpp_protocols.Schemas.Parse.{
  parse_boot_notification, parse_authorize, parse_status_notification, parse_start_transaction,
  parse_stop_transaction, parse_meter_values,
}
use voltron_ocpp_protocols.Station.State.{Runtime, Service, M}
use voltron_ocpp_protocols.Station.Events.{object}
use voltron_ocpp_protocols.Station.Handlers.{
  accepted_tag, handle_boot_notification, handle_authorize, handle_heartbeat,
  handle_status_notification,
}
use voltron_ocpp_protocols.Station.Transactions.{handle_start_transaction, handle_stop_transaction}
use voltron_ocpp_protocols.Station.Meter.{handle_meter_values}

-- `JSON.parse(text)`, `none` where it throws, and `JSON.stringify(value)`.
pub record JsonText : Type 0 where
  pub parse : String → Option Value
  pub stringify : Value → String

pub record ProcessedOcppMessage : Type 0 where
  pub reply : String
  pub station_id : Option String
  pub flush_pending_messages : Bool

-- The two services that a message may change.
pub record Services (Db : Type 0) : Type 0 where
  pub stations : Service Db
  pub connections : ConnectionManager

-- `[messageType, uniqueId] = parsed`, `parsed[2]` and `parsed[3] ?? {}`
pub record Message : Type 0 where
  pub message_type : Value
  pub unique_id : Value
  pub action : Value
  pub payload : Value

abbrev pub or_empty : List Value → Value
or_empty [] = obj no_fields
or_empty (null ∷ _) = obj no_fields
or_empty (v ∷ _) = v

-- `Array.isArray(parsed) && parsed.length >= 3`
abbrev pub message_of : List Value → Option Message
message_of (message_type ∷ unique_id ∷ action ∷ rest) = some (record {
  message_type = message_type;
  unique_id = unique_id;
  action = action;
  payload = or_empty rest;
})
message_of _ = none

abbrev pub as_message : Value → Option Message
as_message (arr vs) = message_of (items vs)
as_message _ = none

-- `messageType !== 2`
abbrev pub is_call : Value → Bool
is_call (num n) = n == nat 2
is_call _ = false

-- The value is a text; otherwise it is refused.
abbrev pub text_of : Value → Result String
text_of (str s) = ok s
text_of _ = err (error "ProtocolError")

-- `action`, as `switch (action)` reads it: no case is a value other than a text.
abbrev pub action_text : Value → String
action_text (str s) = s
action_text _ = ""

-- The response of a `StartTransaction`.
abbrev pub start_response : Number → Value
start_response id =
    object
      (("transactionId", num id) ∷ ("idTagInfo", object (("status", str "Accepted") ∷ [])) ∷ [])

module _ (json : JsonText) (r : Runtime) where
  open json use {parse, stringify}
  open r use {Db}

  abbrev pub Ocpp : Type 0 → Type 0
  Ocpp A = Effect (Services Db) A

  -- A call of `ChargingStationService`.
  abbrev pub station : {A : Type 0} → M Db A → Ocpp A
  station m s = (record s { stations = (m s.stations).0 }, (m s.stations).1)

  -- `createCallResult`
  abbrev pub create_call_result : String → Value → ProcessedOcppMessage
  create_call_result unique_id payload = record {
    reply = stringify (arr (item (num (nat 3)) (item (str unique_id) (item payload no_items))));
    station_id = none;
    flush_pending_messages = false;
  }

  abbrev pub boot_notification_call :
      String → String → Value → Option String → ℕ → Ocpp ProcessedOcppMessage
  boot_notification_call identity unique_id raw endpoint now = do
    payload ← lift (parse_boot_notification (some raw))
    result ← station (handle_boot_notification r identity payload endpoint now)
    modify
        (λ s. record s { connections = associate_station s.connections identity result.station_id })
    pure (record (create_call_result unique_id result.response) {
      station_id = some result.station_id;
      flush_pending_messages = true;
    })

  abbrev pub authorize_call : String → String → Value → ℕ → Ocpp ProcessedOcppMessage
  authorize_call identity unique_id raw now = do
    payload ← lift (parse_authorize (some raw))
    response ← station (handle_authorize r identity payload now)
    pure (create_call_result unique_id response)

  abbrev pub heartbeat_call : String → String → ℕ → Ocpp ProcessedOcppMessage
  heartbeat_call identity unique_id now = do
    response ← station (handle_heartbeat r identity now)
    pure (create_call_result unique_id response)

  abbrev pub status_notification_call : String → String → Value → ℕ → Ocpp ProcessedOcppMessage
  status_notification_call identity unique_id raw now = do
    payload ← lift (parse_status_notification (some raw))
    station (handle_status_notification r identity payload now)
    pure (create_call_result unique_id (obj no_fields))

  -- The handler's response holds the transaction's id and an accepted tag.
  abbrev pub start_transaction_call : String → String → Value → ℕ → Ocpp ProcessedOcppMessage
  start_transaction_call identity unique_id raw now = do
    payload ← lift (parse_start_transaction (some raw))
    id ← station (handle_start_transaction r identity payload now)
    pure (create_call_result unique_id (start_response id))

  abbrev pub stop_transaction_call : String → Value → ℕ → Ocpp ProcessedOcppMessage
  stop_transaction_call unique_id raw now = do
    payload ← lift (parse_stop_transaction (some raw))
    station (handle_stop_transaction r payload now)
    pure (create_call_result unique_id accepted_tag)

  abbrev pub meter_values_call : String → String → Value → ℕ → Ocpp ProcessedOcppMessage
  meter_values_call identity unique_id raw now = do
    payload ← lift (parse_meter_values (some raw))
    station (handle_meter_values r identity payload now)
    pure (create_call_result unique_id (obj no_fields))

  -- `switch (action)`
  unfoldable pub dispatch :
      String → String → String → Value → Option String → ℕ → Ocpp ProcessedOcppMessage
  dispatch identity unique_id action raw endpoint now =
      if action == "BootNotification"
      then boot_notification_call identity unique_id raw endpoint now
      else if action == "Heartbeat"
      then heartbeat_call identity unique_id now
      else if action == "Authorize"
      then authorize_call identity unique_id raw now
      else if action == "StatusNotification"
      then status_notification_call identity unique_id raw now
      else if action == "StartTransaction"
      then start_transaction_call identity unique_id raw now
      else if action == "StopTransaction"
      then stop_transaction_call unique_id raw now
      else if action == "MeterValues"
      then meter_values_call identity unique_id raw now
      else throw (error "NotImplemented")

  unfoldable pub handle_call : String → Message → Option String → ℕ → Ocpp ProcessedOcppMessage
  handle_call identity m endpoint now =
      if is_call m.message_type
      then (do
        unique_id ← lift (text_of m.unique_id)
        dispatch identity unique_id (action_text m.action) m.payload endpoint now)
      else throw (error "NotSupported")

  -- The checks on the array.
  abbrev pub handle_value : Option Message → String → Option String → ℕ → Ocpp ProcessedOcppMessage
  handle_value none identity endpoint now = throw (error "ProtocolError")
  handle_value (some m) identity endpoint now = handle_call identity m endpoint now

  abbrev pub handle_parsed : Option Value → String → Option String → ℕ → Ocpp ProcessedOcppMessage
  handle_parsed none identity endpoint now = throw (error "FormationViolation")
  handle_parsed (some v) identity endpoint now = handle_value (as_message v) identity endpoint now

  unfoldable pub handle_message : String → String → Option String → ℕ → Ocpp ProcessedOcppMessage
  handle_message identity raw endpoint now = handle_parsed (parse raw) identity endpoint now
