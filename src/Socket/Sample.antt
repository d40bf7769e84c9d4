-- ===== src/Socket/Sample.antt =====
-- A small server: one text is JSON, and all other texts are two bytes.
use voltron_ocpp_protocols.Common.{
  ℕ, Bool, true, false, String, ◌==◌, string_eq, if◌then◌else◌, none, some, List, [], ◌∷◌,
}
use voltron_ocpp_protocols.Json.{Value, nat, num, str, arr, obj, no_fields, field, item, no_items}
use voltron_ocpp_protocols.Connection as Connections
use voltron_ocpp_protocols.Messages.Sample as Queues
use voltron_ocpp_protocols.Station.Sample as Stations
use voltron_ocpp_protocols.Ocpp.{JsonText}
use voltron_ocpp_protocols.Socket.{Node, Server, SocketContext}
use voltron_ocpp_protocols.Socket.Upgrade.{Request, one}

-- [2, "7", action, payload]
abbrev pub call : String → Value → Value
call action payload =
    arr (item (num (nat 2)) (item (str "7") (item (str action) (item payload no_items))))

-- A BootNotification's payload.
abbrev boot : Value
boot = obj (field "chargePointVendor" (str "V") (field "chargePointModel" (str "M") no_fields))

abbrev pub json : JsonText
json = record {
  parse = λ t.
      if t == "beat"
      then some (call "Heartbeat" (obj no_fields))
      else if t == "boot"
      then some (call "BootNotification" boot)
      else none;
  stringify = λ v. "reply";
}

-- One byte is a heartbeat, and two are the BootNotification.
abbrev text_in : List ℕ → String
text_in [] = ""
text_in (b ∷ []) = "beat"
text_in (b ∷ c ∷ bs) = "boot"

abbrev pub node : Node
node = record {
  json = json;
  to_utf8 = λ t. b'o' ∷ b'k' ∷ [];
  from_utf8 = text_in;
  path_name = λ url. some url;
  sha1_base64 = λ text. "s3pPLMBiTxaQ9kYGzzhZRbK+xOo=";
}

-- `/ocpp/CP-1`, with a protocol that is not supported before one that is.
abbrev pub request : Request
request = record {
  url = some "/ocpp/CP-1";
  key = one "dGhlIHNhbXBsZSBub25jZQ==";
  protocol = one "soap, ocpp1.6";
}

abbrev pub context : SocketContext
context = record { identity = "CP-1"; buffer = []; connection = 3; endpoint = some "/ocpp/CP-1" }

abbrev connections : Connections.ConnectionManager
connections = record {
  connections =
      (
        "CP-1",
        record {
          identity = "CP-1";
          socket = 3;
          connected_at = 1;
          last_message_at = 1;
          status = Connections.connected;
          station_id = none;
        },
      )
      ∷ [];
  socket_to_identity = (3, "CP-1") ∷ [];
}

-- Socket 3 is open for CP-1, for which two messages wait.
abbrev pub server : Bool → Server ℕ ℕ
server online = record {
  services = record { stations = Stations.service online; connections = connections };
  messages = record Queues.service { connected = online };
  contexts = (3, context) ∷ [];
  listening = true;
  output = [];
}

-- A server on which nothing has happened.
abbrev pub new_server : Server ℕ ℕ
new_server = record (server false) {
  services = record { stations = Stations.service false; connections = Connections.empty };
  contexts = [];
}
