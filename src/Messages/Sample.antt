-- ===== src/Messages/Sample.antt =====
-- Small queues, to run the methods of station-message.service.ts on.
use voltron_ocpp_protocols.Common.{ℕ, suc, false, String, none, [], ◌∷◌}
use voltron_ocpp_protocols.Json.{nat, null}
use voltron_ocpp_protocols.Errors.{ok}
use voltron_ocpp_protocols.Messages.{MemoryMessage, pending, view, MessageStore, MessageService}

abbrev pub message : String → MemoryMessage
message id = record {
  id = id;
  station_id = "CP-1";
  action = "Reset";
  payload = null;
  unique_id = id;
  status = pending;
  available_at = none;
  sent_at = none;
  error_details = none;
}

-- The database is the number of its writes.
abbrev pub store : MessageStore
store = record {
  Db = ℕ;
  create_message = λ i u n. (suc n, ok (view (message u)));
  find_pending = λ station now n. (n, ok []);
  set_dispatched = λ id now n. (suc n, ok tt);
  set_failed = λ id e n. (suc n, ok tt);
  uuid = λ n. "uuid";
  big_int = λ t. ok (nat 1);
  unknown_text = "undefined";
}

abbrev pub service : MessageService ℕ
service = record {
  memory_queues = ("CP-0", []) ∷ ("CP-1", message "a" ∷ message "b" ∷ []) ∷ [];
  connected = false;
  uuids = 0;
  db = 0;
}
