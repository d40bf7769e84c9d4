-- ===== src/Connection/Tests.antt =====
-- The manager at concrete calls.
use voltron_ocpp_protocols.Common.{◌≡◌, refl, string_eq, nat_eq, none, some, get}
use voltron_ocpp_protocols.Connection.{
  ConnectionManager, ConnectionContext, connected, disconnected, register_connection,
  update_activity, mark_disconnected, get_identity_by_socket, empty, step, register, mark,
}
use voltron_ocpp_protocols.Connection.Behaviour.{
  IsRegistered, register_connection-IsRegistered, get-mark_disconnected,
}
use voltron_ocpp_protocols.Connection.Invariant.{
  IsConsistent, step-IsConsistent, History, start, next, History-IsConsistent,
}
use voltron_ocpp_protocols.Connection.Revival.{update_activity-mark_disconnected}

abbrev context : ConnectionContext
context = record {
  identity = "CP-1";
  socket = 7;
  connected_at = 100;
  last_message_at = 100;
  status = connected;
  station_id = none;
}

one : ConnectionManager
one = step empty (register "CP-1" 7 100)

one-context : get one.connections "CP-1" ≡ some context
unfolding one step register_connection
one-context = refl

one-History : History empty one
unfolding one
one-History = next (register "CP-1" 7 100) start refl

one-IsConsistent : IsConsistent one
one-IsConsistent = History-IsConsistent one-History

step-IsConsistent_example : IsConsistent (step one (mark 7 120))
step-IsConsistent_example = step-IsConsistent one (mark 7 120) tt one-IsConsistent

register_connection-IsRegistered_example :
    let (m', closes, context') = register_connection one "CP-1" 8 150 in
    IsRegistered one m' closes context' "CP-1" 8 150
register_connection-IsRegistered_example = register_connection-IsRegistered one "CP-1" 8 150

get-mark_disconnected_example :
    (get (mark_disconnected one 7 120).connections "CP-1"
      ≡ some (record context { status = disconnected; last_message_at = 120 }))
    × (get (mark_disconnected one 7 120).socket_to_identity 7 ≡ none)
unfolding one step register_connection
get-mark_disconnected_example = get-mark_disconnected one 7 120 "CP-1" 7

update_activity-mark_disconnected_example :
    get_identity_by_socket (update_activity (mark_disconnected one 7 120) "CP-1" 130) 7 ≡ none
update_activity-mark_disconnected_example =
    (update_activity-mark_disconnected one "CP-1" context 120 130 140 one-IsConsistent one-context
      refl refl).1
