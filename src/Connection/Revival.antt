-- ===== src/Connection/Revival.antt =====
-- Activity that is noted after a disconnection.
use voltron_ocpp_protocols.Common.{
  ℕ, String, false, ◌≡◌, ◌==◌, nat_eq, string_eq, none, some, get, set, delete, get-set_self,
  get-delete_self, ==_refl,
}
use voltron_ocpp_protocols.Connection.{
  ConnectionManager, ConnectionContext, connected, disconnected, update_context, update_activity,
  mark_disconnected, disconnect, get_identity_by_socket,
}
use voltron_ocpp_protocols.Connection.Invariant.{IsConsistent}

abbrev closed : ConnectionManager → String → ConnectionContext → ℕ → ConnectionManager
closed m identity c t = record {
  connections =
      set m.connections identity (record c { status = disconnected; last_message_at = t });
  socket_to_identity = delete m.socket_to_identity c.socket;
}

abbrev revived : ConnectionManager → String → ConnectionContext → ℕ → ℕ → ConnectionManager
revived m identity c t t' = record (closed m identity c t) {
  connections =
      set (closed m identity c t).connections identity
        (record c { status = connected; last_message_at = t' });
}

mark_connected :
    (m : ConnectionManager) (identity : String) (c : ConnectionContext) (t : ℕ)
    → get m.socket_to_identity c.socket ≡ some identity
    → get m.connections identity ≡ some c
    → (identity == "") ≡ false
    → mark_disconnected m c.socket t ≡ closed m identity c t
unfolding mark_disconnected
mark_connected m identity c t known h named =
    rw (known, mark_disconnected, named, h, disconnect, ==_refl c.socket)

update_closed :
    (m : ConnectionManager) (identity : String) (c : ConnectionContext) (t t' : ℕ)
    → update_activity (closed m identity c t) identity t' ≡ revived m identity c t t'
unfolding update_activity
update_closed m identity c t t' = rw (
  get-set_self m.connections identity (record c { status = disconnected; last_message_at = t }),
  update_activity,
  update_context,
)

-- When the socket of a connected station closes while one of its messages is handled, the manager first
-- marks it and then notes the activity. The station then counts as connected, its socket belongs to
-- no identity, and marking that socket once more changes nothing: it stays so until the station
-- registers again or its context is dropped.
pub update_activity-mark_disconnected :
    (m : ConnectionManager) (identity : String) (c : ConnectionContext) (t t' t'' : ℕ)
    → IsConsistent m
    → get m.connections identity ≡ some c
    → c.status ≡ connected
    → (identity == "") ≡ false
    → let m' = update_activity (mark_disconnected m c.socket t) identity t' in
      (get m'.connections identity ≡ some (record c { last_message_at = t'; status = connected }))
      × (get_identity_by_socket m' c.socket ≡ none)
      × (mark_disconnected m' c.socket t'' ≡ m')
unfolding get_identity_by_socket mark_disconnected
update_activity-mark_disconnected m identity c t t' t'' v h up named =
    let gone = get-delete_self m.socket_to_identity c.socket in
    rw
      (
        mark_connected m identity c t (v.live identity c h up) h named,
        update_closed m identity c t t',
      )
      (
        get-set_self (closed m identity c t).connections identity _,
        gone,
        rw (gone, mark_disconnected),
      )
