-- ===== src/Connection/Invariant.antt =====
-- The well-formedness of a manager, and that the calls keep it.
use voltron_ocpp_protocols.Common.{
  ℕ, String, ◌≡◌, refl, ◌==◌, nat_eq, string_eq, nat_beq_iff, eq_iff, none, some, get, get-set,
  get-delete, Option-cases, Bool-cases, inl, inr, arith,
}
use voltron_ocpp_protocols.Connection.{
  ConnectionManager, ConnectionContext, connected, disconnected, register_connection, new_context,
  update_context, associate_station, update_activity, mark_disconnected, disconnect,
  on_application_shutdown, step, Call, register, associate, update, mark, shutdown, empty,
}

-- Each context stands under its own identity, and the socket of a connected one is registered for it.
pub record IsConsistent (m : ConnectionManager) : Type 0 where
  pub keyed : (i : String) (c : ConnectionContext) → get m.connections i ≡ some c → c.identity ≡ i
  pub live :
      (i : String) (c : ConnectionContext)
      → get m.connections i ≡ some c
      → c.status ≡ connected
      → get m.socket_to_identity c.socket ≡ some i

-- A socket is registered once, when it is made, and activity is noted for connected contexts alone.
abbrev pub IsRegular : ConnectionManager → Call → Type 0
IsRegular m (register identity socket now) = get m.socket_to_identity socket ≡ none
IsRegular m (update identity now) =
    (c : ConnectionContext) → get m.connections identity ≡ some c → c.status ≡ connected
IsRegular m _ = Unit {0}

register-IsConsistent :
    (m : ConnectionManager) (identity : String) (socket now : ℕ)
    → get m.socket_to_identity socket ≡ none
    → IsConsistent m
    → IsConsistent (register_connection m identity socket now).0
unfolding register_connection
register-IsConsistent m identity socket now fresh v = record {
  keyed = λ i c h. ground (
    arith,
    eq_iff identity i,
    get-set m.connections identity i (new_context m identity socket now),
    v.keyed i c,
  );
  live = λ i c h up. ground (
    arith,
    eq_iff identity i,
    get-set m.connections identity i (new_context m identity socket now),
    get-set m.socket_to_identity socket c.socket identity,
    v.live i c,
  );
}

-- A context that is changed in place keeps its identity and its socket, and becomes connected only if
-- it was.
update_context-IsConsistent :
    (m : ConnectionManager) (identity : String) (f : ConnectionContext → ConnectionContext)
    → ((c : ConnectionContext) → (f c).identity ≡ c.identity)
    → ((c : ConnectionContext) → (f c).socket ≡ c.socket)
    → ((c : ConnectionContext)
        → get m.connections identity ≡ some c
        → (f c).status ≡ connected
        → c.status ≡ connected)
    → IsConsistent m
    → IsConsistent (update_context m identity f)
update_context-IsConsistent m identity f same_identity same_socket was v =
    elim (Option-cases (get m.connections identity)) [
      | inl e ↦ rw (e, update_context) v
      | inr (c, e) ↦
          rw (e, update_context)
            (record {
              keyed = λ i c' h. ground (
                arith,
                eq_iff identity i,
                get-set m.connections identity i (f c),
                v.keyed i c',
                v.keyed i c,
                same_identity c,
              );
              live = λ i c' h up. ground (
                arith,
                eq_iff identity i,
                get-set m.connections identity i (f c),
                v.live i c',
                v.live i c,
                same_socket c,
                was c e,
              );
            })
    ]

disconnect-IsConsistent :
    (m : ConnectionManager) (socket now : ℕ) (owner : String)
    → get m.socket_to_identity socket ≡ some owner
    → IsConsistent m
    → IsConsistent (disconnect m socket now owner)
unfolding disconnect
disconnect-IsConsistent m socket now owner known v = elim (Option-cases (get m.connections owner)) [
  | inl e ↦
      rw (e, disconnect)
        (record {
          keyed = v.keyed;
          live = λ i c h up. ground (
            arith,
            v.live i c h up,
            get-delete m.socket_to_identity socket c.socket,
            nat_beq_iff socket c.socket,
          );
        })
  | inr (c, e) ↦
      rw (e, disconnect)
        (elim (Bool-cases (c.socket == socket)) [
          | inl b ↦ rw b (record {
            keyed = λ i c' h. ground (
              arith,
              eq_iff owner i,
              get-set m.connections owner i
                  (record c { status = disconnected; last_message_at = now }),
              v.keyed i c',
              v.keyed i c,
            );
            live = λ i c' h up. ground (
              arith,
              eq_iff owner i,
              get-set m.connections owner i
                  (record c { status = disconnected; last_message_at = now }),
              v.live i c',
              get-delete m.socket_to_identity socket c'.socket,
            );
          })
          | inr b ↦ rw b (record {
            keyed = v.keyed;
            live = λ i c' h up.
                ground (arith, v.live i c' h up, get-delete m.socket_to_identity socket c'.socket);
          })
        ])
]

mark-IsConsistent :
    (m : ConnectionManager) (socket now : ℕ)
    → IsConsistent m
    → IsConsistent (mark_disconnected m socket now)
unfolding mark_disconnected
mark-IsConsistent m socket now v = elim (Option-cases (get m.socket_to_identity socket)) [
  | inl e ↦ rw (e, mark_disconnected) v
  | inr (owner, e) ↦
      rw (e, mark_disconnected)
        (elim (Bool-cases (owner == "")) [
          | inl b ↦ rw b v
          | inr b ↦ rw b (disconnect-IsConsistent m socket now owner e v)
        ])
]

-- Every call keeps a manager well-formed: each context under its own identity, and the socket of each
-- connected one registered for that identity; provided that a registered socket is new, and that
-- activity is noted for a connected context alone.
pub step-IsConsistent :
    (m : ConnectionManager) (c : Call) → IsRegular m c → IsConsistent m → IsConsistent (step m c)
unfolding step associate_station update_activity on_application_shutdown
step-IsConsistent m (register identity socket now) r v =
    register-IsConsistent m identity socket now r v
step-IsConsistent m (associate identity station) r v =
    update_context-IsConsistent m identity _ (λ c. refl) (λ c. refl) (λ c e up. up) v
step-IsConsistent m (update identity now) r v =
    update_context-IsConsistent m identity _ (λ c. refl) (λ c. refl) (λ c e up. r c e) v
step-IsConsistent m (mark socket now) r v = mark-IsConsistent m socket now v
step-IsConsistent m shutdown r v = record { keyed = λ i c h. cc; live = λ i c h up. cc }

-- A history of regular calls.
pub data History (m : ConnectionManager) : ConnectionManager → Type 0 where
  start : History m m
  next : {n : ConnectionManager} (c : Call) → History m n → IsRegular n c → History m (step n c)

empty-IsConsistent : IsConsistent empty
empty-IsConsistent = record { keyed = λ i c h. cc; live = λ i c h up. cc }

-- A manager that a history of such calls leads to from the empty one is well-formed.
pub History-IsConsistent : {m : ConnectionManager} → History empty m → IsConsistent m
History-IsConsistent start = empty-IsConsistent
History-IsConsistent (next {n} c h r) = step-IsConsistent n c r (History-IsConsistent h)
