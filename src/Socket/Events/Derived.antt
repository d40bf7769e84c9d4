-- ===== src/Socket/Events/Derived.antt =====
-- What the handling of messages leaves of a `ConnectionManager`: no socket and no context is added, and no
-- context changes its identity or its socket.
use voltron_ocpp_protocols.Common.{
  ℕ, String, ◌≡◌, refl, ◌==◌, nat_eq, string_eq, eq_iff, some, get, set, delete, get-set,
  get-delete, arith, inl, inr, Option-cases, Bool-cases,
}
use voltron_ocpp_protocols.Connection.{
  ConnectionManager, ConnectionContext, update_context, associate_station, update_activity,
  mark_disconnected, disconnect, disconnected,
}

pub record IsDerived (m m' : ConnectionManager) : Type 0 where
  pub old_socket :
      (k : ℕ) (i : String)
      → get m'.socket_to_identity k ≡ some i
      → get m.socket_to_identity k ≡ some i
  pub old_context :
      (i : String) (c' : ConnectionContext)
      → get m'.connections i ≡ some c'
      → (c : ConnectionContext) × (get m.connections i ≡ some c)
        × (c'.identity ≡ c.identity)
        × (c'.socket ≡ c.socket)

pub IsDerived-refl : (m : ConnectionManager) → IsDerived m m
IsDerived-refl m = record { old_socket = λ k i e. e; old_context = λ i c e. (c, e, refl, refl) }

pub IsDerived-trans : (m n p : ConnectionManager) → IsDerived m n → IsDerived n p → IsDerived m p
IsDerived-trans m n p v w = record {
  old_socket = λ k i e. v.old_socket k i (w.old_socket k i e);
  old_context = λ i c e.
      let (d, d_in, d_id, d_socket) = w.old_context i c e in
      let (b, b_in, b_id, b_socket) = v.old_context i d d_in in (b, b_in, cc, cc);
}

set_context-IsDerived :
    (m : ConnectionManager) (i : String) (c c' : ConnectionContext)
    → get m.connections i ≡ some c
    → c'.identity ≡ c.identity
    → c'.socket ≡ c.socket
    → IsDerived m (record m { connections = set m.connections i c' })
set_context-IsDerived m i c c' e same_identity same_socket = record {
  old_socket = λ k j h. h;
  old_context = λ j d h. elim (Bool-cases (i == j)) [
    | inl same ↦ (
      c,
      ground (arith, eq_iff i j),
      ground (arith, get-set m.connections i j c'),
      ground (arith, get-set m.connections i j c'),
    )
    | inr other ↦ (d, ground (arith, get-set m.connections i j c'), refl, refl)
  ];
}

update_context-IsDerived :
    (m : ConnectionManager) (i : String) (f : ConnectionContext → ConnectionContext)
    → ((c : ConnectionContext) → (f c).identity ≡ c.identity)
    → ((c : ConnectionContext) → (f c).socket ≡ c.socket)
    → IsDerived m (update_context m i f)
update_context-IsDerived m i f a b = elim (Option-cases (get m.connections i)) [
  | inl e ↦ rw (e, update_context) (IsDerived-refl m)
  | inr (c, e) ↦ rw (e, update_context) (set_context-IsDerived m i c (f c) e (a c) (b c))
]

pub associate_station-IsDerived :
    (m : ConnectionManager) (i station : String) → IsDerived m (associate_station m i station)
unfolding associate_station
associate_station-IsDerived m i station = update_context-IsDerived m i _ (λ c. refl) (λ c. refl)

pub update_activity-IsDerived :
    (m : ConnectionManager) (i : String) (now : ℕ) → IsDerived m (update_activity m i now)
unfolding update_activity
update_activity-IsDerived m i now = update_context-IsDerived m i _ (λ c. refl) (λ c. refl)

forgotten-IsDerived :
    (m n : ConnectionManager) (socket : ℕ)
    → IsDerived m n
    → IsDerived m (record n { socket_to_identity = delete m.socket_to_identity socket })
forgotten-IsDerived m n socket v = record {
  old_socket = λ k i h. ground (arith, get-delete m.socket_to_identity socket k);
  old_context = v.old_context;
}

disconnect-IsDerived :
    (m : ConnectionManager) (socket now : ℕ) (i : String) → IsDerived m (disconnect m socket now i)
unfolding disconnect
disconnect-IsDerived m socket now i = elim (Option-cases (get m.connections i)) [
  | inl e ↦ rw (e, disconnect) (forgotten-IsDerived m m socket (IsDerived-refl m))
  | inr (c, e) ↦ elim (Bool-cases (c.socket == socket)) [
    | inl same ↦
        rw (e, disconnect)
          (rw same (
            forgotten-IsDerived m _ socket (
              set_context-IsDerived m i c
                (record c { status = disconnected; last_message_at = now }) e refl refl)))
    | inr other ↦ rw (e, disconnect) (rw other (forgotten-IsDerived m m socket (IsDerived-refl m)))
  ]
]

pub mark_disconnected-IsDerived :
    (m : ConnectionManager) (socket now : ℕ) → IsDerived m (mark_disconnected m socket now)
unfolding mark_disconnected
mark_disconnected-IsDerived m socket now = elim (Option-cases (get m.socket_to_identity socket)) [
  | inl e ↦ rw (e, mark_disconnected) (IsDerived-refl m)
  | inr (i, e) ↦ elim (Bool-cases (i == "")) [
    | inl empty ↦ rw (e, mark_disconnected) (rw empty (IsDerived-refl m))
    | inr named ↦ rw (e, mark_disconnected) (rw named (disconnect-IsDerived m socket now i))
  ]
]
