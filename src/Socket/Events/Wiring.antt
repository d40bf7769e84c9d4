-- ===== src/Socket/Events/Wiring.antt =====
-- Whom a socket belongs to, at every moment.
use voltron_ocpp_protocols.Common.{
  ℕ, false, String, ◌≡◌, ap, sym, ◌∙◌, ◌==◌, nat_eq, string_eq, eq_iff, nat_beq_iff, none, some,
  get, set, get-set, get-set_self, arith, inl, inr, Bool-cases,
}
use voltron_ocpp_protocols.Connection.{
  ConnectionManager, ConnectionContext, register_connection, new_context,
}
use voltron_ocpp_protocols.Socket.{SocketContext}
use voltron_ocpp_protocols.Socket.Contexts.{Contexts}
use voltron_ocpp_protocols.Socket.Events.Derived.{IsDerived}

-- A socket was opened for the identity.
abbrev pub OpenFor : Contexts → ℕ → String → Type 0
OpenFor contexts k i = (x : SocketContext) × (get contexts k ≡ some x) × (x.identity ≡ i)

-- Of a manager and the contexts of the sockets: a connection stands under its identity and has a socket
-- that was opened for that identity; so has every socket that the manager knows; and no identity is empty.
pub record IsWired (m : ConnectionManager) (contexts : Contexts) : Type 0 where
  pub keyed : (i : String) (c : ConnectionContext) → get m.connections i ≡ some c → c.identity ≡ i
  pub held :
      (i : String) (c : ConnectionContext)
      → get m.connections i ≡ some c
      → OpenFor contexts c.socket i
  pub owned : (k : ℕ) (i : String) → get m.socket_to_identity k ≡ some i → OpenFor contexts k i
  pub placed :
      (k : ℕ) (x : SocketContext)
      → get contexts k ≡ some x
      → (x.connection ≡ k) × ((x.identity == "") ≡ false)

pub derived-IsWired :
    (m m' : ConnectionManager) (contexts : Contexts)
    → IsDerived m m'
    → IsWired m contexts
    → IsWired m' contexts
derived-IsWired m m' contexts d v = record {
  keyed = λ i c' e. let (c, e', a, b) = d.old_context i c' e in a ∙ v.keyed i c e';
  held = λ i c' e.
      let (c, e', a, b) = d.old_context i c' e in
      let (x, p, q) = v.held i c e' in (x, ap (get contexts) b ∙ p, q);
  owned = λ k i e. v.owned k i (d.old_socket k i e);
  placed = v.placed;
}

module _ (contexts : Contexts) (socket : ℕ) (c c' : SocketContext) where
  IsOpen-stored :
      get contexts socket ≡ some c
      → c'.identity ≡ c.identity
      → (k : ℕ) (i : String) → OpenFor contexts k i
      → OpenFor (set contexts socket c') k i
  IsOpen-stored e same_identity k i (x, p, q) = elim (Bool-cases (socket == k)) [
    | inl same ↦
        let k_is : socket ≡ k = (nat_beq_iff socket k).0 same in
        (c', ground (arith, get-set contexts socket k c'), cc (e, p, q, k_is, same_identity))
    | inr other ↦ (x, ground (arith, get-set contexts socket k c'), q)
  ]

  -- A context that gets another buffer is still its socket's.
  pub stored-IsWired :
      (m : ConnectionManager)
      → get contexts socket ≡ some c
      → c'.identity ≡ c.identity
      → c'.connection ≡ c.connection
      → IsWired m contexts
      → IsWired m (set contexts socket c')
  stored-IsWired m e same_identity same_connection v = record {
    keyed = v.keyed;
    held = λ i d h. IsOpen-stored e same_identity d.socket i (v.held i d h);
    owned = λ k i h. IsOpen-stored e same_identity k i (v.owned k i h);
    placed = λ k x h. elim (Bool-cases (socket == k)) [
      | inl same ↦
          let k_is : socket ≡ k = (nat_beq_iff socket k).0 same in
          let x_is : c' ≡ x = ground (arith, get-set contexts socket k c') in
          let (a, b) = v.placed socket c e in
          (
            ap (λ y. y.connection) (sym x_is) ∙ same_connection ∙ a ∙ k_is,
            ap (λ y. y.identity == "") (sym x_is) ∙ ap (λ t. t == "") same_identity ∙ b,
          )
      | inr other ↦ v.placed k x (ground (arith, get-set contexts socket k c'))
    ];
  }

-- A socket that has no context yet gets one.
opened-IsOpen :
    (contexts : Contexts) (socket : ℕ) (c : SocketContext)
    → get contexts socket ≡ none
    → (k : ℕ) (i : String) → OpenFor contexts k i
    → OpenFor (set contexts socket c) k i
opened-IsOpen contexts socket c fresh k i (x, p, q) =
    (x, ground (arith, nat_beq_iff socket k, get-set contexts socket k c), q)

pub opened-IsWired :
    (m : ConnectionManager) (contexts : Contexts) (identity : String) (socket now : ℕ)
    (c : SocketContext)
    → get contexts socket ≡ none
    → c.identity ≡ identity
    → c.connection ≡ socket
    → (identity == "") ≡ false
    → IsWired m contexts
    → IsWired (register_connection m identity socket now).0 (set contexts socket c)
unfolding register_connection new_context
opened-IsWired m contexts identity socket now c fresh named placed_at not_empty v = record {
  keyed = λ i d h. ground (
    arith,
    eq_iff identity i,
    get-set m.connections identity i (new_context m identity socket now),
    v.keyed i d,
  );
  held = λ i d h. elim (Bool-cases (identity == i)) [
    | inl same ↦
        let i_is : identity ≡ i = (string_eq.same_iff identity i).0 same in
        let d_is : new_context m identity socket now ≡ d =
          ground (arith, get-set m.connections identity i (new_context m identity socket now)) in
        (
          c,
          ap (λ y. get (set contexts socket c) y.socket) (sym d_is)
              ∙ get-set_self contexts socket c,
          named ∙ i_is,
        )
    | inr other ↦ opened-IsOpen contexts socket c fresh d.socket i (
        v.held i d
          (ground (arith, get-set m.connections identity i (new_context m identity socket now))))
  ];
  owned = λ k i h. elim (Bool-cases (socket == k)) [
    | inl same ↦
        let k_is : socket ≡ k = (nat_beq_iff socket k).0 same in
        let i_is : identity ≡ i = ground (arith, get-set m.socket_to_identity socket k identity) in
        (
          c,
          ap (get (set contexts socket c)) (sym k_is) ∙ get-set_self contexts socket c,
          named ∙ i_is,
        )
    | inr other ↦
        opened-IsOpen contexts socket c fresh k i
          (v.owned k i (ground (arith, get-set m.socket_to_identity socket k identity)))
  ];
  placed = λ k x h. elim (Bool-cases (socket == k)) [
    | inl same ↦
        let k_is : socket ≡ k = (nat_beq_iff socket k).0 same in
        let x_is : c ≡ x = ground (arith, get-set contexts socket k c) in
        (
          ap (λ y. y.connection) (sym x_is) ∙ placed_at ∙ k_is,
          ap (λ y. y.identity == "") (sym x_is) ∙ ap (λ t. t == "") named ∙ not_empty,
        )
    | inr other ↦ v.placed k x (ground (arith, get-set contexts socket k c))
  ];
}
