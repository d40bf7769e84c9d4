-- ===== src/Messages/Refinement/Removal.antt =====
-- Taking out a message by its identifier is taking it out of what is pending.
use voltron_ocpp_protocols.Common.{
  ℕ, Bool, true, false, String, ◌≡◌, refl, ap, sym, ◌∙◌, ◌==◌, string_eq, none, some, List, [], ◌∷◌,
  map, arith, Bool-cases, inl, inr, Option-cases,
}
use voltron_ocpp_protocols.Messages.{MemoryMessage, view, is_ready, keep}
use voltron_ocpp_protocols.Messages.Queue.{pending_in, remove_in, remove_message}
use voltron_ocpp_protocols.Messages.Draining.{
  ids, all_ids, occurs, occurs_in, AreDistinct, AreUnique,
}
use voltron_ocpp_protocols.Messages.Refinement.{without}

without-absent :
    (id : String) (p : MemoryMessage → Bool) (q : List MemoryMessage)
    → occurs id (ids q) ≡ false
    → without id (map view (keep p q)) ≡ map view (keep p q)
without-absent id p [] h = refl
without-absent id p (m ∷ ms) h = elim (Bool-cases (p m)) [
  | inl e ↦ rw e (ground (arith, without-absent id p ms))
  | inr e ↦ rw e (without-absent id p ms (ground arith))
]

remove_in-none :
    (id : String) (q : List MemoryMessage) → remove_in id q ≡ none → occurs id (ids q) ≡ false
remove_in-none id [] h = refl
remove_in-none id (m ∷ ms) h = ground (arith, remove_in-none id ms)

remove_in-some :
    (id : String) (q q' : List MemoryMessage) → remove_in id q ≡ some q' → occurs id (ids q) ≡ true
remove_in-some id [] q' h = cc
remove_in-some id (m ∷ ms) q' h = elim (Bool-cases (m.id == id)) [
  | inl e ↦ ground arith
  | inr e ↦ elim (Option-cases (remove_in id ms)) [
    | inl lost ↦ ground arith
    | inr (ms', found) ↦ ground (arith, remove_in-some id ms ms' found)
  ]
]

-- Of a first message that is taken out, and of one that stays.
first_removed :
    (id : String) (p : MemoryMessage → Bool) (m : MemoryMessage) (ms : List MemoryMessage)
    → (m.id == id) ≡ true
    → occurs id (ids ms) ≡ false
    → map view (keep p ms) ≡ without id (map view (keep p (m ∷ ms)))
first_removed id p m ms e h = elim (Bool-cases (p m)) [
  | inl k ↦ rw k (rw e (sym (without-absent id p ms h)))
  | inr k ↦ rw k (sym (without-absent id p ms h))
]

first_kept :
    (id : String) (p : MemoryMessage → Bool) (m : MemoryMessage) (ms ms' : List MemoryMessage)
    → (m.id == id) ≡ false
    → map view (keep p ms') ≡ without id (map view (keep p ms))
    → map view (keep p (m ∷ ms')) ≡ without id (map view (keep p (m ∷ ms)))
first_kept id p m ms ms' e h = elim (Bool-cases (p m)) [
  | inl k ↦ rw k (rw e (ap (λ vs. view m ∷ vs) h))
  | inr k ↦ rw k h
]

remove_in-without :
    (id : String) (p : MemoryMessage → Bool) (q q' : List MemoryMessage)
    → AreDistinct (ids q)
    → remove_in id q ≡ some q'
    → map view (keep p q') ≡ without id (map view (keep p q))
remove_in-without id p [] q' d h = cc
remove_in-without id p (m ∷ ms) q' (new, d) h = elim (Bool-cases (m.id == id)) [
  | inl e ↦
      let q'_is : ms ≡ q' = ground arith in
      let absent : occurs id (ids ms) ≡ false =
        ap (λ i. occurs i (ids ms)) (sym ((string_eq.same_iff m.id id).0 e)) ∙ new in
      ap (λ x. map view (keep p x)) (sym q'_is) ∙ first_removed id p m ms e absent
  | inr e ↦ elim (Option-cases (remove_in id ms)) [
    | inl lost ↦ ground arith
    | inr (ms', found) ↦
        let q'_is : m ∷ ms' ≡ q' = ground arith in
        ap (λ x. map view (keep p x)) (sym q'_is)
        ∙ first_kept id p m ms ms' e (remove_in-without id p ms ms' d found)
  ]
]

pending_in-absent :
    (id : String) (queues : List (String × List MemoryMessage)) (station : String) (now : ℕ)
    → occurs_in id (all_ids queues) ≡ false
    → without id (pending_in queues station now) ≡ pending_in queues station now
pending_in-absent id [] station now h = refl
pending_in-absent id ((i, q) ∷ queues) station now h = elim (Bool-cases (i == station)) [
  | inl e ↦ rw e (without-absent id (is_ready now) q (ground arith))
  | inr e ↦ rw e (pending_in-absent id queues station now (ground arith))
]

-- If no two messages have one identifier, what is pending behind a removal is what was, without it.
pub pending_in-remove_message :
    (id : String) (queues : List (String × List MemoryMessage)) (station : String) (now : ℕ)
    → AreUnique (all_ids queues)
    → pending_in (remove_message id queues) station now ≡ without id (pending_in queues station now)
pending_in-remove_message id [] station now u = refl
pending_in-remove_message id ((i, q) ∷ queues) station now (d, apart, u) =
    elim (Option-cases (remove_in id q)) [
      | inl lost ↦ elim (Bool-cases (i == station)) [
        | inl e ↦
            rw (lost, remove_message)
              (rw e (sym (without-absent id (is_ready now) q (remove_in-none id q lost))))
        | inr e ↦
            rw (lost, remove_message) (rw e (pending_in-remove_message id queues station now u))
      ]
      | inr (q', found) ↦ elim (Bool-cases (i == station)) [
        | inl e ↦
            rw (found, remove_message) (rw e (remove_in-without id (is_ready now) q q' d found))
        | inr e ↦
            let there = remove_in-some id q q' found in
            rw (found, remove_message)
              (rw e (sym (pending_in-absent id queues station now (ground (arith, apart id)))))
      ]
    ]
