-- ===== src/Messages/Draining.antt =====
-- The buffered messages of station-message.service.ts, when the first that is pending is dispatched.
use voltron_ocpp_protocols.Common.{
  ℕ, Bool, true, false, ◌||◌, String, ◌≡◌, refl, ap, sym, ◌∙◌, ◌==◌, string_eq, eq_iff, none, some,
  List, [], ◌∷◌, map, arith, Bool-cases, inl, inr, Option-cases,
}
use voltron_ocpp_protocols.Messages.{
  MemoryMessage, QueuedMessage, id_text, view, is_ready, keep, queue_of, change_in, change_message,
}
use voltron_ocpp_protocols.Messages.Queue.{
  pending_in, remove_in, remove_message, pending_in-change_message,
}

abbrev pub ids : List MemoryMessage → List String
ids [] = []
ids (m ∷ ms) = m.id ∷ ids ms

abbrev pub all_ids : List (String × List MemoryMessage) → List (List String)
all_ids [] = []
all_ids ((station, queue) ∷ rest) = ids queue ∷ all_ids rest

abbrev pub occurs : String → List String → Bool
occurs id [] = false
occurs id (x ∷ xs) = x == id || occurs id xs

abbrev pub occurs_in : String → List (List String) → Bool
occurs_in id [] = false
occurs_in id (xs ∷ rest) = occurs id xs || occurs_in id rest

abbrev pub AreDistinct : List String → Type 0
AreDistinct [] = Unit {0}
AreDistinct (x ∷ xs) = (occurs x xs ≡ false) × AreDistinct xs

-- No identifier is in two places of the lists.
abbrev pub AreUnique : List (List String) → Type 0
AreUnique [] = Unit {0}
AreUnique (xs ∷ rest) =
    AreDistinct xs
    × ((id : String) → occurs_in id rest ≡ true → occurs id xs ≡ false)
    × AreUnique rest

occurs-keep :
    (p : MemoryMessage → Bool) (q : List MemoryMessage) (m : MemoryMessage)
    (rest : List MemoryMessage)
    → keep p q ≡ m ∷ rest
    → occurs m.id (ids q) ≡ true
occurs-keep p [] m rest h = cc
occurs-keep p (x ∷ xs) m rest h = elim (Bool-cases (p x)) [
  | inl e ↦ ground (arith, eq_iff x.id m.id)
  | inr e ↦ ground (arith, occurs-keep p xs m rest)
]

-- Taking out the first kept message leaves the others.
remove_in-first :
    (p : MemoryMessage → Bool) (q : List MemoryMessage) (m : MemoryMessage)
    (rest : List MemoryMessage)
    → AreDistinct (ids q)
    → keep p q ≡ m ∷ rest
    → (q' : List MemoryMessage) × (remove_in m.id q ≡ some q') × (keep p q' ≡ rest)
remove_in-first p [] m rest d h = cc
remove_in-first p (x ∷ xs) m rest (new, d) h = elim (Bool-cases (p x)) [
  | inl e ↦ (xs, ground (arith, eq_iff x.id m.id), ground arith)
  | inr e ↦
      let later : keep p xs ≡ m ∷ rest = ground arith in
      let (q', a, b) = remove_in-first p xs m rest d later in
      (x ∷ q', ground (arith, eq_iff x.id m.id, occurs-keep p xs m rest later), ground arith)
]

remove_in-absent :
    (id : String) (q : List MemoryMessage) → occurs id (ids q) ≡ false → remove_in id q ≡ none
remove_in-absent id [] h = refl
remove_in-absent id (m ∷ ms) h = ground (arith, remove_in-absent id ms)

ids-change_in :
    (id : String) (f : MemoryMessage → MemoryMessage) (q q' : List MemoryMessage)
    → ((m : MemoryMessage) → (f m).id ≡ m.id)
    → change_in id f q ≡ some q'
    → ids q' ≡ ids q
unfolding change_in
ids-change_in id f [] q' h e = cc
ids-change_in id f (m ∷ ms) q' h e = elim (Bool-cases (m.id == id)) [
  | inl same ↦
      let q'_is : f m ∷ ms ≡ q' = ground arith in ap ids (sym q'_is) ∙ ap (λ x. x ∷ ids ms) (h m)
  | inr different ↦ elim (Option-cases (change_in id f ms)) [
    | inl lost ↦ ground arith
    | inr (ms', found) ↦
        let q'_is : m ∷ ms' ≡ q' = ground arith in
        ap ids (sym q'_is) ∙ ap (λ x. m.id ∷ x) (ids-change_in id f ms ms' h found)
  ]
]

-- A change that keeps the identifier of its message keeps all identifiers.
pub all_ids-change_message :
    (id : String) (f : MemoryMessage → MemoryMessage) (queues : List (String × List MemoryMessage))
    → ((m : MemoryMessage) → (f m).id ≡ m.id)
    → all_ids (change_message id f queues) ≡ all_ids queues
unfolding change_message
all_ids-change_message id f [] h = refl
all_ids-change_message id f ((station, queue) ∷ rest) h =
    elim (Option-cases (change_in id f queue)) [
      | inl lost ↦
          rw (lost, change_message) (ap (λ x. ids queue ∷ x) (all_ids-change_message id f rest h))
      | inr (queue', found) ↦
          rw (found, change_message)
            (ap (λ x. x ∷ all_ids rest) (ids-change_in id f queue queue' h found))
    ]

-- What is ready for a station, in its queue.
abbrev pub ready_in : List (String × List MemoryMessage) → String → ℕ → List MemoryMessage
ready_in queues station now = keep (is_ready now) (queue_of queues station)

module _ (i station : String) (q : List MemoryMessage) (queues : List (String × List MemoryMessage))
    (now : ℕ) where
  ready_here :
      (i == station) ≡ true → ready_in ((i, q) ∷ queues) station now ≡ keep (is_ready now) q
  ready_here e = rw e refl

  ready_there :
      (i == station) ≡ false → ready_in ((i, q) ∷ queues) station now ≡ ready_in queues station now
  ready_there e = rw e refl

occurs_in-ready :
    (queues : List (String × List MemoryMessage)) (station : String) (now : ℕ) (m : MemoryMessage)
    (rest : List MemoryMessage)
    → ready_in queues station now ≡ m ∷ rest
    → occurs_in m.id (all_ids queues) ≡ true
occurs_in-ready [] station now m rest h = cc
occurs_in-ready ((i, q) ∷ queues) station now m rest h = elim (Bool-cases (i == station)) [
  | inl same ↦ ground (
    arith,
    occurs-keep (is_ready now) q m rest (sym (ready_here i station q queues now same) ∙ h),
  )
  | inr other ↦ ground (
    arith,
    occurs_in-ready queues station now m rest (sym (ready_there i station q queues now other) ∙ h),
  )
]

-- Taking out the first message that is ready for a station leaves the others of the station.
ready_in-remove_message :
    (queues : List (String × List MemoryMessage)) (station : String) (now : ℕ) (m : MemoryMessage)
    (rest : List MemoryMessage)
    → AreUnique (all_ids queues)
    → ready_in queues station now ≡ m ∷ rest
    → ready_in (remove_message m.id queues) station now ≡ rest
ready_in-remove_message [] station now m rest u h = cc
ready_in-remove_message ((i, q) ∷ queues) station now m rest (d, apart, u) h =
    elim (Bool-cases (i == station)) [
      | inl same ↦
          let (q', taken, left) =
            remove_in-first (is_ready now) q m rest d
              (sym (ready_here i station q queues now same) ∙ h) in
          rw (taken, remove_message) (ready_here i station q' queues now same ∙ left)
      | inr other ↦
          let later = sym (ready_there i station q queues now other) ∙ h in
          let absent =
            remove_in-absent m.id q
              (apart m.id (occurs_in-ready queues station now m rest later)) in
          rw (absent, remove_message)
            (ready_there i station q (remove_message m.id queues) now other
              ∙ ready_in-remove_message queues station now m rest u later)
    ]

-- Once the first of the messages that are pending for a station is dispatched or failed, the others are
-- pending, if no two messages have one identifier.
pub pending_in-change_first :
    (f : MemoryMessage → MemoryMessage) (queues : List (String × List MemoryMessage))
    (station : String) (now : ℕ) (v : QueuedMessage) (vs : List QueuedMessage)
    → ((m : MemoryMessage) → is_ready now (f m) ≡ false)
    → AreUnique (all_ids queues)
    → pending_in queues station now ≡ v ∷ vs
    → pending_in (change_message (id_text v.id) f queues) station now ≡ vs
pending_in-change_first f queues station now v vs done u h =
    first (ready_in queues station now) refl h
  where
    first :
        (ms : List MemoryMessage)
        → ready_in queues station now ≡ ms
        → map view ms ≡ v ∷ vs
        → pending_in (change_message (id_text v.id) f queues) station now ≡ vs
    first [] e k = cc
    first (m ∷ ms) e k =
        let id_is : id_text v.id ≡ m.id = ground arith in
        ap (λ i. pending_in (change_message i f queues) station now) id_is
        ∙ pending_in-change_message m.id f queues station now done
        ∙ ap (map view) (ready_in-remove_message queues station now m ms u e)
        ∙ (cc)
