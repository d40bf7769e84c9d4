-- ===== src/Messages/Queue.antt =====
-- The buffered queues of station-message.service.ts: what is pending behind an operation.
use voltron_ocpp_protocols.Common.{
  ℕ, Bool, true, false, String, ◌≡◌, refl, ap, sym, ◌∙◌, ◌==◌, if◌then◌else◌, Option, none, some,
  List, [], ◌∷◌, ◌++◌, map, set, string_eq, arith, Bool-cases, inl, inr, get-set,
}
use voltron_ocpp_protocols.Messages.{
  MemoryMessage, QueuedMessage, view, is_ready, keep, queue_of, change_in, change_message,
}

keep-append :
    (p : MemoryMessage → Bool) (xs ys : List MemoryMessage)
    → keep p (xs ++ ys) ≡ keep p xs ++ keep p ys
keep-append p [] ys = refl
keep-append p (x ∷ xs) ys = ground (arith, keep-append p xs ys)

map-append :
    (f : MemoryMessage → QueuedMessage) (xs ys : List MemoryMessage)
    → map f (xs ++ ys) ≡ map f xs ++ map f ys
map-append f [] ys = refl
map-append f (x ∷ xs) ys = ap (λ zs. f x ∷ zs) (map-append f xs ys)

append-nil : (xs : List QueuedMessage) → xs ++ [] ≡ xs
append-nil [] = refl
append-nil (x ∷ xs) = ap (λ ys. x ∷ ys) (append-nil xs)

-- What is pending for a station, in a map of queues.
abbrev pub pending_in : List (String × List MemoryMessage) → String → ℕ → List QueuedMessage
pending_in queues station now = map view (keep (is_ready now) (queue_of queues station))

-- The messages that a push adds to what is pending.
abbrev pub added : MemoryMessage → String → ℕ → List QueuedMessage
added m station now =
    if m.station_id == station then (if is_ready now m then view m ∷ [] else []) else []

added-same :
    (m : MemoryMessage) (q : List MemoryMessage) (now : ℕ)
    → map view (keep (is_ready now) (q ++ (m ∷ [])))
      ≡ map view (keep (is_ready now) q) ++ (if is_ready now m then view m ∷ [] else [])
added-same m q now =
    rw
      (
        keep-append (is_ready now) q (m ∷ []),
        map-append view (keep (is_ready now) q) (keep (is_ready now) (m ∷ [])),
      )
      (last (is_ready now m))
  where
    last :
        (b : Bool)
        → map view (keep (is_ready now) q) ++ map view (if b then m ∷ [] else [])
          ≡ map view (keep (is_ready now) q) ++ (if b then view m ∷ [] else [])
    last true = refl
    last false = refl

pub pending_in-push :
    (queues : List (String × List MemoryMessage)) (m : MemoryMessage) (station : String) (now : ℕ)
    → pending_in (set queues m.station_id (queue_of queues m.station_id ++ (m ∷ []))) station now
      ≡ pending_in queues station now ++ added m station now
pending_in-push queues m station now = elim (Bool-cases (m.station_id == station)) [
  | inl e ↦
      rw (get-set queues m.station_id station (queue_of queues m.station_id ++ (m ∷ [])), e)
        (added-same m (queue_of queues m.station_id) now
          ∙ ap (λ k. pending_in queues k now ++ (if is_ready now m then view m ∷ [] else []))
              ((string_eq.same_iff m.station_id station).0 e))
  | inr e ↦
      rw (get-set queues m.station_id station (queue_of queues m.station_id ++ (m ∷ [])), e)
        (sym (append-nil (pending_in queues station now)))
]

-- The specification of a change: the first message of an id is taken out of the first queue that has it.
abbrev pub remove_in : String → List MemoryMessage → Option (List MemoryMessage)
remove_in id [] = none
remove_in id (m ∷ ms) =
    let rest = remove_in id ms in
    if m.id == id then some ms else elim rest [ none ↦ none | some ms' ↦ some (m ∷ ms') ]

abbrev pub remove_message :
    String → List (String × List MemoryMessage) → List (String × List MemoryMessage)
remove_message id [] = []
remove_message id ((station, queue) ∷ rest) =
    let rest' = remove_message id rest in
    elim (remove_in id queue) [
      | none ↦ (station, queue) ∷ rest'
      | some queue' ↦ (station, queue') ∷ rest
    ]

-- What is kept of a queue, if there is one.
abbrev kept : ℕ → Option (List MemoryMessage) → Option (List MemoryMessage)
kept now none = none
kept now (some q) = some (keep (is_ready now) q)

kept-change_in :
    (id : String) (f : MemoryMessage → MemoryMessage) (now : ℕ) (q : List MemoryMessage)
    → ((m : MemoryMessage) → is_ready now (f m) ≡ false)
    → kept now (change_in id f q) ≡ kept now (remove_in id q)
unfolding change_in
kept-change_in id f now [] h = refl
kept-change_in id f now (m ∷ ms) h = elim (Bool-cases (m.id == id)) [
  | inl e ↦ rw (change_in, e, h m) refl
  | inr e ↦
      rw (change_in, e) (skip (change_in id f ms) (remove_in id ms) (kept-change_in id f now ms h))
]
  where
    skip :
        (x y : Option (List MemoryMessage))
        → kept now x ≡ kept now y
        → kept now (elim x [ none ↦ none | some ms' ↦ some (m ∷ ms') ])
          ≡ kept now (elim y [ none ↦ none | some ms' ↦ some (m ∷ ms') ])
    skip none none e = refl
    skip (some a) (some b) e = ground (arith, e)
    skip none (some b) e = cc
    skip (some a) none e = cc

-- What is pending behind a first queue.
pending_in-first :
    (i : String) (a b : List MemoryMessage) (xs ys : List (String × List MemoryMessage))
    (station : String) (now : ℕ)
    → keep (is_ready now) a ≡ keep (is_ready now) b
    → pending_in xs station now ≡ pending_in ys station now
    → pending_in ((i, a) ∷ xs) station now ≡ pending_in ((i, b) ∷ ys) station now
pending_in-first i a b xs ys station now h k = elim (Bool-cases (i == station)) [
  | inl e ↦ rw e (ap (map view) h)
  | inr e ↦ rw e k
]

pub pending_in-change_message :
    (id : String) (f : MemoryMessage → MemoryMessage) (queues : List (String × List MemoryMessage))
    (station : String) (now : ℕ)
    → ((m : MemoryMessage) → is_ready now (f m) ≡ false)
    → pending_in (change_message id f queues) station now
      ≡ pending_in (remove_message id queues) station now
unfolding change_message
pending_in-change_message id f [] station now h = refl
pending_in-change_message id f ((i, q) ∷ rest) station now h =
    first (pending_in-change_message id f rest station now h) (change_in id f q) (remove_in id q)
      (kept-change_in id f now q h)
  where
    first :
        pending_in (change_message id f rest) station now
          ≡ pending_in (remove_message id rest) station now
        → (x y : Option (List MemoryMessage)) → kept now x ≡ kept now y
        → pending_in
            (elim x [ none ↦ (i, q) ∷ change_message id f rest | some q' ↦ (i, q') ∷ rest ])
            station
            now
          ≡ pending_in
              (elim y [ none ↦ (i, q) ∷ remove_message id rest | some q' ↦ (i, q') ∷ rest ])
              station
              now
    first k none none e =
        pending_in-first i q q (change_message id f rest) (remove_message id rest) station now refl
          k
    first k (some a) (some b) e = pending_in-first i a b rest rest station now (cc) refl
    first k none (some b) e = cc
    first k (some a) none e = cc
