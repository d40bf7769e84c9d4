-- ===== src/Messages/Refinement/Simulation.antt =====
-- The service refines the abstract view.
use voltron_ocpp_protocols.Common.{
  ℕ, suc, ◌≤◌, true, false, String, ◌≡◌, refl, ap, sym, ◌∙◌, ◌==◌, string_eq, if◌then◌else◌, Option,
  none, some, List, [], ◌∷◌, ◌++◌, arith, Bool-cases, inl, inr,
}
use mathlib.Core.Path.{subst}
use voltron_ocpp_protocols.Errors.{ok}
use voltron_ocpp_protocols.Effect.Keeps.{>>=-ok}
use voltron_ocpp_protocols.Messages.{
  MemoryMessage, QueueMessageInput, MessageId, id_text, is_ready, MessageStore, MessageService,
  use_fallback, unique_id_of, enqueue_in_memory, new_message, push, query, change_in_memory,
  dispatch_at, fail_with, enqueue_message, list_pending_messages,
}
use voltron_ocpp_protocols.Messages.Queue.{pending_in, pending_in-push, pending_in-change_message}
use voltron_ocpp_protocols.Messages.Pending.{
  taken, mark_as_dispatched-offline, mark_as_failed-offline, list_pending_messages-offline,
}
use voltron_ocpp_protocols.Messages.Draining.{all_ids, occurs_in, AreUnique, all_ids-change_message}
use voltron_ocpp_protocols.Messages.Refinement.{
  Command, enqueue, dispatch, fail, Waiting, without, place, unique_for, entry, is_available, after,
  after_all, perform, perform_all,
}
use voltron_ocpp_protocols.Messages.Refinement.Removal.{pending_in-remove_message}
use voltron_ocpp_protocols.Messages.Refinement.Pushes.{occurs_in-pushed, AreUnique-pushed}

module _ (store : MessageStore) (now : ℕ)
    (injective : (a b : ℕ) → store.uuid a ≡ store.uuid b → a ≡ b) where
  open store use {Db, uuid}

  -- There is no database, and the identifiers in the queues are apart and were drawn from the supply.
  record IsSupplied (s : MessageService Db) : Type 0 where
    offline : s.connected ≡ false
    unique : AreUnique (all_ids s.memory_queues)
    old :
        (id : String)
        → occurs_in id (all_ids s.memory_queues) ≡ true
        → (n : ℕ) × (suc n ≤ s.uuids) × (id ≡ uuid n)

  -- What waits is what is pending.
  record IsView (s : MessageService Db) (w : Waiting) : Type 0 where
    seen : (station : String) → pending_in s.memory_queues station now ≡ w.waiting station
    counted : s.uuids ≡ w.drawn

  abbrev Simulates : MessageService Db → Waiting → Type 0
  Simulates s w = IsSupplied s × IsView s w

  unique_id_of_lem :
      (o : Option String) (s : MessageService Db)
      → unique_id_of store o s
        ≡ (record s { uuids = place o s.uuids }, ok (unique_for store o s.uuids))
  unique_id_of_lem none s = refl
  unique_id_of_lem (some u) s = refl

  -- The message that is queued, and the service behind it.
  abbrev message : QueueMessageInput → MessageService Db → MemoryMessage
  message input s =
      new_message store (uuid (place input.unique_id s.uuids))
        (unique_for store input.unique_id s.uuids) input

  abbrev queued : QueueMessageInput → MessageService Db → MessageService Db
  queued input s =
      push store (message input s) (record s { uuids = suc (place input.unique_id s.uuids) })

  enqueue_message-offline :
      (input : QueueMessageInput) (s : MessageService Db)
      → s.connected ≡ false
      → (enqueue_message store input s).0 ≡ queued input s
  unfolding enqueue_message
  enqueue_message-offline input s e =
      let u = unique_for store input.unique_id s.uuids in
      let t = record s { uuids = place input.unique_id s.uuids } in
      ap (λ p. p.0)
        (>>=-ok (unique_id_of store input.unique_id)
            (λ u t.
              (if use_fallback store t
                  then enqueue_in_memory store input u
                  else query store (store.create_message input u))
                t)
            (unique_id_of_lem input.unique_id s)
          ∙ taken store (enqueue_in_memory store input u)
              (query store (store.create_message input u)) t e)

  place-ge : (o : Option String) (n : ℕ) → n ≤ place o n
  place-ge none n = omega arith
  place-ge (some u) n = omega arith

  message-fresh :
      (input : QueueMessageInput) (s : MessageService Db)
      → IsSupplied s
      → occurs_in (message input s).id (all_ids s.memory_queues) ≡ false
  message-fresh input s v =
      elim (Bool-cases (occurs_in (message input s).id (all_ids s.memory_queues))) [
        | inl e ↦
            let (n, lt, same) = v.old (message input s).id e in
            absurd (
              omega (
                arith,
                injective (place input.unique_id s.uuids) n same,
                place-ge input.unique_id s.uuids,
              ))
        | inr e ↦ e
      ]

  queued-IsSupplied :
      (input : QueueMessageInput) (s : MessageService Db)
      → IsSupplied s
      → IsSupplied (queued input s)
  queued-IsSupplied input s v = record {
    offline = v.offline;
    unique =
        AreUnique-pushed (message input s) input.station_id s.memory_queues v.unique
          (message-fresh input s v);
    old = λ id h. elim (Bool-cases (occurs_in id (all_ids s.memory_queues))) [
      | inl e ↦
          let (n, lt, same) = v.old id e in
          (n, omega (arith, place-ge input.unique_id s.uuids), same)
      | inr e ↦
          let own : (message input s).id ≡ id = (string_eq.same_iff (message input s).id id).0 (
            ground
              (arith, occurs_in-pushed (message input s) input.station_id id s.memory_queues)) in
          (place input.unique_id s.uuids, omega arith, sym own)
    ];
  }

  enqueue-Simulates :
      (input : QueueMessageInput) (s : MessageService Db) (w : Waiting)
      → Simulates s w
      → Simulates (perform store now (enqueue input) s) (after store now (enqueue input) w)
  enqueue-Simulates input s w (v, k) =
      subst (λ t. Simulates t (after store now (enqueue input) w))
        (sym (enqueue_message-offline input s v.offline))
        (
          queued-IsSupplied input s v,
          record {
            seen = λ station.
                pending_in-push s.memory_queues (message input s) station now
                ∙ ap
                    (λ vs.
                      vs
                      ++ (if input.station_id == station
                          then (if is_ready now (message input s)
                              then entry store input s.uuids ∷ []
                              else [])
                          else []))
                    (k.seen station)
                ∙ ap
                    (λ n.
                      w.waiting station
                      ++ (if input.station_id == station
                          then (if is_available now input.available_at
                              then entry store input n ∷ []
                              else [])
                          else []))
                    k.counted;
            counted = ap (λ n. suc (place input.unique_id n)) k.counted;
          },
        )

  -- A change that takes a message out.
  changed-Simulates :
      (id : MessageId) (f : MemoryMessage → MemoryMessage) (s t : MessageService Db) (w : Waiting)
      → ((m : MemoryMessage) → is_ready now (f m) ≡ false)
      → ((m : MemoryMessage) → (f m).id ≡ m.id)
      → t ≡ (change_in_memory store id f s).0
      → Simulates s w
      → Simulates t (record w { waiting = λ station. without (id_text id) (w.waiting station) })
  changed-Simulates id f s t w done named e (v, k) =
      let queues = s.memory_queues in
      let same_ids = all_ids-change_message (id_text id) f queues named in
      subst
        (λ x.
          Simulates x (record w { waiting = λ station. without (id_text id) (w.waiting station) }))
        (sym e)
        (
          record {
            offline = v.offline;
            unique = subst AreUnique (sym same_ids) v.unique;
            old = λ i h. v.old i (ap (occurs_in i) (sym same_ids) ∙ h);
          },
          record {
            seen = λ station.
                pending_in-change_message (id_text id) f queues station now done
                ∙ pending_in-remove_message (id_text id) queues station now v.unique
                ∙ ap (without (id_text id)) (k.seen station);
            counted = k.counted;
          },
        )

  perform-Simulates :
      (c : Command) (s : MessageService Db) (w : Waiting)
      → Simulates s w
      → Simulates (perform store now c s) (after store now c w)
  perform-Simulates (enqueue input) s w h = enqueue-Simulates input s w h
  perform-Simulates (dispatch id moment) s w h =
      changed-Simulates id (dispatch_at store moment) s _ w (λ m. refl) (λ m. refl)
        (ap (λ p. p.0) (mark_as_dispatched-offline store id moment s h.0.offline)) h
  perform-Simulates (fail id e) s w h =
      changed-Simulates id (fail_with store e) s _ w (λ m. refl) (λ m. refl)
        (ap (λ p. p.0) (mark_as_failed-offline store id e s h.0.offline)) h

  perform_all-Simulates :
      (cs : List Command) (s : MessageService Db) (w : Waiting)
      → Simulates s w
      → Simulates (perform_all store now cs s) (after_all store now cs w)
  unfolding perform_all after_all
  perform_all-Simulates [] s w h = h
  perform_all-Simulates (c ∷ cs) s w h = perform_all-Simulates cs _ _ (perform-Simulates c s w h)

  -- Without a database and with a supply of identifiers that never repeats, the service refines the view:
  -- after any sequence of calls on a service that starts with empty queues, what it lists for a station at a
  -- moment is what waits for it then in the view.
  pub list_pending_messages-after_all :
      (cs : List Command) (s : MessageService Db) (station : String)
      → s.connected ≡ false
      → s.memory_queues ≡ []
      → (list_pending_messages store station now (perform_all store now cs s)).1
        ≡ ok (
            (after_all store now cs (record { waiting = λ station. []; drawn = s.uuids })).waiting
              station)
  list_pending_messages-after_all cs s station e h =
      let start : Simulates s (record { waiting = λ station. []; drawn = s.uuids }) = (
        record {
          offline = e;
          unique = subst (λ q. AreUnique (all_ids q)) (sym h) tt;
          old = λ id k. absurd (cc (k, h));
        },
        record { seen = λ station. ap (λ q. pending_in q station now) h; counted = refl },
      ) in
      let (v, k) = perform_all-Simulates cs s _ start in
      ap (λ p. p.1)
        (list_pending_messages-offline store station now (perform_all store now cs s) v.offline)
      ∙ ap ok (k.seen station)
