-- ===== src/Messages/Pending.antt =====
-- What station-message.service.ts lists behind an operation, while there is no database.
use voltron_ocpp_protocols.Common.{
  ℕ, suc, true, false, not, String, ◌≡◌, refl, ap, ◌∙◌, if◌then◌else◌, Option, none, some, [], ◌∷◌,
  ◌++◌, ◌==◌, string_eq,
}
use voltron_ocpp_protocols.Errors.{ok, Thrown}
use voltron_ocpp_protocols.Effect.Keeps.{>>=-ok}
use voltron_ocpp_protocols.Messages.{
  is_ready, MessageId, QueueMessageInput, MemoryMessage, id_text, push, new_message, MessageStore,
  MessageService, M, use_fallback, unique_id_of, enqueue_in_memory, change_in_memory, dispatch_at,
  fail_with, stored_id, error_text, pure, lift, ◌>>=◌, query, enqueue_message,
  list_pending_messages, mark_as_dispatched, mark_as_failed,
}
use voltron_ocpp_protocols.Messages.Refinement.{is_available, place, unique_for, entry}
use voltron_ocpp_protocols.Messages.Queue.{
  pending_in, remove_message, pending_in-push, pending_in-change_message,
}

module _ (store : MessageStore) where
  open store use {Db, uuid, create_message, find_pending, set_dispatched, set_failed}

  -- Of a branch on the connection, the first side is taken.
  pub taken :
      {A : Type 0} (buffered stored : M store A) (s : MessageService Db)
      → s.connected ≡ false
      → (if use_fallback store s then buffered else stored) s ≡ buffered s
  taken buffered stored s e =
      let c : use_fallback store s ≡ true = ap not e in
      ap (λ b. (if b then buffered else stored) s) c

  pub mark_as_dispatched-offline :
      (id : MessageId) (moment : ℕ) (s : MessageService Db)
      → s.connected ≡ false
      → mark_as_dispatched store id moment s
        ≡ change_in_memory store id (dispatch_at store moment) s
  unfolding mark_as_dispatched
  mark_as_dispatched-offline id moment s e =
      taken (change_in_memory store id (dispatch_at store moment))
        (lift (stored_id store id) >>= λ n. query store (set_dispatched n moment)) s e

  pub mark_as_failed-offline :
      (id : MessageId) (x : Thrown) (s : MessageService Db)
      → s.connected ≡ false
      → mark_as_failed store id x s ≡ change_in_memory store id (fail_with store x) s
  unfolding mark_as_failed
  mark_as_failed-offline id x s e =
      taken (change_in_memory store id (fail_with store x))
        (lift (stored_id store id) >>= λ n. query store (set_failed n (error_text store x))) s e

  pub list_pending_messages-offline :
      (station : String) (now : ℕ) (s : MessageService Db)
      → s.connected ≡ false
      → list_pending_messages store station now s ≡ (s, ok (pending_in s.memory_queues station now))
  unfolding list_pending_messages
  list_pending_messages-offline station now s e =
      taken (pure (pending_in s.memory_queues station now)) (query store (find_pending station now))
        s e

  listed :
      (station : String) (now : ℕ) (s : MessageService Db)
      → s.connected ≡ false
      → (list_pending_messages store station now s).1 ≡ ok (pending_in s.memory_queues station now)
  listed station now s e = ap (λ p. p.1) (list_pending_messages-offline station now s e)

  changed :
      (id : MessageId) (f : MemoryMessage → MemoryMessage) (now : ℕ) (station : String)
      (s : MessageService Db) (m : M store (Unit {0}))
      → s.connected ≡ false
      → ((x : MemoryMessage) → is_ready now (f x) ≡ false)
      → m s ≡ change_in_memory store id f s
      → ((m s).1 ≡ ok tt)
        × ((list_pending_messages store station now (m s).0).1
            ≡ ok (pending_in (remove_message (id_text id) s.memory_queues) station now))
  changed id f now station s m e h k = (
    ap (λ p. p.1) k,
    ap (λ p. (list_pending_messages store station now p.0).1) k
        ∙ listed station now (change_in_memory store id f s).0 e
        ∙ ap ok (pending_in-change_message (id_text id) f s.memory_queues station now h),
  )

  -- While there is no database, marking a message as dispatched succeeds, and what is then listed of any
  -- station is what is pending once the first message of that id is taken out of its queue.
  pub list_pending_messages-mark_as_dispatched :
      (id : MessageId) (moment now : ℕ) (station : String) (s : MessageService Db)
      → s.connected ≡ false
      → ((mark_as_dispatched store id moment s).1 ≡ ok tt)
        × ((list_pending_messages store station now (mark_as_dispatched store id moment s).0).1
            ≡ ok (pending_in (remove_message (id_text id) s.memory_queues) station now))
  list_pending_messages-mark_as_dispatched id moment now station s e =
      changed id (dispatch_at store moment) now station s (mark_as_dispatched store id moment) e
        (λ x. refl) (mark_as_dispatched-offline id moment s e)

  -- While there is no database, marking a message as failed succeeds, and what is then listed of any
  -- station is what is pending once the first message of that id is taken out of its queue.
  pub list_pending_messages-mark_as_failed :
      (id : MessageId) (x : Thrown) (now : ℕ) (station : String) (s : MessageService Db)
      → s.connected ≡ false
      → ((mark_as_failed store id x s).1 ≡ ok tt)
        × ((list_pending_messages store station now (mark_as_failed store id x s).0).1
            ≡ ok (pending_in (remove_message (id_text id) s.memory_queues) station now))
  list_pending_messages-mark_as_failed id x now station s e =
      changed id (fail_with store x) now station s (mark_as_failed store id x) e (λ y. refl)
        (mark_as_failed-offline id x s e)

  -- An identifier changes neither the queues nor the connection.
  identified :
      (o : Option String) (s : MessageService Db)
      → unique_id_of store o s
        ≡ (record s { uuids = place o s.uuids }, ok (unique_for store o s.uuids))
  identified none s = refl
  identified (some u) s = refl

  enqueued :
      (input : QueueMessageInput) (s : MessageService Db)
      → s.connected ≡ false
      → enqueue_message store input s
        ≡ enqueue_in_memory store input
            (unique_for store input.unique_id s.uuids)
            (record s { uuids = place input.unique_id s.uuids })
  unfolding enqueue_message
  enqueued input s e =
      let u = unique_for store input.unique_id s.uuids in
      >>=-ok (unique_id_of store input.unique_id)
        (λ u t.
          (if use_fallback store t
              then enqueue_in_memory store input u
              else query store (create_message input u))
            t)
        (identified input.unique_id s)
      ∙ taken (enqueue_in_memory store input u) (query store (create_message input u))
          (record s { uuids = place input.unique_id s.uuids }) e

  -- While there is no database, a message is queued for its station, and what is then listed of any
  -- station is what was pending before, in order, followed by the new message if it is for that station
  -- and its moment, if it has one, has come. The message has the action and the payload of the input, a
  -- new identifier, and the unique identifier that the input gives or else a new one.
  pub list_pending_messages-enqueue_message :
      (input : QueueMessageInput) (s : MessageService Db)
      → s.connected ≡ false
      → ((enqueue_message store input s).1 ≡ ok (entry store input s.uuids))
        × ((station : String) (now : ℕ)
            → (list_pending_messages store station now (enqueue_message store input s).0).1
              ≡ ok (
                  pending_in s.memory_queues station now
                  ++ (if input.station_id == station
                      then (if is_available now input.available_at
                          then entry store input s.uuids ∷ []
                          else [])
                      else [])))
  list_pending_messages-enqueue_message input s e =
      let q = enqueued input s e in
      let n = place input.unique_id s.uuids in
      let m = new_message store (uuid n) (unique_for store input.unique_id s.uuids) input in
      let t = push store m (record s { uuids = suc n }) in
      (
        ap (λ p. p.1) q,
        λ station now.
            ap (λ p. (list_pending_messages store station now p.0).1) q
            ∙ listed station now t e
            ∙ ap ok (pending_in-push s.memory_queues m station now),
      )
