-- ===== src/Station/Offline.antt =====
-- The parts of the handlers of charging-station.service.ts while there is no database.
pub mod Handlers
use voltron_ocpp_protocols.Common.{
  ℕ, suc, Bool, true, false, ◌||◌, not, String, ◌≡◌, refl, sym, ap, ◌∙◌, if◌then◌else◌, Option,
  none, some, List, get, set, delete, string_eq, inl, inr, Option-cases,
}
use voltron_ocpp_protocols.Json.{number_eq, Number, Value}
use voltron_ocpp_protocols.Schemas.Payloads.{
  AuthorizePayload, BootNotificationPayload, StatusNotificationPayload, StartTransactionPayload,
  StopTransactionPayload, MeterValuesPayload,
}
use voltron_ocpp_protocols.Effect.Keeps.{IsPreorder, Keeps, Keeps-pure, Keeps-lift, Keeps-bind}
use voltron_ocpp_protocols.Station.State.{
  Runtime, Service, MemoryStationState, MemoryTransactionIndex, M, pure, throw, ◌>>=◌, ◌>>◌, read,
  modify, lift, use_fallback, put_station,
}
use voltron_ocpp_protocols.Station.State.Rows.{Date}
use voltron_ocpp_protocols.Station.Status.{ConnectorStatus}
use voltron_ocpp_protocols.Station.Promote.{
  get_or_create_memory_station, promote_memory_station, promote_if_connected,
}
use mathlib.Core.Path.{subst}
use voltron_ocpp_protocols.Station.Handlers.{
  accepted_tag, booted, heartbeat_in_memory, boot_response, boot_in_memory, touch_in_memory,
  report_in_memory, handle_boot_notification, handle_authorize, handle_heartbeat,
  handle_status_notification,
}
use voltron_ocpp_protocols.Station.Transactions.{
  start_in_memory, stop_in_memory, start_stored, stop_stored, stop_mapped, stop_in_database,
  promote_buffered, handle_start_transaction, handle_stop_transaction,
}
use voltron_ocpp_protocols.Station.Ledger.{is_buffered}
use voltron_ocpp_protocols.Station.Meter.{handle_meter_values}

-- Without a database a method leaves the service without one, and leaves the database alone.
pub record Offline {Db : Type 0} (s t : Service Db) : Type 0 where
  pub kept : s.connected ≡ false → (t.connected ≡ false) × (t.db ≡ s.db)

pub Offline-IsPreorder : {Db : Type 0} → IsPreorder (Offline {Db = Db})
Offline-IsPreorder = record {
  stays = λ s. record { kept = λ h. (h, refl) };
  chains = λ s t u h k. record {
    kept = λ e. ((k.kept (h.kept e).0).0, (k.kept (h.kept e).0).1 ∙ (h.kept e).1);
  };
}

module _ (r : Runtime) where
  open r use {Db}

  -- Of a branch on the connection, only the first side counts.
  pub branch-Offline :
      {A : Type 0} (buffered stored : M Db A)
      → Keeps Offline buffered
      → Keeps Offline (λ s. (if use_fallback s then buffered else stored) s)
  branch-Offline buffered stored h = record {
    holds = λ s. record { kept = λ e. taken s e ((h.holds s).kept e) };
  }
    where
      taken :
          (s : Service Db)
          → s.connected ≡ false
          → ((buffered s).0.connected ≡ false) × ((buffered s).0.db ≡ s.db)
          → (((if use_fallback s then buffered else stored) s).0.connected ≡ false)
            × (((if use_fallback s then buffered else stored) s).0.db ≡ s.db)
      taken s e k =
          let c : use_fallback s ≡ true = ap not e in
          subst
            (λ b.
              (((if b then buffered else stored) s).0.connected ≡ false)
              × (((if b then buffered else stored) s).0.db ≡ s.db))
            (sym c) k

  pub promote_if_connected-Offline :
      (identity : String) → Keeps Offline (promote_if_connected r identity)
  promote_if_connected-Offline identity =
      branch-Offline (pure tt) (promote_memory_station r identity)
        (Keeps-pure Offline-IsPreorder tt)

  pub get_or_create_memory_station-Offline :
      (identity : String) (now : ℕ) → Keeps Offline (get_or_create_memory_station r identity now)
  unfolding get_or_create_memory_station
  get_or_create_memory_station-Offline identity now = record {
    holds = λ s. elim (Option-cases (get s.memory_stations identity)) [
      | inl e ↦ record { kept = λ h. rw (get_or_create_memory_station, e) (h, refl) }
      | inr (x, e) ↦ record { kept = λ h. rw (get_or_create_memory_station, e) (h, refl) }
    ];
  }

  pub put_station-Offline :
      (identity : String) (station : MemoryStationState)
      → Keeps Offline (modify (put_station {Db = Db} identity station))
  put_station-Offline identity station = record { holds = λ s. record { kept = λ h. (h, refl) } }

  pub changed-Offline :
      {A : Type 0} (identity : String) (now : ℕ) (f : MemoryStationState → MemoryStationState)
      (k : MemoryStationState → M Db A)
      → ((x : MemoryStationState) → Keeps Offline (k x))
      → Keeps Offline (
          get_or_create_memory_station r identity now >>= λ x.
          modify (put_station identity (f x)) >> k x)
  changed-Offline identity now f k h =
      Keeps-bind Offline-IsPreorder (get_or_create_memory_station r identity now) _
        (get_or_create_memory_station-Offline identity now)
        (λ x.
          Keeps-bind Offline-IsPreorder (modify (put_station identity (f x))) _
            (put_station-Offline identity (f x)) (λ _. h x))

  pub boot_in_memory-Offline :
      (identity : String) (payload : BootNotificationPayload) (endpoint : Option String) (now : ℕ)
      → Keeps Offline (boot_in_memory r identity payload endpoint now)
  unfolding boot_in_memory
  boot_in_memory-Offline identity payload endpoint now =
      changed-Offline identity now (booted payload endpoint now) _ (λ x.
        Keeps-bind Offline-IsPreorder (boot_response r now) _
          (Keeps-bind Offline-IsPreorder (lift _) _ (Keeps-lift Offline-IsPreorder _)
            (λ _. Keeps-pure Offline-IsPreorder _))
          (λ _. Keeps-pure Offline-IsPreorder _))

  pub touch_in_memory-Offline :
      (identity : String) (now : ℕ) → Keeps Offline (touch_in_memory r identity now)
  unfolding touch_in_memory
  touch_in_memory-Offline identity now =
      Keeps-bind Offline-IsPreorder (get_or_create_memory_station r identity now) _
        (get_or_create_memory_station-Offline identity now) (λ x. put_station-Offline identity _)

  pub report_in_memory-Offline :
      (identity : String) (payload : StatusNotificationPayload) (status : ConnectorStatus)
      (timestamp : Date) (now : ℕ)
      → Keeps Offline (report_in_memory r identity payload status timestamp now)
  unfolding report_in_memory
  report_in_memory-Offline identity payload status timestamp now =
      Keeps-bind Offline-IsPreorder (get_or_create_memory_station r identity now) _
        (get_or_create_memory_station-Offline identity now) (λ x. put_station-Offline identity _)

  pub start_in_memory-Offline :
      (identity : String) (payload : StartTransactionPayload) (now : ℕ)
      → Keeps Offline (start_in_memory r identity payload now)
  unfolding start_in_memory
  start_in_memory-Offline identity payload now =
      Keeps-bind Offline-IsPreorder (get_or_create_memory_station r identity now)
        (start_stored r identity payload) (get_or_create_memory_station-Offline identity now)
        (λ x. record { holds = λ s. record { kept = λ h. (h, refl) } })

  pub stop_stored-Offline :
      (m : MemoryTransactionIndex) (payload : StopTransactionPayload) (x : MemoryStationState)
      → Keeps Offline (stop_stored r m payload x)
  stop_stored-Offline m payload x =
      elim (Option-cases (get x.transactions payload.transaction_id)) [
        | inl e ↦ rw (stop_stored, e) (record { holds = λ s. record { kept = λ h. (h, refl) } })
        | inr (t, e) ↦
            rw (stop_stored, e) (record { holds = λ s. record { kept = λ h. (h, refl) } })
      ]

  pub stop_in_memory-Offline :
      (mapping : Option MemoryTransactionIndex) (payload : StopTransactionPayload) (now : ℕ)
      → Keeps Offline (stop_in_memory r mapping payload now)
  unfolding stop_in_memory
  stop_in_memory-Offline none payload now = record { holds = λ s. record { kept = λ h. (h, refl) } }
  stop_in_memory-Offline (some m) payload now =
      Keeps-bind Offline-IsPreorder (get_or_create_memory_station r m.station_identity now)
        (stop_stored r m payload) (get_or_create_memory_station-Offline m.station_identity now)
        (λ x. stop_stored-Offline m payload x)

  pub promote_buffered-Offline :
      (mapping : Option MemoryTransactionIndex) → Keeps Offline (promote_buffered r mapping)
  promote_buffered-Offline none = Keeps-pure Offline-IsPreorder tt
  promote_buffered-Offline (some m) = elim (Option-cases m.db_transaction_id) [
    | inl e ↦ rw e (promote_if_connected-Offline m.station_identity)
    | inr (d, e) ↦ rw e (Keeps-pure Offline-IsPreorder tt)
  ]

  pub heartbeat_in_memory-Offline :
      (identity : String) (now : ℕ) → Keeps Offline (heartbeat_in_memory r identity now)
  unfolding heartbeat_in_memory
  heartbeat_in_memory-Offline identity now =
      Keeps-bind Offline-IsPreorder (touch_in_memory r identity now) _
        (touch_in_memory-Offline identity now)
        (λ _.
          Keeps-bind Offline-IsPreorder (lift _) _ (Keeps-lift Offline-IsPreorder _)
            (λ _. Keeps-pure Offline-IsPreorder _))

  -- A method that first promotes, and then branches on the connection.
  pub promoted-Offline :
      {A : Type 0} (identity : String) (buffered stored : M Db A)
      → Keeps Offline buffered
      → Keeps Offline
          (promote_if_connected r identity >> λ s. (if use_fallback s then buffered else stored) s)
  promoted-Offline identity buffered stored h =
      Keeps-bind Offline-IsPreorder (promote_if_connected r identity) _
        (promote_if_connected-Offline identity) (λ _. branch-Offline buffered stored h)

  pub stop_mapped-Offline :
      (mapping : Option MemoryTransactionIndex) (payload : StopTransactionPayload) (now : ℕ)
      → Keeps Offline (stop_mapped r mapping payload now)
  stop_mapped-Offline mapping payload now = record {
    holds = λ s. record {
      kept = λ e. rw (taken s e) (((stop_in_memory-Offline mapping payload now).holds s).kept e);
    };
  }
    where
      taken :
          (s : Service Db)
          → s.connected ≡ false
          → stop_mapped r mapping payload now s ≡ stop_in_memory r mapping payload now s
      taken s e =
          let c : use_fallback s ≡ true = ap not e in
          ap
            (λ b.
              (if b || is_buffered mapping
                  then stop_in_memory r mapping payload now
                  else stop_in_database r mapping payload)
                s)
            c
