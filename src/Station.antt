-- ===== src/Station.antt =====
-- `ChargingStationService` of src/modules/ocpp/services/charging-station.service.ts, one child for each
-- part: the statuses, the buffered state and the database interface, the conversions between them, the promotion of buffered stations,
-- what a transaction makes of a buffered station, and the handlers.
pub mod Status
pub mod State
pub mod Conversions
pub mod Promote
pub mod Events
pub mod Handlers
pub mod Ledger
pub mod Transactions
pub mod Meter
mod Offline
pub mod Sample
mod Tests
