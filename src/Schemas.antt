-- ===== src/Schemas.antt =====
-- The payloads of src/modules/ocpp/messages/schemas.ts and their guards.
pub mod Timestamp
pub mod Guards
pub mod Parse
pub mod Payloads
