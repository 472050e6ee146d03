-- ===== src/Ble.antt =====
-- components/service/src/ble_service.c: the GATT server.
pub mod Prepare
pub mod LongWrite
pub mod Execute
pub mod AdvData
pub mod Profile
pub mod Handlers
pub mod Setup
pub mod Links
pub mod Ready
pub mod Dispatch
pub mod Answers
pub mod Advertise
pub mod Tests
