-- ===== src/Common.antt =====
-- freshet/common: what the workers share.
pub mod Time
pub mod Incidents
pub mod Kafka
pub mod Producer
pub mod Heartbeat
pub mod Db
