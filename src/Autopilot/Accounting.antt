-- ===== src/Autopilot/Accounting.antt =====
-- What the posts of consumer.py add up to.
pub mod Counts
pub mod Statements
pub mod Actions
pub mod Handlers
pub mod Messages
pub mod Draining
