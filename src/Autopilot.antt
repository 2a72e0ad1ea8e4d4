-- ===== src/Autopilot.antt =====
-- freshet/autopilot: cited briefs for incidents.
pub mod Brief
pub mod Leases
pub mod Agent
pub mod Impact
pub mod Recurrence
pub mod Investigate
pub mod Consumer
pub mod Drain
pub mod Accounting
pub mod Threads
pub mod Questions
pub mod Gather
pub mod Sinks
pub mod DemoTrigger
pub mod Idle
pub mod Race
pub mod Service
