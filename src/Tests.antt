-- ===== src/Tests.antt =====
-- Runs of the modelled code on concrete inputs, and the theorems at such inputs.
mod Autopilot
mod Workers
mod Feeds
mod Threads
mod Measures
mod Race
mod Evidence
mod Delivery
mod Upkeep
mod Demos
mod Briefs
mod Poller
mod Questions
