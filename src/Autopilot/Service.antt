-- ===== src/Autopilot/Service.antt =====
-- The life of one autopilot process and its restarts: what `consume_loop` calls for each message and
-- each idle poll at which `DrainThrottle` lets the drain run (freshet/autopilot/__main__.py), one
-- after the other. A raise ends the process; the next one goes on from what is stored.
mod Defs
mod Posting
unfoldable pub use Defs.*
pub use Posting.*
