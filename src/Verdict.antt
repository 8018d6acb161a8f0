-- ===== src/Verdict.antt =====
-- verdict: the helper process that runs shield, and the hub's client of it.
pub mod Shield
pub mod Client
pub mod Server
