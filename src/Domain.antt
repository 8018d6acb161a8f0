-- ===== src/Domain.antt =====
-- src/terok_clearance/domain: the event that the hub fans out.
pub mod Events
