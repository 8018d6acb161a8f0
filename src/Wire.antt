-- ===== src/Wire.antt =====
-- src/terok_clearance/wire: the text rule, the error replies and the bind of a socket.
pub mod Sanitize
pub mod Errors
pub mod Interface
pub mod Socket
pub mod Paths
