-- ===== src/Hub.antt =====
-- src/terok_clearance/hub: the clearance hub and its reader ingester.
pub mod Payload
pub mod Translate
pub mod State
pub mod Invariant
pub mod Relay
pub mod Cleanup
pub mod Mute
pub mod Verdict
pub mod Subscription
pub mod Preserved
pub mod Lifecycle
pub mod System
pub mod Desk
pub mod Ingester
pub mod Construct
pub mod Ttl
pub mod Serve
