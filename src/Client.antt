-- ===== src/Client.antt =====
-- client: the operator's side of the hub's socket.
pub mod Connection
pub mod OneShot
pub mod Rendering
pub mod Rpc
pub mod Stream
pub mod Popups
pub mod Pending
pub mod Subscriber
pub mod Sockets
