-- ===== src/Server.antt =====
-- src/WebRTCServer.cpp: the signalling server.
mod State
mod Membership
mod Relay
mod Files
mod Dispatch
pub mod Close
pub mod Consistency
pub mod Announce
pub mod Presence
pub mod Authority
pub mod Sharing
unfoldable pub use State.*
unfoldable pub use Membership.*
unfoldable pub use Relay.*
unfoldable pub use Files.*
unfoldable pub use Dispatch.*
