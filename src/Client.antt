-- ===== src/Client.antt =====
-- src/WebRTCClient.cpp: a client of the signalling server.
pub mod Specs
pub mod FilePath
pub mod State
pub mod Incoming
pub mod Offering
pub mod Sending
pub mod Channel
pub mod Sender
pub mod Peering
pub mod Session
pub mod Callbacks
pub mod Startup
pub mod Worker
