-- ===== src/Exchange.antt =====
-- src/WebRTCClient.cpp and src/WebRTCServer.cpp together: a join, and a file offer on its way from a
-- client through the server to another client, with the answer on its way back.
pub mod Documents
pub mod Hops
pub mod Accepted
pub mod Joined
pub mod Declined
