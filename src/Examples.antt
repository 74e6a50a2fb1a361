-- ===== src/Examples.antt =====
-- Runs of the parts on small inputs.
mod Fixtures
mod Signalling
mod Presence
mod Exchanging
mod Transfers
mod Watching
mod Working
mod Peers
mod Ports
mod Checking
mod Locking
mod Running
