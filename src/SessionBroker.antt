-- ===== src/SessionBroker.antt =====
-- session-broker: the containers of the running sessions.
pub mod Workers
pub mod Routes
pub mod Transports
pub mod Exits
pub mod Requests
pub mod Secrets
pub mod Clients
pub mod Launching
pub mod Spawning
