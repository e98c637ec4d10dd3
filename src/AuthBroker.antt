-- ===== src/AuthBroker.antt =====
-- auth-broker: the login handshake, leases, invitations, rate limiting and the master-key cache.
pub mod Pending
pub mod Grammar
pub mod Invitation
pub mod Lease
pub mod Cache
pub mod RateLimit
