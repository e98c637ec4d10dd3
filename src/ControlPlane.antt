-- ===== src/ControlPlane.antt =====
-- control-plane: the session table, its HTTP gate and the egress policy that envoy enforces.
pub mod Sessions
pub mod Handler
pub mod Policy
pub mod Recovery
