-- ===== src/Launcher.antt =====
-- launcher: the trust gate in front of docker.
pub mod Validate
