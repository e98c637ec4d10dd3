-- ===== src/ApiCore.antt =====
-- api-core: the names that the API accepts.
pub mod Names
