-- ===== src/TtlRepositories.antt =====
-- lib/storage/memory-ttl-repositories.js: the repositories of short-lived records. Each operation
-- first removes the records whose time has passed.
pub mod Limits
pub mod Leases
pub mod OauthStates
pub mod Pairings
pub mod Tests
