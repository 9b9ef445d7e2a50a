-- ===== src/TtlRepositories/Pairings.antt =====
-- MemoryPairingRepository of lib/storage/memory-ttl-repositories.js: a device shows a user code,
-- the user's browser activates it, and the device redeems its own code for the activation.
pub mod Codes
pub mod Store
pub mod Activation
pub mod Redemption
pub mod Tests
