-- ===== src/PlaybackSessions.antt =====
-- lib/storage/memory-playback-session-repository.js: the playback sessions of the devices, and the
-- queue of scrobble dispatches that the sessions' transitions feed.
pub mod State
pub mod Sessions
pub mod Dispatches
pub mod Deliveries
pub mod Invalidation
pub mod Profiles
pub mod Invariant
pub mod Exclusion
pub mod Selection
pub mod Tests
