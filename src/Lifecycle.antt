-- ===== src/Lifecycle.antt =====
-- lib/storage/lifecycle-invalidation.js: the lock of each profile, and the queue of the
-- invalidations that other stores still have to carry out.
pub mod Coordinator
pub mod Invalidations
pub mod Tests
