-- ===== src/UpstreamPolicy.antt =====
-- lib/upstream-fetch-policy.js: which upstream addresses may be contacted, how many requests run
-- at once, and which headers are passed on.
pub mod Addresses
pub mod Parsing
pub mod Admission
pub mod Tests
