-- ===== src/Lib.antt =====
-- Jumpgate Bridge: the storage layer in memory, which is the reference for the Redis one.
--
-- The program keeps its short-lived and its playback state in repositories. A repository checks
-- its arguments (lib/storage/repository-utils.js, lib/storage/json-domain.js), reads the clock,
-- drops what has expired and then reads and changes its maps. Opaque tokens are stored as keyed
-- hashes only (lib/storage/token-service.js).
--
-- Files and the code that they model:
--   Prelude and its children: lists, texts as UTF-16 code units, the JavaScript Map as an
--     association list in insertion order, operations as functions from a state to a result and
--     the state that they leave. What was written before a throw stays written.
--   Value: the values that reach the checks, as data.
--   RepositoryUtils: lib/storage/repository-utils.js; RepositoryUtils/Fences: its decimal mutation
--     fences (assertMutationFence, compareMutationFences, nextMutationFence).
--   JsonDomain: lib/storage/json-domain.js, which values are JSON.
--   TokenService: lib/storage/token-service.js.
--   Generations: MemoryManagementGenerationStore of lib/storage/memory-repositories.js.
--   PlaybackSession and its child Inputs: lib/storage/playback-session.js, the records and the
--     normalisation of every input.
--   PlaybackSessions: lib/storage/memory-playback-session-repository.js. State has its fields and
--     private helpers, Sessions openSession, getSession, transition and transitionAndEnqueue,
--     Dispatches claimDispatch, Deliveries withDispatchAdmission and retryDispatch, Invalidation
--     the invalidate methods, Profiles the snapshot, the erasure and the restoration of a profile,
--     Invariant the proofs that each of them keeps the repository consistent; Selection and
--     Exclusion are about claimDispatch.
--   TtlRepositories: lib/storage/memory-ttl-repositories.js. Limits, Leases, OauthStates and
--     Pairings are its four repositories. Pairings/Codes has the user codes, Pairings/Store the
--     fields, _prune and issue, Pairings/Activation activate and recoverActivation with the checks
--     of lib/storage/pairing-replay.js, Pairings/Redemption the other methods. Its records are
--     objects that three maps share, so they stand on a heap and the maps hold addresses.
--   Lifecycle: lib/storage/lifecycle-invalidation.js. Coordinator is the lock of each profile, as
--     steps between its awaits in any interleaving; Invalidations the queue of invalidations.
--   Profiles: MemoryProfileRepository of lib/storage/memory-profile-provider-repositories.js. Records
--     has the changes of a record, Operations and Erasure the methods, Lifetime and the modules
--     after it what the methods keep. Its store holds the invalidations and the playback sessions.
--   Providers: MemoryProviderRepository of the same file, with replaceAll in Replacing; Fencing,
--     Steps and Stale are about the fences, and RepositoryUtils/Fences/Successor about their
--     counting.
--   UpstreamPolicy: lib/upstream-fetch-policy.js. Parsing and Addresses are the reading of IP
--     addresses and the ranges that are not global; Admission is BoundedSemaphore, with its
--     requests, keys and handles as numbers and texts, and its events in any order; a request runs
--     from the time it is given a release handle until that handle is called.
--
-- Parameters stand for code outside the repository and for its answers: HMAC-SHA256, SHA-256, the
-- envelope cipher and its check of an envelope, the texts of random tokens, JSON.stringify,
-- Date.parse, localeCompare, net.isIPv4 and net.isIPv6, isDeepStrictEqual, a reading of the clock,
-- and the callbacks that say whether a profile's and a device's binding still hold. The profiles
-- take the subtitle manifests, which are not modelled, as a parameter too.
-- A clock is read where the source reads it; an operation that reads it twice takes two readings.
--
-- Methods are atomic here. Those of the playback and the profile repository run under the lifecycle
-- coordinator's lock of the profile, and those of the other repositories have no await before their
-- last write. The lock itself is modelled step by step.
-- Messages of errors are left out: an error is its class or its code.
--
-- Loops that the source bounds by a number of attempts recur on that number, and loops over a
-- collection on the list that they walk. The endless loop of claimDispatch recurs on fuel, and
-- running out of it is an outcome of its own: a round that goes round again has revoked a dispatch
-- or has met one that changed in between. Decimal numerals are printed with fuel for 130 digits,
-- more than the 128 that a fence may have.
--
-- Not modelled: the Redis, SQL and S3 repositories, the HTTP server and its services, the network
-- side of lib/upstream-fetch-policy.js, management sessions, history grants, devices and history,
-- source contexts, subtitle delivery, the browser client and the deployment scripts.
pub mod Prelude
pub mod Value
pub mod RepositoryUtils
pub mod JsonDomain
pub mod TokenService
pub mod PlaybackSession
pub mod PlaybackSessions
pub mod Generations
pub mod TtlRepositories
pub mod UpstreamPolicy
pub mod Lifecycle
pub mod Profiles
pub mod Providers
