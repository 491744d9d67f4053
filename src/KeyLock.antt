-- ===== src/KeyLock.antt =====
-- common/keylock: a mutex for each key, made when it is first wanted and cleaned up when unused.
pub mod Locks
pub mod Threads
pub mod Counting
mod Invariant
pub mod Exclusion
mod Samples
