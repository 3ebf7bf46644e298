-- ===== src/Sync.antt =====
-- os/src/sync: the objects on which user threads wait for one another.
pub mod Waiting
pub mod Semaphore
pub mod Mutex
pub mod Condvar
mod Tests
