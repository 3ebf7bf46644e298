-- ===== src/Mm.antt =====
-- os/src/mm: addresses and physical frames.
pub mod Address
pub mod Frame
pub mod Area
pub mod Entry
pub mod Access
pub mod PageTable
mod Tests
