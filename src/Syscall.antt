-- ===== src/Syscall.antt =====
-- os/src/syscall: the calls that work on the tables of a process, and the files of the standard streams.
pub mod Slots
pub mod Files
pub mod Stdio
pub mod Objects
mod Tests
