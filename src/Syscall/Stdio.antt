-- ===== src/Syscall/Stdio.antt =====
-- os/src/fs/stdio.rs: the files of the standard streams. The console is the bytes that were printed;
-- `core::str::from_utf8` is the parameter `is_utf8`, of which nothing is assumed.
use r_core_tutorial_v3_arm.Base.{
  ℕ, Bool, true, false, List, ◌++◌, length, Run, done, panic, ◌>>◌, assert,
}

pub data Stdio : Type 0 where
  stdin : Stdio
  stdout : Stdio

abbrev pub writable : Stdio → Bool
writable stdin = false
writable stdout = true

unfoldable pub write : (List ℕ → Bool) → Stdio → List ℕ → List ℕ → Run (ℕ × List ℕ)
write is_utf8 stdin buf console = panic
write is_utf8 stdout buf console = assert (is_utf8 buf) >> done (length buf, console ++ buf)
