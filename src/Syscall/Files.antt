-- ===== src/Syscall/Files.antt =====
-- os/src/syscall/fs.rs: the calls on descriptors. The table holds the numbers of the open files. What a
-- file does (`dyn File`, whose implementations are many) is a parameter of which nothing is assumed, as
-- is `open_file`. The memory of the user is a function from addresses to bytes, fixed during a call.
pub mod Descriptors
pub mod Writing
use r_core_tutorial_v3_arm.Base.{
  ℕ, zero, suc, ◌+◌, ◌-◌, ◌*◌, ◌/◌, ◌%◌, ◌^◌, ◌≤◌, ◌<◌, min, bit_and, bit_or, ◌≡◌, refl, sym, ap,
  ◌∙◌, subst, fun_ext, ◌≢◌, ◌↔◌, ◌⊎◌, inl, inr, Bool, true, false, not, ◌&&◌, ◌||◌, Option, none,
  some, List, [], ◌∷◌, ◌++◌, map, arith, ltb, leb, ◌==◌, if◌then◌else◌, ltb→lt, leb→le, ==_iff,
  eq_refl, Bool-cases, Option-cases, length, get_elem?, set, get_or, take, drop, replicate,
  length-append, length-set, length-replicate, get_or-set_self, get_or-set_ne, get_elem?-set_self,
  get_elem?-set_ne, All, All-map, All-append, contains, Distinct, contains-append, Distinct-snoc,
  Run, done, panic, ◌>>=◌, ◌>>◌, take-nil, drop-nil, take-append-drop, length-drop, List-cases,
  ltb-suc, ltb-zero, assert, unwrap, done-injective,
}
use r_core_tutorial_v3_arm.Base.Int.{ℤ, pos, negsuc}
use r_core_tutorial_v3_arm.Mm.Access.{check, copy_from_user}
use r_core_tutorial_v3_arm.Syscall.Slots.{is_none, find_free, choose, alloc_fd}

abbrev pub chunk_size : ℕ
chunk_size = 256

-- `fd_table[fd]`, after the test that it is inside.
abbrev pub file_at : List (Option ℕ) → ℕ → Option ℕ
file_at table fd = get_or table fd none

unfoldable pub sys_open : List (Option ℕ) → Option ℕ → ℤ × List (Option ℕ)
sys_open table none = (negsuc 0, table)
sys_open table (some inode) = let (fd, table') = alloc_fd table (some inode) in (pos fd, table')

unfoldable pub sys_close : List (Option ℕ) → ℕ → ℤ × List (Option ℕ)
sys_close table fd =
    if leb (length table) fd
    then (negsuc 0, table)
    else if is_none (file_at table fd)
    then (negsuc 0, table)
    else (pos 0, set table fd none)

unfoldable pub sys_pipe : List (Option ℕ) → ℕ → ℕ → ℕ × ℕ × List (Option ℕ)
sys_pipe table pipe_read pipe_write =
    let (read_fd, table') = alloc_fd table (some pipe_read) in
    let (write_fd, table'') = alloc_fd table' (some pipe_write) in (read_fd, write_fd, table'')

-- `sys_dup`: the search of `alloc_fd` is written out, and the clone goes into the place.
unfoldable pub sys_dup : List (Option ℕ) → ℕ → Run (ℤ × List (Option ℕ))
sys_dup table fd =
    if leb (length table) fd || is_none (file_at table fd)
    then done (negsuc 0, table)
    else (let (new_fd, table') = choose table (find_free table 0) in
        unwrap (file_at table' fd) >>= λ clone. done (pos new_fd, set table' new_fd (some clone)))

-- `CHUNK_SIZE.min(len - count)`
abbrev pub chunk_len : ℕ → ℕ → ℕ
chunk_len len count = min chunk_size (len - count)

-- `read_array` of a pointer to bytes.
unfoldable pub read_array : (ℕ → ℕ) → ℕ → ℕ → Run (List ℕ)
read_array mem ptr max_len = do
  ok ← check 1 ptr
  assert ok
  copy_from_user mem 1 ptr (min max_len chunk_size)

module _ {ℓ} {S : Type ℓ} (writable : ℕ → Bool) (write : ℕ → List ℕ → S → Run (ℕ × S))
    (mem : ℕ → ℕ) where
  -- The loop of `sys_write`; `none` where the fuel runs out.
  abbrev pub write_loop : ℕ → ℕ → ℕ → ℕ → ℕ → S → Run (Option (ℕ × S))
  write_loop zero file buf len count s = done (if ltb count len then none else some (count, s))
  write_loop (suc fuel) file buf len count s =
      if ltb count len
      then (read_array mem (buf + count) (chunk_len len count) >>= λ chunk.
          write file chunk s >>= λ r.
          assert (r.0 == chunk_len len count)
          >> write_loop fuel file buf len (count + chunk_len len count) r.1)
      else done (some (count, s))

  abbrev pub write_file : Option ℕ → ℕ → ℕ → S → Run (Option (ℤ × S))
  write_file none buf len s = done (some (negsuc 0, s))
  write_file (some file) buf len s =
      if not (writable file)
      then done (some (negsuc 0, s))
      else (write_loop len file buf len 0 s >>= λ r.
          done (elim r [ none ↦ none | some (count, s') ↦ some (pos count, s') ]))

  -- A round for each byte is enough.
  unfoldable pub sys_write : List (Option ℕ) → ℕ → ℕ → ℕ → S → Run (Option (ℤ × S))
  sys_write table fd buf len s =
      if leb (length table) fd
      then done (some (negsuc 0, s))
      else write_file (file_at table fd) buf len s
