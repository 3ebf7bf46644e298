-- ===== src/Mm/Access.antt =====
-- os/src/mm/uaccess.rs: the checks on user pointers, and how strings are copied from user memory. The
-- memory is a function from addresses to bytes; a copy into the kernel is the list of bytes written.
pub mod Strings
use r_core_tutorial_v3_arm.Base.{
  ℕ, zero, suc, ◌+◌, ◌-◌, ◌*◌, ◌/◌, ◌%◌, ◌^◌, ◌≤◌, ◌<◌, min, bit_and, bit_or, ◌≡◌, refl, sym, ap,
  ◌∙◌, subst, fun_ext, ◌≢◌, ◌↔◌, ◌⊎◌, inl, inr, Bool, true, false, not, ◌&&◌, ◌||◌, Option, none,
  some, List, [], ◌∷◌, ◌++◌, map, arith, ltb, leb, ◌==◌, if◌then◌else◌, ltb→lt, leb→le, ==_iff,
  eq_refl, Bool-cases, Option-cases, length, get_elem?, set, get_or, take, drop, replicate,
  length-append, length-set, length-replicate, get_or-set_self, get_or-set_ne, get_elem?-set_self,
  get_elem?-set_ne, All, All-map, All-append, contains, Distinct, contains-append, Distinct-snoc,
  Run, done, panic, ◌>>=◌, ◌>>◌, take-nil, drop-nil, take-append-drop, length-drop, List-cases,
  ltb-suc, ltb-zero, assert, unwrap, done-injective,
}

abbrev pub user_aspace_end : ℕ
user_aspace_end = 0x1_0000_0000_0000

-- The user addresses start at zero; `end - size` underflows for a larger size.
unfoldable pub uaccess_ok : ℕ → ℕ → Run Bool
uaccess_ok vaddr size =
    if vaddr == 0
    then done false
    else if ltb user_aspace_end size
    then panic
    else done (leb vaddr (user_aspace_end - size))

-- `UserPtr::check`, of a pointer to values that are aligned at `align_of`.
unfoldable pub check : ℕ → ℕ → Run Bool
unfolding uaccess_ok
check align_of vaddr = uaccess_ok vaddr 1 >>= λ ok. done (ok && vaddr % align_of == 0)

-- `copy_from_user` of `len` values of `size_of` bytes.
abbrev pub bytes_at : (ℕ → ℕ) → ℕ → ℕ → List ℕ
bytes_at mem p zero = []
bytes_at mem p (suc n) = mem p ∷ bytes_at mem (p + 1) n

unfoldable pub copy_from_user : (ℕ → ℕ) → ℕ → ℕ → ℕ → Run (List ℕ)
copy_from_user mem size_of usrc len = do
  ok ← uaccess_ok usrc (len * size_of)
  assert ok
  done (bytes_at mem usrc (len * size_of))

-- The loop of `copy_from_user_str`, with the bytes that may still be written.
abbrev pub copy_str : (ℕ → ℕ) → ℕ → ℕ → Run (List ℕ)
copy_str mem usrc zero = done []
copy_str mem usrc (suc left) =
    let rest = copy_str mem (usrc + 1) left in
    assert (ltb usrc user_aspace_end)
    >> (if mem usrc == 0 then done [] else (rest >>= λ s. done (mem usrc ∷ s)))

-- The bytes written, and the length.
unfoldable pub copy_from_user_str : (ℕ → ℕ) → ℕ → ℕ → Run (List ℕ × ℕ)
copy_from_user_str mem usrc max_len = do
  ok ← uaccess_ok usrc 1
  assert ok
  s ← copy_str mem usrc max_len
  done (s ++ (0 ∷ []), length s)

-- `read_str` into a buffer of `n` bytes.
unfoldable pub read_str : (ℕ → ℕ) → ℕ → ℕ → Run (List ℕ × ℕ)
read_str mem ptr n = do
  ok ← check 1 ptr
  assert ok
  assert (not (n == 0))
  copy_from_user_str mem ptr (n - 1)
