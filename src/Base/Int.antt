-- ===== src/Base/Int.antt =====
-- Signed machine integers: the value, and the checked steps by one of an `isize`.
use Prim.Native.Nat.{ℕ, zero, suc, ◌-◌, ◌^◌}
use mathlib.Core.Bool.{Bool, true, false}
use r_core_tutorial_v3_arm.Base.Tests.{◌==◌, ltb, if◌then◌else◌}
use r_core_tutorial_v3_arm.Base.Panics.{Run, done, panic}

-- `negsuc n` is -(n + 1).
pub data ℤ : Type 0 where
  pos : ℕ → ℤ
  negsuc : ℕ → ℤ

abbrev pub max_isize : ℕ
max_isize = 2 ^ 63 - 1

-- `n as isize`, of a `usize`
unfoldable pub as_isize : ℕ → ℤ
as_isize n = if ltb n (2 ^ 63) then pos n else negsuc (2 ^ 64 - 1 - n)

-- `x += 1` and `x -= 1`, which panic where the result does not fit.
unfoldable pub add_one : ℤ → Run ℤ
add_one (pos n) = if n == max_isize then panic else done (pos (suc n))
add_one (negsuc zero) = done (pos 0)
add_one (negsuc (suc n)) = done (negsuc n)

unfoldable pub sub_one : ℤ → Run ℤ
sub_one (pos zero) = done (negsuc 0)
sub_one (pos (suc n)) = done (pos n)
sub_one (negsuc n) = if n == max_isize then panic else done (negsuc (suc n))

-- `x < 0` and `x <= 0`
abbrev pub is_negative : ℤ → Bool
is_negative (pos n) = false
is_negative (negsuc n) = true

abbrev pub is_nonpos : ℤ → Bool
is_nonpos (pos zero) = true
is_nonpos (pos (suc n)) = false
is_nonpos (negsuc n) = true
