-- ===== src/Base/Integers.antt =====
-- Signed integers over the native numbers, and an index moved by a signed step, as
-- `rem_euclid` wraps it and as `clamp` stops it.
use Prim.Native.Nat.{ℕ, suc, ◌+◌, ◌-◌, ◌%◌, ◌<◌, ◌≤◌}
use native.Mathlib.Omega.{arith}
use native.Mathlib.Nat.{mod-lt}
use ichr.Base.Tests.{ltb, leb, if◌then◌else◌}

-- `pos n` is n and `negsuc n` is -(n + 1).
pub data ℤ : Type 0 where
  pos : (n : ℕ) → ℤ
  negsuc : (n : ℕ) → ℤ

-- `n as isize + delta`
abbrev pub shift : ℕ → ℤ → ℤ
shift n (pos d) = pos (n + d)
shift n (negsuc d) = if ltb d n then pos (n - suc d) else negsuc (d - n)

-- `i64::rem_euclid`, for a positive divisor.
abbrev pub rem_euclid : ℤ → ℕ → ℕ
rem_euclid (pos n) len = n % len
rem_euclid (negsuc n) len = len - suc (n % len)

-- `clamp(0, top)`
abbrev pub clamp : ℤ → ℕ → ℕ
clamp (pos n) top = if leb n top then n else top
clamp (negsuc n) top = 0

-- `Ord::min`
abbrev pub min : ℕ → ℕ → ℕ
min a b = if leb a b then a else b

pub rem_euclid-lt : (i : ℤ) (len : ℕ) → 0 < len → rem_euclid i len < len
rem_euclid-lt (pos n) len h = mod-lt n h
rem_euclid-lt (negsuc n) len h = omega (arith, h)

pub clamp-le : (i : ℤ) (top : ℕ) → clamp i top ≤ top
clamp-le (pos n) top = ground arith
clamp-le (negsuc n) top = omega arith
