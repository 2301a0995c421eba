-- ===== src/Base/Int.antt =====
-- The signed integers that the program meets in query parameters (`limit`, `before`: i64) and in
-- `COUNT(*) - 1`, and in the lifetime of a token.
use Prim.Native.Nat.{ℕ, zero, suc, ◌+◌, ◌-◌}
use myx_im.Base.Tests.{leb, if◌then◌else◌}

-- `negsuc n` is -(n + 1).
pub data ℤ : Type 0 where
  pos : ℕ → ℤ
  negsuc : ℕ → ℤ

-- `i64::min` where the second argument is not negative.
abbrev pub min_ℤ : ℤ → ℕ → ℤ
min_ℤ (pos n) k = if leb n k then pos n else pos k
min_ℤ (negsuc n) k = negsuc n

-- `n - 1`.
abbrev pub pred_ℤ : ℕ → ℤ
pred_ℤ zero = negsuc 0
pred_ℤ (suc n) = pos n

-- The sum with an integer.
abbrev pub add_ℤ : ℕ → ℤ → ℤ
add_ℤ m (pos n) = pos (m + n)
add_ℤ m (negsuc n) = if leb (suc n) m then pos (m - suc n) else negsuc (n - m)
