-- ===== src/Prelude/Int.antt =====
-- C's `int` return codes.
use Prim.Native.Nat.{ℕ}

-- `negsuc n` is -(n + 1).
pub data ℤ : Type 0 where
  pos : ℕ → ℤ
  negsuc : ℕ → ℤ

-- return 0;
abbrev pub success : ℤ
success = pos 0

-- return -1;
abbrev pub failure : ℤ
failure = negsuc 0
