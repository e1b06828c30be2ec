-- ===== src/Base/Integers.antt =====
-- The signed numbers of C.
use Prim.Native.Nat.{ℕ, zero, suc}

pub data ℤ : Type 0 where
  pos negsuc : ℕ → ℤ

-- The integer of a sign and a magnitude.
abbrev pub neg : ℕ → ℤ
neg zero = pos zero
neg (suc n) = negsuc n
