-- ===== src/Base/Decimal.antt =====
-- Finite values of Python's `Decimal`: a sign, digits, and the number of digits behind the point.
use Prim.Native.Nat.{ℕ, zero, suc, ◌*◌}
use mathlib.Core.Bool.{Bool, true, false, ◌&&◌}
use sep.Base.Tests.{leb, eqb}

pub record Decimal : Type 0 where
  pub negative : Bool
  pub digits : ℕ
  pub scale : ℕ

unfoldable pub ten_to : ℕ → ℕ
ten_to zero = 1
ten_to (suc n) = 10 * ten_to n

-- `a <= b`, from the signs and the digits brought to one scale.
signed_most : Bool → Bool → ℕ → ℕ → Bool
signed_most false false m n = leb m n
signed_most false true m n = eqb m 0 && eqb n 0
signed_most true false m n = true
signed_most true true m n = leb n m

unfoldable pub at_most : Decimal → Decimal → Bool
unfolding ten_to signed_most
at_most a b =
    signed_most a.negative b.negative (a.digits * ten_to b.scale) (b.digits * ten_to a.scale)

abbrev pub zero_decimal : Decimal
zero_decimal = record { negative = false; digits = 0; scale = 0 }
