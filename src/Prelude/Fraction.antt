-- ===== src/Prelude/Fraction.antt =====
-- Nonnegative fractions, for sums of reciprocals that the source keeps as floats: no rounding.
use Prim.Native.Nat.{ℕ, suc, ◌+◌, ◌*◌, ◌≤◌}
use mathlib.Core.Path.{◌≡◌}
use mathlib.Core.Bool.{Bool, true, false}
use native.Mathlib.Omega.{arith}
use native.Mathlib.Nat.{mul-le-mul_right, le_of_mul-le-mul_right}
use freshet.Prelude.Tests.{leb, leb→le}

-- `num / (over + 1)`
pub record Fraction : Type 0 where
  pub num : ℕ
  pub over : ℕ

abbrev pub den : Fraction → ℕ
den a = suc a.over

abbrev pub nought : Fraction
nought = record { num = 0; over = 0 }

unfoldable pub plus : Fraction → Fraction → Fraction
plus a b = record { num = a.num * den b + b.num * den a; over = a.over * b.over + a.over + b.over }

unfoldable pub fraction_leb : Fraction → Fraction → Bool
fraction_leb a b = leb (a.num * den b) (b.num * den a)

le→leb : (m n : ℕ) → m ≤ n → leb m n ≡ true
le→leb m n h = ground arith

pub fraction_leb_total : (a b : Fraction) → fraction_leb a b ≡ false → fraction_leb b a ≡ true
unfolding fraction_leb
fraction_leb_total a b h = ground arith

pub fraction_leb_trans :
    (a b c : Fraction) → fraction_leb a b ≡ true → fraction_leb b c ≡ true → fraction_leb a c ≡ true
unfolding fraction_leb
fraction_leb_trans a b c h h' =
    let p = mul-le-mul_right (den c) (leb→le (a.num * den b) (b.num * den a) h) in
    let q = mul-le-mul_right (den a) (leb→le (b.num * den c) (c.num * den b) h') in
    le→leb (a.num * den c) (c.num * den a)
      (le_of_mul-le-mul_right {k = den b} (omega (arith, p, q)) (omega arith))
