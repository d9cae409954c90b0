-- ===== src/Payments/Rounding.antt =====
-- Rounding of amounts, money.ts.
use lotzi.Base.{ℕ, zero, suc, ◌+◌, ◌*◌, ◌/◌, ◌≤◌, ◌<◌, ◌≡◌, refl, some, arith}
use lotzi.Payments.Money.{round_half_up}

-- With a positive denominator the rounding succeeds, and twice its error is at most the denominator:
-- the result is a nearest whole number, the upper one of two.
pub round_half_up_nearest :
    (n d : ℕ)
    → 0 < d
    → (r : ℕ) × (round_half_up n d ≡ some r) × (2 * (r * d) ≤ 2 * n + d) × (2 * n < 2 * (r * d) + d)
unfolding round_half_up
round_half_up_nearest n zero h = absurd (omega arith)
round_half_up_nearest n (suc d) h = ((n + suc d / 2) / suc d, refl, omega arith, omega arith)
