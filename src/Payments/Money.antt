-- ===== src/Payments/Money.antt =====
-- money.ts: rounding of amounts in paise. The amounts of the shop are not negative.
use lotzi.Base.{ℕ, zero, suc, ◌+◌, ◌*◌, ◌/◌, Option, none, some}

-- `none` is the thrown error "Denominator must be positive."
unfoldable pub round_half_up : ℕ → ℕ → Option ℕ
round_half_up numerator zero = none
round_half_up numerator (suc d) = some ((numerator + suc d / 2) / suc d)

unfoldable pub percent_basis_points : ℕ → ℕ → Option ℕ
unfolding round_half_up
percent_basis_points value basis_points = round_half_up (value * basis_points) 10000
