-- ===== src/Float/Ratio.antt =====
-- The arithmetic of `f64` on values that are not negative: a result is the exact quotient, rounded to
-- the nearest number with 53 bits. The program's values are 0 or far from the limits of the exponent.
use uswarm_unitctl.Base.{
  ℕ, zero, suc, ◌+◌, ◌*◌, ◌/◌, ◌^◌, ◌-◌, Bool, false, leb, ◌==◌, if◌then◌else◌,
}
use uswarm_unitctl.Float.{F64, nan, infinite, scaled_up, scaled_down, round_half_even, excess_bits}

-- The least `s` with `d * 2 ^ 52 <= n * 2 ^ s`; 1100 of fuel are more than the exponents of `f64`.
scale_up : ℕ → ℕ → ℕ → ℕ
scale_up zero n d = 0
scale_up (suc fuel) n d =
    let more = 1 + scale_up fuel (n * 2) d in if leb (d * 2 ^ 52) n then 0 else more

-- The `f64` that is nearest to `n / d`.
unfoldable pub nearest_f64 : Bool → ℕ → ℕ → F64
unfolding scale_up excess_bits
nearest_f64 negative n d =
    let excess = excess_bits 53 1100 (n / d) in
    let scale = scale_up 1100 n d in
    if n == 0
    then scaled_down negative 0 0
    else if leb (d * 2 ^ 53) n
    then scaled_up negative (round_half_even n (d * 2 ^ excess)) excess
    else scaled_down negative (round_half_even (n * 2 ^ scale) d) scale

-- A finite value as a fraction, without its sign.
abbrev pub fraction : F64 → ℕ × ℕ
fraction nan = (0, 1)
fraction (infinite negative) = (0, 1)
fraction (scaled_up negative mantissa scale) = (mantissa * 2 ^ scale, 1)
fraction (scaled_down negative mantissa scale) = (mantissa, 2 ^ scale)

-- The same for a result that is not negative.
unfoldable pub nearest : ℕ → ℕ → ℕ × ℕ
unfolding nearest_f64
nearest n d = fraction (nearest_f64 false n d)

-- `v * k` and `k - v` for a small whole number `k`, the latter where `v` is not above it.
unfoldable pub times : ℕ → ℕ × ℕ → ℕ × ℕ
unfolding nearest
times k (n, d) = nearest (n * k) d

unfoldable pub minus_from : ℕ → ℕ × ℕ → ℕ × ℕ
unfolding nearest
minus_from k (n, d) = nearest (k * d - n) d

-- `v.ceil()` and `v.round()` as whole numbers.
unfoldable pub ceil : ℕ × ℕ → ℕ
ceil (n, d) = (n + (d - 1)) / d

unfoldable pub round : ℕ × ℕ → ℕ
round (n, d) = (2 * n + d) / (2 * d)
