-- ===== src/Float.antt =====
-- `f64` as far as the program inspects it, and `Duration::from_secs_f64` of the standard library.
pub mod Ratio
use uswarm_unitctl.Base.{
  ℕ, zero, suc, max, ℤ, pos, negsuc, ◌-◌, ◌+◌, ◌*◌, ◌/◌, ◌%◌, ◌^◌, Bool, true, false, ◌&&◌, ◌||◌,
  not, Option, none, some, ltb, leb, ◌==◌, if◌then◌else◌,
}

-- A finite value is `mantissa * 2 ^ exponent`, or its negative if the flag is set; the exponent is
-- `scale` for `scaled_up` and `- scale` for `scaled_down`. Every `f64` has such a form.
pub data F64 : Type 0 where
  nan : F64
  infinite : Bool → F64
  scaled_up : Bool → ℕ → ℕ → F64
  scaled_down : Bool → ℕ → ℕ → F64

-- `v.is_finite()`
unfoldable pub is_finite : F64 → Bool
is_finite nan = false
is_finite (infinite negative) = false
is_finite _ = true

-- `v <= 0.0`
unfoldable pub is_le_zero : F64 → Bool
is_le_zero nan = false
is_le_zero (infinite negative) = negative
is_le_zero (scaled_up negative mantissa scale) = negative || mantissa == 0
is_le_zero (scaled_down negative mantissa scale) = negative || mantissa == 0

-- `v < 1.0`
unfoldable pub is_lt_one : F64 → Bool
is_lt_one nan = false
is_lt_one (infinite negative) = negative
is_lt_one (scaled_up negative mantissa scale) = negative || mantissa == 0
is_lt_one (scaled_down negative mantissa scale) = negative || ltb mantissa (2 ^ scale)

-- `n / d` rounded to the nearest integer, ties to the even one.
abbrev pub round_half_even : ℕ → ℕ → ℕ
round_half_even n d =
    let q = n / d in
    let r = 2 * (n % d) in if ltb r d then q else if ltb d r then q + 1 else q + q % 2

abbrev pub nanos_per_sec : ℕ
nanos_per_sec = 1000000000

abbrev pub max_secs : ℕ
max_secs = 2 ^ 64

-- `Duration::from_secs_f64(v)` in nanoseconds; `none` is its panic, on a negative value, on one that
-- is not finite, and on one of 2^64 seconds and more.
unfoldable pub from_secs_f64 : F64 → Option ℕ
from_secs_f64 nan = none
from_secs_f64 (infinite negative) = none
from_secs_f64 (scaled_up negative mantissa scale) =
    if negative && not (mantissa == 0)
    then none
    else if ltb (mantissa * 2 ^ scale) max_secs
    then some (mantissa * 2 ^ scale * nanos_per_sec)
    else none
from_secs_f64 (scaled_down negative mantissa scale) =
    if negative && not (mantissa == 0)
    then none
    else if ltb mantissa (max_secs * 2 ^ scale)
    then some (round_half_even (mantissa * nanos_per_sec) (2 ^ scale))
    else none

-- The bits of `n` above the lowest `kept`; 64 of fuel are enough for a number below 2^64.
unfoldable pub excess_bits : ℕ → ℕ → ℕ → ℕ
excess_bits kept zero n = 0
excess_bits kept (suc fuel) n =
    let more = 1 + excess_bits kept fuel (n / 2) in if ltb n (2 ^ kept) then 0 else more

-- `n as f64` for a `u64`, which is a whole number again.
unfoldable pub u64_as_f64 : ℕ → ℕ
unfolding excess_bits
u64_as_f64 n = let unit = 2 ^ excess_bits 53 64 n in round_half_even n unit * unit

-- `n <= v` for a whole number `n`.
unfoldable pub is_nat_le : ℕ → F64 → Bool
is_nat_le n nan = false
is_nat_le n (infinite negative) = not negative
is_nat_le n (scaled_up negative mantissa scale) =
    if negative then (n == 0) && mantissa == 0 else leb n (mantissa * 2 ^ scale)
is_nat_le n (scaled_down negative mantissa scale) =
    if negative then (n == 0) && mantissa == 0 else leb (n * 2 ^ scale) mantissa

-- `n as f32` for an unsigned integer below 2^64: 24 bits are kept. Every `f32` is an `f64`.
unfoldable pub nat_as_f32 : Bool → ℕ → F64
unfolding excess_bits
nat_as_f32 negative n =
    let excess = excess_bits 24 64 n in scaled_up negative (round_half_even n (2 ^ excess)) excess

-- `i as f32` for an `i32`.
unfoldable pub int_as_f32 : ℤ → F64
unfolding nat_as_f32
int_as_f32 (pos n) = nat_as_f32 false n
int_as_f32 (negsuc n) = nat_as_f32 true (n + 1)

-- The `f32` of `rounded * 2 ^ up / 2 ^ down`, which is infinite from 2^128 on.
abbrev bounded_f32 : Bool → ℕ → ℕ → ℕ → F64
bounded_f32 negative rounded up down =
    if leb (2 ^ 128 * 2 ^ down) (rounded * 2 ^ up)
    then infinite negative
    else if leb down up
    then scaled_up negative rounded (up - down)
    else scaled_down negative rounded (down - up)

-- `v as f32`, with a mantissa below 2^64: 24 bits are kept, and none below 2^-149.
unfoldable pub f64_as_f32 : F64 → F64
unfolding excess_bits
f64_as_f32 nan = nan
f64_as_f32 (infinite negative) = infinite negative
f64_as_f32 (scaled_up negative mantissa scale) =
    let dropped = excess_bits 24 64 mantissa in
    bounded_f32 negative (round_half_even mantissa (2 ^ dropped)) (dropped + scale) 0
f64_as_f32 (scaled_down negative mantissa scale) =
    let dropped = max (excess_bits 24 64 mantissa) (scale - 149) in
    bounded_f32 negative (round_half_even mantissa (2 ^ dropped)) dropped scale
