-- ===== src/Float.antt =====
-- Rust's `f32`: IEEE 754 binary32, as far as the daemon uses it (the arithmetic and comparisons of
-- hpd-core and hpd-capabilities). A finite value is a sign and a magnitude counted in units of
-- 2^-149, the smallest subnormal, so that the order of values is the order of numbers.
use hpd_handheld_power_daemo.Prelude.{
  ℕ, zero, suc, ◌+◌, ◌*◌, ◌/◌, ◌%◌, ◌^◌, ◌≡◌, refl, Bool, true, false, not, ◌&&◌, ◌||◌, ltb, min,
  nat_beq, if◌then◌else◌,
}

-- `inf true` is -∞, and `fin true m` is -m.
pub data F32 : Type 0 where
  nan : F32
  inf : Bool → F32
  fin : Bool → ℕ → F32

-- The sign of a product or quotient.
abbrev pub differ : Bool → Bool → Bool
differ true true = false
differ false false = false
differ _ _ = true

-- The magnitude of 1.0.
unfoldable pub unit : ℕ
unit = 2 ^ 149

-- The nearest integer to n / d, ties to even.
unfoldable pub nearest : ℕ → ℕ → ℕ
nearest n d =
    let q = n / d in
    let r = n % d in if ltb (2 * r) d then q else if ltb d (2 * r) then q + 1 else q + q % 2

-- By how many bits q exceeds a significand of 24 bits; fuel of 512 covers every quotient below,
-- since a product or quotient of two magnitudes has fewer than 430 bits.
unfoldable pub excess : ℕ → ℕ → ℕ
excess zero q = 0
excess (suc fuel) q = let rest = excess fuel (q / 2) in if ltb q 16777216 then 0 else suc rest

-- n / d rounded to 24 significant bits.
unfoldable pub round_magnitude : ℕ → ℕ → ℕ
unfolding nearest excess
round_magnitude n d = let k = excess 512 (n / d) in nearest n (d * 2 ^ k) * 2 ^ k

-- The value of a rounded magnitude: from 2^128 on it is infinite.
unfoldable pub of_magnitude : Bool → ℕ → F32
of_magnitude s m = if ltb m (2 ^ 277) then fin s m else inf s

-- `n as f32`
unfoldable pub of_u32 : ℕ → F32
unfolding unit round_magnitude of_magnitude
of_u32 n = of_magnitude false (round_magnitude (n * unit) 1)

-- The literal p / q.
unfoldable pub literal : ℕ → ℕ → F32
unfolding unit round_magnitude of_magnitude
literal p q = of_magnitude false (round_magnitude (p * unit) q)

-- `a * b`
unfoldable pub mul : F32 → F32 → F32
unfolding unit round_magnitude of_magnitude
mul (fin s a) (fin t b) = of_magnitude (differ s t) (round_magnitude (a * b) unit)
mul (inf s) (inf t) = inf (differ s t)
mul (inf s) (fin t b) = if nat_beq b 0 then nan else inf (differ s t)
mul (fin s a) (inf t) = if nat_beq a 0 then nan else inf (differ s t)
mul _ _ = nan

-- `a / b`
unfoldable pub div : F32 → F32 → F32
unfolding unit round_magnitude of_magnitude
div (fin s a) (fin t b) =
    if nat_beq b 0
    then (if nat_beq a 0 then nan else inf (differ s t))
    else of_magnitude (differ s t) (round_magnitude (a * unit) b)
div (fin s a) (inf t) = fin (differ s t) 0
div (inf s) (fin t b) = inf (differ s t)
div _ _ = nan

-- `a.round()`: to the nearest integer, halves away from zero. From 2^23 on a value is whole, so
-- the result has a binary32 form.
unfoldable pub round : F32 → F32
unfolding unit
round (fin s a) = fin s ((2 * a + unit) / (2 * unit) * unit)
round a = a

-- `a as u32`: towards zero, saturating, and 0 for NaN.
unfoldable pub to_u32 : F32 → ℕ
unfolding unit
to_u32 (fin false a) = min (a / unit) 4294967295
to_u32 (inf false) = 4294967295
to_u32 _ = 0

-- `a < b`
unfoldable pub lt : F32 → F32 → Bool
lt (fin false a) (fin false b) = ltb a b
lt (fin true a) (fin true b) = ltb b a
lt (fin true a) (fin false b) = not (nat_beq a 0 && nat_beq b 0)
lt (fin s a) (inf false) = true
lt (inf true) (fin s b) = true
lt (inf true) (inf false) = true
lt _ _ = false

-- `a == b`: the zeros are equal, and NaN is equal to nothing.
unfoldable pub eq : F32 → F32 → Bool
eq (fin s a) (fin t b) = nat_beq a b && (not (differ s t) || nat_beq a 0)
eq (inf s) (inf t) = not (differ s t)
eq _ _ = false

-- `a >= b`
unfoldable pub ge : F32 → F32 → Bool
unfolding lt eq
ge a b = lt b a || eq a b

-- `a.is_finite()`
abbrev pub is_finite : F32 → Bool
is_finite (fin s a) = true
is_finite _ = false

-- `a.clamp(lo, hi)`
unfoldable pub clamp : F32 → F32 → F32 → F32
unfolding lt
clamp a lo hi = if lt a lo then lo else if lt hi a then hi else a

abbrev pub zero_f32 : F32
zero_f32 = fin false 0

unfoldable pub one : F32
unfolding unit
one = fin false unit

-- 15000 as f32 * 1.15 and 1.25 truncate to 17250 and 18750, as the reducer's tests expect.
boost_values : to_u32 (mul (of_u32 15000) (literal 115 100)) ≡ 17250
unfolding mul of_u32 literal to_u32
boost_values = refl

round_values : to_u32 (round (mul (of_u32 2300) (literal 55 100))) ≡ 1265
unfolding mul of_u32 literal to_u32 round
round_values = refl
