-- ===== src/Capability/SanitizedConfig.antt =====
-- `sanitized` of hpd-capabilities/src/profile.rs: what the daemon makes of the operator's numbers.
use hpd_handheld_power_daemo.Prelude.{
  inr, inl, Bool-cases, if◌then◌else◌, ◌≡◌, refl, true, false, arith,
}
use hpd_handheld_power_daemo.Float.{F32, is_finite, literal, clamp, zero_f32, one, lt, ge, eq}
use hpd_handheld_power_daemo.Capability.Profile.{
  ProfileThresholds, default_thresholds, sanitized_thresholds, GpuClockFractions, default_fractions,
  sanitized_fractions, RuntimeConfig, default_config, sanitized, valid_factor,
}

-- A number from 0 to 1.
pub record IsFraction (f : F32) : Type 0 where
  pub finite : is_finite f ≡ true
  pub not_below : lt f zero_f32 ≡ false
  pub not_above : lt one f ≡ false

pub record AreThresholds (t : ProfileThresholds) : Type 0 where
  pub low : IsFraction t.low_frac
  pub high : IsFraction t.high_frac
  pub sorted : lt t.high_frac t.low_frac ≡ false

pub record AreFractions (f : GpuClockFractions) : Type 0 where
  pub silent : IsFraction f.silent_max_frac
  pub balanced : IsFraction f.balanced_max_frac
  pub aggressive : IsFraction f.aggressive_max_frac
  pub silent_first : lt f.balanced_max_frac f.silent_max_frac ≡ false
  pub aggressive_last : lt f.aggressive_max_frac f.balanced_max_frac ≡ false

-- A finite number that is not below 1.
pub record IsFactor (f : F32) : Type 0 where
  pub finite : is_finite f ≡ true
  pub not_below : lt f one ≡ false

pub record IsSane (c : RuntimeConfig) : Type 0 where
  pub thresholds : AreThresholds c.profile_thresholds
  pub sppt : IsFactor c.sppt_factor
  pub fppt : IsFactor c.fppt_factor
  pub fractions : AreFractions c.gpu_clock_fractions
  pub efficiency : IsFraction c.efficiency_frac

zero-IsFraction : IsFraction zero_f32
unfolding lt one
zero-IsFraction = record { finite = refl; not_below = refl; not_above = refl }

one-IsFraction : IsFraction one
unfolding lt one
one-IsFraction = record { finite = refl; not_below = refl; not_above = refl }

clamp-IsFraction : (f : F32) → is_finite f ≡ true → IsFraction (clamp f zero_f32 one)
unfolding clamp
clamp-IsFraction f h = ground (arith, zero-IsFraction, one-IsFraction)

clamp-fraction : (f : F32) → IsFraction f → clamp f zero_f32 one ≡ f
unfolding clamp
clamp-fraction f h = ground arith

default_thresholds-AreThresholds : AreThresholds default_thresholds
unfolding default_thresholds literal one lt
default_thresholds-AreThresholds = record {
  low = record { finite = refl; not_below = refl; not_above = refl };
  high = record { finite = refl; not_below = refl; not_above = refl };
  sorted = refl;
}

default_fractions-AreFractions : AreFractions default_fractions
unfolding default_fractions literal one lt
default_fractions-AreFractions = record {
  silent = record { finite = refl; not_below = refl; not_above = refl };
  balanced = record { finite = refl; not_below = refl; not_above = refl };
  aggressive = record { finite = refl; not_below = refl; not_above = refl };
  silent_first = refl;
  aggressive_last = refl;
}

-- The test of the code accepts just these.
valid_factor-IsFactor : (f : F32) → valid_factor f ≡ true → IsFactor f
unfolding ge lt eq one
valid_factor-IsFactor f h = record { finite = ground arith; not_below = ground arith }

IsFactor-valid_factor : (f : F32) → IsFactor f → valid_factor f ≡ true
unfolding ge lt eq one
IsFactor-valid_factor f h = ground arith

default_factors :
    IsFactor default_config.sppt_factor
    × IsFactor default_config.fppt_factor
    × IsFraction default_config.efficiency_frac
unfolding default_config literal one lt
default_factors = (
  record { finite = refl; not_below = refl },
  record { finite = refl; not_below = refl },
  record { finite = refl; not_below = refl; not_above = refl },
)

-- A factor that the test refuses is replaced by one that it accepts.
kept-IsFactor : (f d : F32) → IsFactor d → IsFactor (if valid_factor f then f else d)
kept-IsFactor f d h = elim (Bool-cases (valid_factor f)) [
  | inl e ↦ rw e (valid_factor-IsFactor f e)
  | inr e ↦ rw e h
]

kept_same_factor : (f d : F32) → IsFactor f → (if valid_factor f then f else d) ≡ f
kept_same_factor f d h = rw (IsFactor-valid_factor f h) refl

sanitized_thresholds-AreThresholds :
    (t : ProfileThresholds) → AreThresholds (sanitized_thresholds t)
unfolding sanitized_thresholds
sanitized_thresholds-AreThresholds t = ground (
  arith,
  default_thresholds-AreThresholds,
  clamp-IsFraction t.low_frac,
  clamp-IsFraction t.high_frac,
)

sanitized_fractions-AreFractions : (f : GpuClockFractions) → AreFractions (sanitized_fractions f)
unfolding sanitized_fractions
sanitized_fractions-AreFractions f = ground (
  arith,
  default_fractions-AreFractions,
  clamp-IsFraction f.silent_max_frac,
  clamp-IsFraction f.balanced_max_frac,
  clamp-IsFraction f.aggressive_max_frac,
)

sanitized_thresholds-sane : (t : ProfileThresholds) → AreThresholds t → sanitized_thresholds t ≡ t
unfolding sanitized_thresholds
sanitized_thresholds-sane t h =
    ground (arith, clamp-fraction t.low_frac h.low, clamp-fraction t.high_frac h.high)

sanitized_fractions-sane : (f : GpuClockFractions) → AreFractions f → sanitized_fractions f ≡ f
unfolding sanitized_fractions
sanitized_fractions-sane f h = ground (
  arith,
  clamp-fraction f.silent_max_frac h.silent,
  clamp-fraction f.balanced_max_frac h.balanced,
  clamp-fraction f.aggressive_max_frac h.aggressive,
)

-- Whatever the numbers of the configuration, the sanitized one has fractions from 0 to 1 and in
-- order, and boost factors that are finite and at least 1.
pub sanitized-IsSane : (c : RuntimeConfig) → IsSane (sanitized c)
unfolding sanitized
sanitized-IsSane c = ground (
  arith,
  sanitized_thresholds-AreThresholds c.profile_thresholds,
  sanitized_fractions-AreFractions c.gpu_clock_fractions,
  clamp-IsFraction c.efficiency_frac,
  default_factors,
  kept-IsFactor c.sppt_factor default_config.sppt_factor default_factors.0,
  kept-IsFactor c.fppt_factor default_config.fppt_factor default_factors.1,
)

-- A configuration that is sane is left as it is.
pub sanitized-sane : (c : RuntimeConfig) → IsSane c → sanitized c ≡ c
unfolding sanitized
sanitized-sane c h = ground (
  arith,
  sanitized_thresholds-sane c.profile_thresholds h.thresholds,
  sanitized_fractions-sane c.gpu_clock_fractions h.fractions,
  clamp-fraction c.efficiency_frac h.efficiency,
  kept_same_factor c.sppt_factor default_config.sppt_factor h.sppt,
  kept_same_factor c.fppt_factor default_config.fppt_factor h.fppt,
)
