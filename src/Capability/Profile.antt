-- ===== src/Capability/Profile.antt =====
-- hpd-capabilities/src/profile.rs: platform profiles, TDP presets and the runtime configuration.
pub mod Names
use hpd_handheld_power_daemo.Prelude.{
  ◌≡◌, ◌↔◌, Bool, true, false, ◌&&◌, ◌||◌, not, String, Equality, ◌==◌, string_eq, arith,
  if◌then◌else◌,
}
use hpd_handheld_power_daemo.Float
use hpd_handheld_power_daemo.Float.{F32, is_finite, literal, clamp, zero_f32, one, lt, ge}

pub data ProfileName : Type 0 where
  power_saver balanced performance : ProfileName
  custom : String → ProfileName

unfoldable pub profile_beq : ProfileName → ProfileName → Bool
profile_beq ProfileName.power_saver ProfileName.power_saver = true
profile_beq ProfileName.balanced ProfileName.balanced = true
profile_beq ProfileName.performance ProfileName.performance = true
profile_beq (ProfileName.custom s) (ProfileName.custom t) = s == t
profile_beq _ _ = false

pub profile_beq_iff : (a b : ProfileName) → (profile_beq a b ≡ true) ↔ (a ≡ b)
unfolding profile_beq
profile_beq_iff (ProfileName.custom s) (ProfileName.custom t) =
    ground (arith, string_eq.beq_iff s t)
profile_beq_iff a b = ground arith

instance abbrev pub profile_eq : Equality ProfileName
profile_eq = record { beq = profile_beq; beq_iff = profile_beq_iff }

pub data TdpPreset : Type 0 where
  eco efficiency balanced max : TdpPreset

pub record ProfileThresholds : Type 0 where
  pub low_frac : F32
  pub high_frac : F32

unfoldable pub default_thresholds : ProfileThresholds
unfolding literal
default_thresholds = record { low_frac = literal 33 100; high_frac = literal 67 100 }

unfoldable pub sanitized_thresholds : ProfileThresholds → ProfileThresholds
sanitized_thresholds t =
    if not (is_finite t.low_frac) || not (is_finite t.high_frac)
    then default_thresholds
    else let low_frac = clamp t.low_frac zero_f32 one in
      let high_frac = clamp t.high_frac zero_f32 one in
      if lt high_frac low_frac
      then default_thresholds
      else record { low_frac = low_frac; high_frac = high_frac }

pub record GpuClockFractions : Type 0 where
  pub silent_max_frac : F32
  pub balanced_max_frac : F32
  pub aggressive_max_frac : F32

unfoldable pub default_fractions : GpuClockFractions
unfolding literal one
default_fractions = record {
  silent_max_frac = literal 55 100;
  balanced_max_frac = literal 80 100;
  aggressive_max_frac = one;
}

unfoldable pub sanitized_fractions : GpuClockFractions → GpuClockFractions
sanitized_fractions f =
    if not (is_finite f.silent_max_frac)
      || not (is_finite f.balanced_max_frac)
      || not (is_finite f.aggressive_max_frac)
    then default_fractions
    else let silent = clamp f.silent_max_frac zero_f32 one in
      let balanced = clamp f.balanced_max_frac zero_f32 one in
      let aggressive = clamp f.aggressive_max_frac zero_f32 one in
      if lt balanced silent || lt aggressive balanced then default_fractions else record {
        silent_max_frac = silent;
        balanced_max_frac = balanced;
        aggressive_max_frac = aggressive;
      }

pub record RuntimeConfig : Type 0 where
  pub profile_thresholds : ProfileThresholds
  pub sppt_factor : F32
  pub fppt_factor : F32
  pub gpu_clock_fractions : GpuClockFractions
  pub efficiency_frac : F32

unfoldable pub default_config : RuntimeConfig
unfolding literal default_thresholds default_fractions
default_config = record {
  profile_thresholds = default_thresholds;
  sppt_factor = literal 115 100;
  fppt_factor = literal 125 100;
  gpu_clock_fractions = default_fractions;
  efficiency_frac = literal 30 100;
}

-- `valid_factor` of `sanitized`
abbrev pub valid_factor : F32 → Bool
valid_factor f = is_finite f && ge f one

unfoldable pub sanitized : RuntimeConfig → RuntimeConfig
sanitized c = record {
  profile_thresholds = sanitized_thresholds c.profile_thresholds;
  sppt_factor = if valid_factor c.sppt_factor then c.sppt_factor else default_config.sppt_factor;
  fppt_factor = if valid_factor c.fppt_factor then c.fppt_factor else default_config.fppt_factor;
  gpu_clock_fractions = sanitized_fractions c.gpu_clock_fractions;
  efficiency_frac =
      if is_finite c.efficiency_frac
      then clamp c.efficiency_frac zero_f32 one
      else default_config.efficiency_frac;
}

-- The derived `==` of the configuration: it compares floats, so it is no `Equality`.
unfoldable pub config_eq : RuntimeConfig → RuntimeConfig → Bool
config_eq a b =
    Float.eq a.profile_thresholds.low_frac b.profile_thresholds.low_frac
    && Float.eq a.profile_thresholds.high_frac b.profile_thresholds.high_frac
    && Float.eq a.sppt_factor b.sppt_factor
    && Float.eq a.fppt_factor b.fppt_factor
    && Float.eq a.gpu_clock_fractions.silent_max_frac b.gpu_clock_fractions.silent_max_frac
    && Float.eq a.gpu_clock_fractions.balanced_max_frac b.gpu_clock_fractions.balanced_max_frac
    && Float.eq a.gpu_clock_fractions.aggressive_max_frac b.gpu_clock_fractions.aggressive_max_frac
    && Float.eq a.efficiency_frac b.efficiency_frac
