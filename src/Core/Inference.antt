-- ===== src/Core/Inference.antt =====
-- hpd-core/src/inference.rs. The addition of `gpu_clock_range_for_tier` is Rust's plain `+`, which
-- wraps in a release build.
use hpd_handheld_power_daemo.Prelude.{◌+◌, ◌-◌, ◌%◌, ◌^◌, min, max, ◌==◌, nat_eq, if◌then◌else◌}
use hpd_handheld_power_daemo.Float.{F32, of_u32, div, mul, round, to_u32, lt}
use hpd_handheld_power_daemo.Capability.Units.{u32_max}
use hpd_handheld_power_daemo.Capability.Power.{PowerEnvelopeLimits, PowerEnvelopeTarget}
use hpd_handheld_power_daemo.Capability.Profile.{ProfileThresholds, GpuClockFractions}
use hpd_handheld_power_daemo.Capability.FanCurve.{FanCurvePreset, silent, balanced, aggressive}
use hpd_handheld_power_daemo.Capability.GpuClock.{GpuClockRange, GpuClockConstraints}

-- The tier of a fraction of the SPL range.
unfoldable pub tier_of_fraction : F32 → ProfileThresholds → FanCurvePreset
tier_of_fraction fraction t =
    if lt fraction t.low_frac
    then silent
    else if lt fraction t.high_frac
    then balanced
    else aggressive

unfoldable pub infer_fan_curve_from_spl :
    PowerEnvelopeTarget → PowerEnvelopeLimits → ProfileThresholds → FanCurvePreset
unfolding tier_of_fraction
infer_fan_curve_from_spl target limits thresholds =
    let range = limits.spl_max - limits.spl_min in
    if range == 0
    then balanced
    else let current_offset = target.spl - limits.spl_min in
      tier_of_fraction (div (of_u32 current_offset) (of_u32 range)) thresholds

abbrev pub fraction_of_tier : FanCurvePreset → GpuClockFractions → F32
fraction_of_tier silent f = f.silent_max_frac
fraction_of_tier balanced f = f.balanced_max_frac
fraction_of_tier aggressive f = f.aggressive_max_frac

unfoldable pub gpu_clock_range_for_tier :
    FanCurvePreset → GpuClockConstraints → GpuClockFractions → GpuClockRange
gpu_clock_range_for_tier tier c fractions =
    let frac = fraction_of_tier tier fractions in
    let span = c.range_max_mhz - c.range_min_mhz in
    let ceiling = (c.range_min_mhz + to_u32 (round (mul (of_u32 span) frac))) % 2 ^ 32 in
    record {
      min_mhz = c.range_min_mhz;
      max_mhz = min (max ceiling (min (c.range_min_mhz + 1) u32_max)) c.range_max_mhz;
    }
