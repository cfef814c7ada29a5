-- ===== src/Core/ClockBounds.antt =====
-- GPU clock ranges: `validate_against` (hpd-capabilities/src/gpu_clock.rs) and
-- `gpu_clock_range_for_tier` (hpd-core/src/inference.rs).
use hpd_handheld_power_daemo.Prelude.{◌≤◌, ◌<◌, ◌≡◌, ◌↔◌, ok, arith}
use hpd_handheld_power_daemo.Capability.Units.{u32_max}
use hpd_handheld_power_daemo.Capability.Profile.{GpuClockFractions}
use hpd_handheld_power_daemo.Capability.FanCurve.{FanCurvePreset}
use hpd_handheld_power_daemo.Capability.GpuClock.{
  GpuClockRange, GpuClockConstraints, validate_range,
}
use hpd_handheld_power_daemo.Core.Inference.{gpu_clock_range_for_tier}

-- A range is accepted exactly when it is not empty and lies in the range of the device.
pub validate_range_iff :
    (r : GpuClockRange) (c : GpuClockConstraints)
    → (validate_range r c ≡ ok tt)
      ↔ ((r.min_mhz < r.max_mhz) × (c.range_min_mhz ≤ r.min_mhz) × (r.max_mhz ≤ c.range_max_mhz))
unfolding validate_range
validate_range_iff r c = ground arith

-- On a device whose range is not empty, the range of each tier is accepted and keeps the lowest
-- clock of the device, whatever the fractions (not-a-number, negative or above 1 included) and even
-- if the sum in it wraps.
pub gpu_clock_range_for_tier-accepted :
    (tier : FanCurvePreset) (c : GpuClockConstraints) (f : GpuClockFractions)
    → c.range_min_mhz < c.range_max_mhz
    → c.range_max_mhz ≤ u32_max
    → (validate_range (gpu_clock_range_for_tier tier c f) c ≡ ok tt)
      × ((gpu_clock_range_for_tier tier c f).min_mhz ≡ c.range_min_mhz)
unfolding gpu_clock_range_for_tier
gpu_clock_range_for_tier-accepted tier c f h m =
    ((validate_range_iff _ c).1 (omega arith), ground arith)
