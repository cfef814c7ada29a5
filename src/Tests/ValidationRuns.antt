-- ===== src/Tests/ValidationRuns.antt =====
-- Validations and derived values on concrete inputs (hpd-capabilities/src, hpd-core/src).
use hpd_handheld_power_daemo.Core.Inference.{gpu_clock_range_for_tier}
use hpd_handheld_power_daemo.Capability.FanCurve.Acceptance.{
  validate_against_iff, IsPointAllowed, IsStrict,
}
use hpd_handheld_power_daemo.Core.ClockBounds.{gpu_clock_range_for_tier-accepted}
use hpd_handheld_power_daemo.Core.EnvelopeBounds.{
  set_spl-ok, derive_boosted_envelope-IsWithin, validate_power_envelope_iff, IsWithin, IsWellFormed,
}
use hpd_handheld_power_daemo.Core.Reducer.{apply_power_target, derive_boosted_envelope, set_spl}
use hpd_handheld_power_daemo.Capability.FanCurve.{
  required_duty, check_floor, check_point, FanCurvePreset, check_points, points, strict_windows,
  FanCurvePoint, FanCurveConstraints, validate_against, FanCurve,
}
use hpd_handheld_power_daemo.Capability.GpuClock.{
  validate_range, GpuClockConstraints, GpuClockRange,
}
use hpd_handheld_power_daemo.Capability.Profile.{default_fractions, default_config}
use hpd_handheld_power_daemo.Core.Invariants.{validate_power_envelope}
use hpd_handheld_power_daemo.Prelude.{ℕ, ◌≡◌, ◌↔◌, refl, [], ◌∷◌, ok, All, arith}
use hpd_handheld_power_daemo.Tests.Data.{limits, target_20w, on_battery}

validate_power_envelope_iff_example :
    (validate_power_envelope target_20w limits ≡ ok tt) ↔ IsWithin target_20w limits
validate_power_envelope_iff_example = validate_power_envelope_iff target_20w limits

well_formed : IsWellFormed limits
well_formed = ground arith

derive_boosted_envelope-IsWithin_example :
    IsWithin (derive_boosted_envelope 7000 limits default_config) limits
derive_boosted_envelope-IsWithin_example =
    derive_boosted_envelope-IsWithin limits default_config well_formed 7000 (omega arith)
      (omega arith)

set_spl-ok_example :
    set_spl on_battery 20 limits default_config
    ≡ ok (
        apply_power_target on_battery
          (derive_boosted_envelope 20000 limits default_config)
          limits
          default_config)
set_spl-ok_example =
    set_spl-ok limits default_config well_formed on_battery 20 (omega arith) (omega arith)
      (omega arith)

abbrev gpu : GpuClockConstraints
gpu = record { range_min_mhz = 600; range_max_mhz = 2900 }

gpu_clock_range_for_tier-accepted_example :
    (validate_range (gpu_clock_range_for_tier FanCurvePreset.silent gpu default_fractions) gpu
      ≡ ok tt)
    × ((gpu_clock_range_for_tier FanCurvePreset.silent gpu default_fractions).min_mhz ≡ 600)
gpu_clock_range_for_tier-accepted_example =
    gpu_clock_range_for_tier-accepted FanCurvePreset.silent gpu default_fractions (omega arith)
      (omega arith)

abbrev manual_range : GpuClockRange
manual_range = record { min_mhz = 800; max_mhz = 1600 }

abbrev point : ℕ → ℕ → FanCurvePoint
point t d = record { temp_c = t; pwm = d }

abbrev curve : FanCurve
curve = record {
  point1 = point 30 0;
  point2 = point 40 20;
  point3 = point 50 40;
  point4 = point 60 70;
  point5 = point 70 110;
  point6 = point 80 150;
  point7 = point 90 200;
  point8 = point 100 255;
}

abbrev constraints : FanCurveConstraints
constraints = record {
  temp_min_c = 20;
  temp_max_c = 110;
  pwm_min = 0;
  pwm_max = 255;
  safety_floor = (90, 150) ∷ (100, 220) ∷ [];
}

curve_accepted : validate_against curve constraints ≡ ok tt
unfolding validate_against strict_windows check_points check_point check_floor required_duty
curve_accepted = refl

validate_against_iff_example :
    (validate_against curve constraints ≡ ok tt)
    ↔ (IsStrict (points curve) × All (IsPointAllowed constraints) (points curve))
validate_against_iff_example = validate_against_iff curve constraints
