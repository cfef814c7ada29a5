-- ===== src/Core/Effect.antt =====
-- hpd-core/src/effect.rs
use hpd_handheld_power_daemo.Prelude.{ℕ}
use hpd_handheld_power_daemo.Capability.Power.{PowerEnvelopeTarget}
use hpd_handheld_power_daemo.Capability.Profile.{ProfileName}
use hpd_handheld_power_daemo.Capability.FanCurve.{FanCurvePreset, FanCurveSelection}

pub data Effect : Type 0 where
  apply_power_envelope : PowerEnvelopeTarget → Effect
  apply_platform_profile : ProfileName → Effect
  apply_charge_threshold : ℕ → Effect
  apply_fan_curve : FanCurveSelection → Effect
  reset_fan_curve : Effect
  apply_gpu_clock_range : FanCurvePreset → Effect
  reset_gpu_clocks : Effect
  persist_state : Effect
