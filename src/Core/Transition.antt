-- ===== src/Core/Transition.antt =====
-- hpd-core/src/transition.rs
use hpd_handheld_power_daemo.Prelude.{ℕ, Bool, Option}
use hpd_handheld_power_daemo.Capability.Power.{PowerEnvelopeTarget}
use hpd_handheld_power_daemo.Capability.Profile.{ProfileName, TdpPreset, RuntimeConfig}
use hpd_handheld_power_daemo.Capability.FanCurve.{FanCurve, FanCurvePreset, FanCurveSelection}
use hpd_handheld_power_daemo.Capability.GpuClock.{GpuClockRange}

pub data Transition : Type 0 where
  set_preset : TdpPreset → Transition
  set_spl : ℕ → Transition
  set_envelope : PowerEnvelopeTarget → Transition
  set_profile : ProfileName → Transition
  set_cooling_level : FanCurvePreset → Transition
  set_custom_fan_curve : FanCurve → FanCurve → Transition
  enable_gpu_auto_follow : Transition
  reset_gpu_clocks : Transition
  sync_gpu_clock_range : Option GpuClockRange → Transition
  charge_threshold_changed : ℕ → Transition
  sync_power_target : PowerEnvelopeTarget → Transition
  sync_platform_profile : ProfileName → Transition
  sync_charge_threshold : ℕ → Transition
  sync_fan_curve : Option FanCurveSelection → Transition
  ac_power_changed : Bool → Transition
  system_resumed : Transition
  set_ac_max_performance : Bool → Transition
  enable_fan_auto : Transition
  reset_fan_curve : Transition
  restore_defaults : Transition
  config_reload : RuntimeConfig → Transition
  shutdown : Transition
