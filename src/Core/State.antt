-- ===== src/Core/State.antt =====
-- hpd-core/src/state.rs. The charge threshold is a `u8`.
use hpd_handheld_power_daemo.Prelude.{ℕ, Bool, Option}
use hpd_handheld_power_daemo.Capability.Power.{PowerEnvelopeTarget}
use hpd_handheld_power_daemo.Capability.Profile.{ProfileName}
use hpd_handheld_power_daemo.Capability.FanCurve.{FanCurveSelection}
use hpd_handheld_power_daemo.Capability.GpuClock.{GpuClockSelection}

pub record DcSnapshot : Type 0 where
  pub power_target : PowerEnvelopeTarget
  pub active_profile : ProfileName
  pub active_fan_curve : Option FanCurveSelection
  pub fan_follows_tdp : Bool
  pub active_gpu_clock : Option GpuClockSelection
  pub gpu_follows_tdp : Bool

pub record ProfileState : Type 0 where
  pub power_target : PowerEnvelopeTarget
  pub active_profile : ProfileName
  pub charge_end_threshold : ℕ
  pub fan_follows_tdp : Bool
  pub last_dc_state : Option DcSnapshot
  pub ac_max_performance : Bool
  pub active_fan_curve : Option FanCurveSelection
  pub active_gpu_clock : Option GpuClockSelection
  pub gpu_follows_tdp : Bool
  pub is_ac_connected : Bool
  pub ac_locked : Bool
