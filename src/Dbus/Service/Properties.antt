-- ===== src/Dbus/Service/Properties.antt =====
-- The readable properties of hpd-dbus/src/service.rs that follow the state of the daemon.
use hpd_handheld_power_daemo.Prelude.{Bool, ℕ, Option, none, some, String, nat_eq, string_eq}
use hpd_handheld_power_daemo.Capability.Units.{as_watts}
use hpd_handheld_power_daemo.Capability.FanCurve.{FanCurvePreset, FanCurveSelection}
use hpd_handheld_power_daemo.Capability.GpuClock.{GpuClockSelection}
use hpd_handheld_power_daemo.Capability.Profile.Names.{display_profile}
use hpd_handheld_power_daemo.Core.State.{ProfileState}

-- `FanCurvePreset::as_str`
unfoldable pub preset_text : FanCurvePreset → String
preset_text FanCurvePreset.silent = "silent"
preset_text FanCurvePreset.balanced = "balanced"
preset_text FanCurvePreset.aggressive = "aggressive"

-- The property `fan_curve`.
unfoldable pub fan_curve_text : Option FanCurveSelection → String
fan_curve_text none = "auto"
fan_curve_text (some (FanCurveSelection.preset p)) = preset_text p
fan_curve_text (some _) = "custom"

-- The property `gpu_clock_range`.
unfoldable pub gpu_clock_range_text : Option GpuClockSelection → String
gpu_clock_range_text none = "auto"
gpu_clock_range_text (some (GpuClockSelection.preset p)) = preset_text p
gpu_clock_range_text (some (GpuClockSelection.unmanaged r)) = "unknown"

-- The properties that are signalled when they change, in the order of the emitter.
pub record Properties : Type 0 where
  pub current_spl : ℕ
  pub active_profile : String
  pub charge_end_threshold : ℕ
  pub auto_cooling : Bool
  pub fan_curve : String
  pub gpu_clock_range : String
  pub gpu_follows_tdp : Bool
  pub ac_connected : Bool
  pub ac_locked : Bool
  pub ac_max_performance : Bool

-- What the getters answer in a state.
abbrev pub properties_of : ProfileState → Properties
properties_of s = record {
  current_spl = as_watts s.power_target.spl;
  active_profile = display_profile s.active_profile;
  charge_end_threshold = s.charge_end_threshold;
  auto_cooling = s.fan_follows_tdp;
  fan_curve = fan_curve_text s.active_fan_curve;
  gpu_clock_range = gpu_clock_range_text s.active_gpu_clock;
  gpu_follows_tdp = s.gpu_follows_tdp;
  ac_connected = s.is_ac_connected;
  ac_locked = s.ac_locked;
  ac_max_performance = s.ac_max_performance;
}
