-- ===== src/Capability/Backend.antt =====
-- hpd-capabilities: the traits of a hardware backend (backend.rs, and the traits of power.rs,
-- charge.rs, profile.rs, fan_curve.rs and gpu_clock.rs), as far as the executor calls them. `H` is
-- the state of the hardware: a read depends on it, and a write changes it, whether it fails or not.
use hpd_handheld_power_daemo.Prelude.{ℕ, Bool, Option}
use hpd_handheld_power_daemo.Error.{Fallible}
use hpd_handheld_power_daemo.Capability.Power.{PowerEnvelopeLimits, PowerEnvelopeTarget}
use hpd_handheld_power_daemo.Capability.Profile.{ProfileName}
use hpd_handheld_power_daemo.Capability.FanCurve.{FanCurveSelection}
use hpd_handheld_power_daemo.Capability.GpuClock.{GpuClockRange, GpuClockConstraints}

-- A `&self` method that writes.
abbrev pub Write {ℓ} : Type ℓ → Type ℓ
Write H = H → Fallible (Unit {0}) × H

pub record PowerEnvelope {ℓ} (H : Type ℓ) : Type ℓ where
  pub get_limits : H → Fallible PowerEnvelopeLimits
  pub get_target : H → Fallible PowerEnvelopeTarget
  pub set_target : PowerEnvelopeTarget → Write H

pub record ChargeControl {ℓ} (H : Type ℓ) : Type ℓ where
  pub is_ac_connected : H → Fallible Bool
  pub set_end_threshold : ℕ → Write H
  pub get_end_threshold : H → Fallible ℕ

pub record PlatformProfile {ℓ} (H : Type ℓ) : Type ℓ where
  pub set_active_profile : ProfileName → Write H
  pub get_active_profile : H → Fallible ProfileName

pub record FanCurveControl {ℓ} (H : Type ℓ) : Type ℓ where
  pub apply : FanCurveSelection → Write H
  pub reset_to_auto : Write H
  pub active_selection : H → Fallible (Option FanCurveSelection)

pub record GpuClockRangeControl {ℓ} (H : Type ℓ) : Type ℓ where
  pub set_range : GpuClockRange → Write H
  pub reset_to_auto : Write H
  pub active_range : H → Fallible (Option GpuClockRange)
  pub constraints : H → Fallible GpuClockConstraints

pub record HwBackend {ℓ} (H : Type ℓ) : Type ℓ where
  pub power : PowerEnvelope H
  pub charge : Option (ChargeControl H)
  pub profile : Option (PlatformProfile H)
  pub fan_curve : Option (FanCurveControl H)
  pub gpu_clock : Option (GpuClockRangeControl H)
