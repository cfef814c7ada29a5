-- ===== src/Core/EnvelopeInvariant.antt =====
-- The power envelope of the state, and the one that is saved for battery mode, through every
-- transition (hpd-core/src/reducer.rs).
pub mod Writes
mod AcPower
use hpd_handheld_power_daemo.Core.EnvelopeInvariant.AcPower.{
  set_ac_max_performance-IsBounded, system_resumed-IsBounded, ac_power_changed-IsBounded,
}
use hpd_handheld_power_daemo.Core.EnvelopeInvariant.Writes.{
  reset_fan_curve-IsBounded, reset_gpu_clocks-IsBounded, reset_managed_clock-IsBounded,
  enable_gpu_auto_follow-IsBounded, set_manual_curve-IsBounded, enable_fan_auto-IsBounded,
  charge-IsBounded, set_envelope-IsBounded, set_spl-IsBounded, set_profile-IsBounded,
  gate-IsBounded, gated-IsBounded, reduce_set_preset-IsBounded,
}
use hpd_handheld_power_daemo.Prelude.{
  inl, inr, ℕ, ◌≡◌, Bool, true, false, Option, none, some, ok, arith,
}
use hpd_handheld_power_daemo.Capability.Charge.{default_charge_threshold}
use hpd_handheld_power_daemo.Capability.Power.{
  PowerEnvelopeLimits, PowerEnvelopeTarget, target_beq_iff,
}
use hpd_handheld_power_daemo.Capability.Profile.{ProfileName, TdpPreset, RuntimeConfig}
use hpd_handheld_power_daemo.Capability.FanCurve.{FanCurvePreset, FanCurveSelection}
use hpd_handheld_power_daemo.Core.State.{ProfileState, DcSnapshot}
use hpd_handheld_power_daemo.Core.Transition.{Transition}
use hpd_handheld_power_daemo.Core.Invariants.{validate_power_envelope}
use hpd_handheld_power_daemo.Core.EnvelopeBounds.{
  IsBounded, IsWithin, IsWellFormed, validate_power_envelope_iff, derive_boosted_envelope-IsWithin,
}
use hpd_handheld_power_daemo.Core.RestoredState.{restore_dc_state-new_state}
use hpd_handheld_power_daemo.Core.UnplugSteps.{unplug_steps}
use hpd_handheld_power_daemo.Core.DefaultsSteps.{DefaultsSteps, steps_of_defaults}
use hpd_handheld_power_daemo.Core.Reducer.{
  ReducerOutput, Reduced, gate, follow_tier, follow_fan, follow_gpu, apply_power_target, set_spl,
  set_envelope, system_resumed, resumed_on_battery, reassert_all, reassert_clock,
  set_ac_max_performance, lock_while_plugged, unlock_while_plugged, reduce_set_profile, set_profile,
  charge_threshold_changed, reduce_enable_fan_auto, enable_fan_auto, reset_managed_clock,
  reduce_reset_gpu_clocks, reset_gpu_clocks, reduce, reduce_set_envelope, reduce_set_cooling_level,
  reduce_set_custom_fan_curve, reduce_enable_gpu_auto_follow, reduce_reset_fan_curve,
  reduce_restore_defaults, sync_power_target, sync_platform_profile, sync_charge_threshold,
  sync_fan_curve, sync_gpu_clock_range, enable_gpu_auto_follow, reset_fan_curve, set_manual_curve,
  preset_watts, reduce_set_preset, reduce_set_spl, derive_boosted_envelope,
  force_ac_max_performance, pin_gpu_clock, plugged, unplugged, ac_power_changed,
}

module _ (l : PowerEnvelopeLimits) (config : RuntimeConfig) where
  steps-IsBounded :
      (s : ProfileState) (o : ReducerOutput)
      → IsBounded s l
      → DefaultsSteps s l config o
      → IsBounded o.new_state l
  unfolding reduce_set_profile reduce_enable_fan_auto
  steps-IsBounded s o b d =
      let a = reduce_set_preset-IsBounded l config s TdpPreset.balanced d.powered b d.power in
      let p =
        gated-IsBounded l config d.powered.new_state _ _ d.profiled a
          (set_profile-IsBounded l config _ _ a) d.profile in
      let c = charge-IsBounded l config d.profiled.new_state default_charge_threshold p in
      let f =
        gated-IsBounded l config _ _ _ d.cooled c (enable_fan_auto-IsBounded l config _ c) d.cool in
      rw d.result (reset_managed_clock-IsBounded l config d.cooled.new_state d.clocked f d.clock)

-- A rollback carries an envelope in range.
abbrev pub IsReportWithin : Transition → PowerEnvelopeLimits → Type 0
IsReportWithin (Transition.sync_power_target t) l = IsWithin t l
IsReportWithin _ l = Unit

-- On well-formed limits every transition keeps the envelope of the state, and the one that it has
-- saved for battery mode, in order and in range of the hardware, whatever the configuration;
-- a rollback does so if the envelope that the hardware reports is.
pub reduce-IsBounded :
    (s : ProfileState) (t : Transition) (l : PowerEnvelopeLimits) (config : RuntimeConfig)
    {o : ReducerOutput}
    → IsWellFormed l
    → IsReportWithin t l
    → IsBounded s l
    → reduce s t l config ≡ ok o
    → IsBounded o.new_state l
unfolding reduce reduce_set_envelope reduce_set_profile reduce_set_cooling_level
    reduce_set_custom_fan_curve reduce_enable_gpu_auto_follow reduce_reset_gpu_clocks
    reduce_enable_fan_auto reduce_reset_fan_curve reduce_restore_defaults reduce_set_spl
    sync_power_target sync_platform_profile sync_charge_threshold sync_fan_curve
    sync_gpu_clock_range
reduce-IsBounded s (Transition.set_preset p) l config {o} w r b h =
    reduce_set_preset-IsBounded l config s p o b h
reduce-IsBounded s (Transition.set_spl watts) l config {o} w r b h =
    gate-IsBounded l config s _ _ o b h (set_spl-IsBounded l config s watts o b)
reduce-IsBounded s (Transition.set_envelope t) l config {o} w r b h =
    gate-IsBounded l config s _ _ o b h (set_envelope-IsBounded l config s t o b)
reduce-IsBounded s (Transition.set_profile p) l config {o} w r b h =
    gated-IsBounded l config s _ _ o b (set_profile-IsBounded l config s p b) h
reduce-IsBounded s (Transition.set_cooling_level p) l config {o} w r b h =
    gated-IsBounded l config s _ _ o b (set_manual_curve-IsBounded l config s _ b) h
reduce-IsBounded s (Transition.set_custom_fan_curve c g) l config {o} w r b h =
    gated-IsBounded l config s _ _ o b (set_manual_curve-IsBounded l config s _ b) h
reduce-IsBounded s Transition.enable_gpu_auto_follow l config {o} w r b h =
    gated-IsBounded l config s _ _ o b (enable_gpu_auto_follow-IsBounded l config s b) h
reduce-IsBounded s Transition.reset_gpu_clocks l config {o} w r b h =
    gated-IsBounded l config s _ _ o b (reset_gpu_clocks-IsBounded l config s b) h
reduce-IsBounded s (Transition.charge_threshold_changed c) l config w r b h =
    ground (arith, charge-IsBounded l config s c b)
reduce-IsBounded s (Transition.ac_power_changed on) l config {o} w r b h =
    ac_power_changed-IsBounded l config w s on o b h
reduce-IsBounded s Transition.system_resumed l config w r b h =
    ground (arith, system_resumed-IsBounded l config w s b)
reduce-IsBounded s (Transition.set_ac_max_performance on) l config w r b h =
    ground (arith, set_ac_max_performance-IsBounded l config w s on b)
reduce-IsBounded s Transition.enable_fan_auto l config {o} w r b h =
    gated-IsBounded l config s _ _ o b (enable_fan_auto-IsBounded l config s b) h
reduce-IsBounded s Transition.reset_fan_curve l config {o} w r b h =
    gated-IsBounded l config s _ _ o b (reset_fan_curve-IsBounded l config s b) h
reduce-IsBounded s Transition.restore_defaults l config {o} w r b h =
    gate-IsBounded l config s _ _ o b h
      (λ e. steps-IsBounded l config s o b (steps_of_defaults s l config e))
reduce-IsBounded s t l config w r b h = ground arith
