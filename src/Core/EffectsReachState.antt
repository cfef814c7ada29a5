-- ===== src/Core/EffectsReachState.antt =====
-- The effects of a transition, run on the embedded controller (hpd-core/src/reducer.rs).
mod Writes
mod Restored
mod AcPower
mod Defaults
use hpd_handheld_power_daemo.Core.EffectsReachState.Defaults.{steps-Reaches}
use hpd_handheld_power_daemo.Core.EffectsReachState.AcPower.{
  set_ac_max_performance-Reaches, system_resumed-Reaches, ac_power_changed-Reaches,
}
use hpd_handheld_power_daemo.Core.EffectsReachState.Writes.{
  reset_fan_curve-Reaches, enable_fan_auto-Reaches, charge_threshold_changed-Reaches,
  reset_gpu_clocks-Reaches, enable_gpu_auto_follow-Reaches, set_manual_curve-Reaches,
  set_profile-Reaches, gated-Reaches, set_spl-Reaches, set_envelope-Reaches, gate-Reaches,
  set_preset-Reaches, Reaches,
}
use hpd_handheld_power_daemo.Prelude.{
  ◌++◌, Bool-cases, inl, inr, List, ℕ, inr, inl, ◌&&◌, Bool-cases, true, false, refl, some, ◌!=◌,
  Option, ℕ, ◌≡◌, ◌∙◌, ap, Bool, [], ◌∷◌, none, ok, arith, if◌then◌else◌, option_beq_iff,
}
use hpd_handheld_power_daemo.Core.Reducer.{
  output, restore_dc_state, ReducerOutput, follow_fan, follow_gpu, follow_tier, apply_power_target,
  set_spl, force_ac_max_performance, pin_gpu_clock, curve_effect, gate, Reduced, plugged, unplugged,
  reassert_all, reassert_clock, lock_while_plugged, unlock_while_plugged, resumed_on_battery,
  charge_threshold_changed, enable_fan_auto, enable_gpu_auto_follow, reset_gpu_clocks,
  reset_fan_curve, set_manual_curve, set_envelope, reset_managed_clock, reduce_reset_gpu_clocks,
  without_persist, collapse_persist, reduce_set_profile, reduce_enable_fan_auto, reduce,
  reduce_set_envelope, reduce_set_cooling_level, reduce_set_custom_fan_curve,
  reduce_enable_gpu_auto_follow, reduce_reset_fan_curve, reduce_restore_defaults, preset_watts,
  reduce_set_preset, reduce_set_spl, ac_power_changed, system_resumed, set_ac_max_performance,
  restore_profile, restore_envelope, restore_curve, restore_gpu_clock, restore_tier, push, update,
  set_profile,
}
use hpd_handheld_power_daemo.Core.EmbeddedController.{
  Controller, accept, run, run-append, described,
}
use hpd_handheld_power_daemo.Core.DefaultsSteps.{DefaultsSteps, steps_of_defaults}
use hpd_handheld_power_daemo.Core.RestoredState.{restore_dc_state-new_state}
use hpd_handheld_power_daemo.Core.Transition.{Transition}
use hpd_handheld_power_daemo.Core.Effect.{Effect}
use hpd_handheld_power_daemo.Core.State.{ProfileState, DcSnapshot}
use hpd_handheld_power_daemo.Capability.GpuClock.{GpuClockSelection}
use hpd_handheld_power_daemo.Capability.Charge.{default_charge_threshold}
use hpd_handheld_power_daemo.Capability.Power.{PowerEnvelopeLimits, PowerEnvelopeTarget, target_eq}
use hpd_handheld_power_daemo.Capability.Profile.{TdpPreset, ProfileName, RuntimeConfig, profile_eq}
use hpd_handheld_power_daemo.Capability.FanCurve.{selection_eq, FanCurvePreset, FanCurveSelection}

-- The rollbacks, which follow the hardware instead.
abbrev pub is_sync : Transition → Bool
is_sync (Transition.sync_power_target _) = true
is_sync (Transition.sync_platform_profile _) = true
is_sync (Transition.sync_charge_threshold _) = true
is_sync (Transition.sync_fan_curve _) = true
is_sync (Transition.sync_gpu_clock_range _) = true
is_sync _ = false

module _ (limits : PowerEnvelopeLimits) (config : RuntimeConfig) where
  set_spl_gated-Reaches :
      (s : ProfileState) (w : ℕ) (o : ReducerOutput)
      → reduce_set_spl s w limits config ≡ ok o
      → Reaches (described s) o
  unfolding reduce_set_spl
  set_spl_gated-Reaches s w o h =
      gate-Reaches s limits config _ _ o h (set_spl-Reaches s limits config w)

  -- From a device in the state that the daemon reports, the effects of every transition but a
  -- rollback, taken in order by hardware that accepts them and that drops the power envelope and
  -- the fan curve at each profile write, lead to the state that the daemon reports afterwards.
  pub run-reduce :
      (s : ProfileState) (t : Transition) {o : ReducerOutput}
      → is_sync t ≡ false
      → reduce s t limits config ≡ ok o
      → run (described s) o.effects ≡ described o.new_state
  unfolding reduce reduce_set_envelope reduce_set_profile reduce_set_cooling_level
      reduce_set_custom_fan_curve reduce_enable_gpu_auto_follow reduce_reset_gpu_clocks
      reduce_enable_fan_auto reduce_reset_fan_curve reduce_restore_defaults run
  run-reduce s (Transition.set_preset p) {o} n h = set_preset-Reaches s limits config p o h
  run-reduce s (Transition.set_spl w) {o} n h = set_spl_gated-Reaches s w o h
  run-reduce s (Transition.set_envelope t) {o} n h =
      gate-Reaches s limits config _ _ o h (set_envelope-Reaches limits config s t o)
  run-reduce s (Transition.set_profile p) {o} n h =
      gated-Reaches limits config s _ _ o (set_profile-Reaches s limits config p) h
  run-reduce s (Transition.set_cooling_level p) {o} n h =
      gated-Reaches limits config s _ _ o (set_manual_curve-Reaches limits config s _) h
  run-reduce s (Transition.set_custom_fan_curve c g) {o} n h =
      gated-Reaches limits config s _ _ o (set_manual_curve-Reaches limits config s _) h
  run-reduce s Transition.enable_gpu_auto_follow {o} n h =
      gated-Reaches limits config s _ _ o (enable_gpu_auto_follow-Reaches limits config s) h
  run-reduce s Transition.reset_gpu_clocks {o} n h =
      gated-Reaches limits config s _ _ o (reset_gpu_clocks-Reaches limits config s) h
  run-reduce s (Transition.charge_threshold_changed c) n h =
      ground (arith, charge_threshold_changed-Reaches limits config s c)
  run-reduce s (Transition.ac_power_changed b) {o} n h =
      ac_power_changed-Reaches s limits config b o h
  run-reduce s Transition.system_resumed n h =
      ground (arith, system_resumed-Reaches s limits config)
  run-reduce s (Transition.set_ac_max_performance b) n h =
      ground (arith, set_ac_max_performance-Reaches s limits config b)
  run-reduce s Transition.enable_fan_auto {o} n h =
      gated-Reaches limits config s _ _ o (enable_fan_auto-Reaches limits config s) h
  run-reduce s Transition.reset_fan_curve {o} n h =
      gated-Reaches limits config s _ _ o (reset_fan_curve-Reaches limits config s) h
  run-reduce s Transition.restore_defaults {o} n h =
      gate-Reaches s limits config _ _ o h
        (λ e. steps-Reaches limits config s o (steps_of_defaults s limits config e))
  run-reduce s t n h = ground arith
