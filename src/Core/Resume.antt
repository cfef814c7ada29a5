-- ===== src/Core/Resume.antt =====
-- `SystemResumed` (hpd-core/src/reducer.rs), which is sent after a suspend and at boot, when the
-- device may have lost what was written before.
use hpd_handheld_power_daemo.Prelude.{
  ◌≡◌, ◌⊎◌, true, false, ◌&&◌, none, some, arith, option_beq_iff,
}
use hpd_handheld_power_daemo.Capability.Power.{PowerEnvelopeLimits, target_beq_iff}
use hpd_handheld_power_daemo.Capability.Profile.{RuntimeConfig, profile_beq_iff}
use hpd_handheld_power_daemo.Capability.FanCurve.{selection_eq}
use hpd_handheld_power_daemo.Capability.GpuClock.{clock_eq}
use hpd_handheld_power_daemo.Core.State.{ProfileState}
use hpd_handheld_power_daemo.Core.EmbeddedController.{Controller, run, described}
use hpd_handheld_power_daemo.Core.Reducer.{
  snapshot_of, system_resumed, resumed_on_battery, reassert_all, reassert_clock,
  force_ac_max_performance, pin_gpu_clock, restore_dc_state, restore_profile, restore_envelope,
  restore_curve, restore_gpu_clock,
}

module _ (s : ProfileState) (limits : PowerEnvelopeLimits) (config : RuntimeConfig) where
  -- On AC with the lock on, or with no snapshot of a battery state to restore, a resume brings a
  -- device in any state at all to the one that the daemon reports; only a GPU clock that the daemon
  -- does not manage is left to the firmware.
  pub run-system_resumed :
      (c : Controller)
      → ((s.is_ac_connected && s.ac_max_performance) ≡ true) ⊎ (s.last_dc_state ≡ none)
      → (s.active_gpu_clock ≡ none → c.clock ≡ none)
      → run c (system_resumed s limits config).effects
        ≡ described (system_resumed s limits config).new_state
  unfolding system_resumed resumed_on_battery reassert_all reassert_clock force_ac_max_performance
      pin_gpu_clock run described
  run-system_resumed c h k = ground arith

  -- On battery with a snapshot whose levers are those of the state, a resume writes no lever: a
  -- device that has lost its envelope, profile, fan curve or clock stays without them.
  pub run-system_resumed_same_snapshot :
      (c : Controller)
      → (s.is_ac_connected && s.ac_max_performance) ≡ false
      → s.last_dc_state ≡ some (snapshot_of s)
      → run c (system_resumed s limits config).effects
        ≡ record c { charge = s.charge_end_threshold }
  unfolding system_resumed resumed_on_battery restore_dc_state restore_profile restore_envelope
      restore_curve restore_gpu_clock run
  run-system_resumed_same_snapshot c u e = ground (
    arith,
    profile_beq_iff s.active_profile s.active_profile,
    target_beq_iff s.power_target s.power_target,
    option_beq_iff s.active_fan_curve s.active_fan_curve,
    option_beq_iff s.active_gpu_clock s.active_gpu_clock,
  )
