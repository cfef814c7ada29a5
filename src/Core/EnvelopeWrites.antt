-- ===== src/Core/EnvelopeWrites.antt =====
-- The power envelopes among the effects of a transition (hpd-core/src/reducer.rs).
pub mod Arms
use hpd_handheld_power_daemo.Prelude.{◌≡◌, ok, arith, List, [], ◌∷◌, ◌++◌, All, ℕ}
use hpd_handheld_power_daemo.Capability.Charge.{default_charge_threshold}
use hpd_handheld_power_daemo.Capability.Power.{PowerEnvelopeLimits, PowerEnvelopeTarget}
use hpd_handheld_power_daemo.Capability.Profile.{ProfileName, TdpPreset, RuntimeConfig}
use hpd_handheld_power_daemo.Core.State.{ProfileState}
use hpd_handheld_power_daemo.Core.Effect.{Effect}
use hpd_handheld_power_daemo.Core.Transition.{Transition}
use hpd_handheld_power_daemo.Core.EnvelopeBounds.{IsWithin, IsWellFormed, IsBounded}
use hpd_handheld_power_daemo.Core.EnvelopeInvariant.Writes.{
  reduce_set_preset-IsBounded, gated-IsBounded, set_profile-IsBounded, charge-IsBounded,
}
use hpd_handheld_power_daemo.Core.DefaultsSteps.{DefaultsSteps, steps_of_defaults}
use hpd_handheld_power_daemo.Core.EnvelopeWrites.Arms.{
  IsSafe, AreSafe, All-snoc, gate-AreSafe, gated-AreSafe, set_spl-AreSafe, set_envelope-AreSafe,
  reduce_set_preset-AreSafe, set_profile-AreSafe, ac_power_changed-AreSafe, system_resumed-AreSafe,
  set_ac_max_performance-AreSafe,
}
use hpd_handheld_power_daemo.Core.Reducer.{
  sync_power_target, sync_platform_profile, sync_charge_threshold, sync_fan_curve,
  sync_gpu_clock_range, ReducerOutput, output, reduce, gate, reduce_set_envelope,
  reduce_set_profile, reduce_set_spl, reduce_set_cooling_level, reduce_set_custom_fan_curve,
  reduce_enable_gpu_auto_follow, reduce_reset_gpu_clocks, reduce_enable_fan_auto,
  reduce_reset_fan_curve, reduce_restore_defaults, charge_threshold_changed, enable_fan_auto,
  enable_gpu_auto_follow, reset_gpu_clocks, reset_fan_curve, set_manual_curve, reset_managed_clock,
  without_persist, collapse_persist,
}

All-append :
    (l : PowerEnvelopeLimits) (es es' : List Effect)
    → All (IsSafe l) es
    → All (IsSafe l) es'
    → All (IsSafe l) (es ++ es')
All-append l [] es' h k = k
All-append l (e ∷ es) es' h k = (h.0, All-append l es es' h.1 k)

without_persist-AreSafe :
    (l : PowerEnvelopeLimits) (es : List Effect)
    → All (IsSafe l) es
    → All (IsSafe l) (without_persist es)
unfolding without_persist
without_persist-AreSafe l [] h = tt
without_persist-AreSafe l (e ∷ es) h = ground (arith, without_persist-AreSafe l es h.1)

collapse_persist-AreSafe :
    (l : PowerEnvelopeLimits) (es : List Effect)
    → All (IsSafe l) es
    → All (IsSafe l) (collapse_persist es)
unfolding collapse_persist
collapse_persist-AreSafe l es h =
    ground
      (arith, without_persist-AreSafe l es h, All-snoc l (without_persist es) Effect.persist_state)

module _ (l : PowerEnvelopeLimits) (config : RuntimeConfig) where
  charge-AreSafe : (s : ProfileState) (n : ℕ) → AreSafe l (charge_threshold_changed s n)
  unfolding charge_threshold_changed
  charge-AreSafe s n = ground arith

  enable_fan_auto-AreSafe : (s : ProfileState) → AreSafe l (enable_fan_auto s l config)
  unfolding enable_fan_auto
  enable_fan_auto-AreSafe s = ground arith

  enable_gpu_auto_follow-AreSafe :
      (s : ProfileState) → AreSafe l (enable_gpu_auto_follow s l config)
  unfolding enable_gpu_auto_follow
  enable_gpu_auto_follow-AreSafe s = ground arith

  reset_gpu_clocks-AreSafe : (s : ProfileState) → AreSafe l (reset_gpu_clocks s)
  unfolding reset_gpu_clocks
  reset_gpu_clocks-AreSafe s = ground arith

  reset_fan_curve-AreSafe : (s : ProfileState) → AreSafe l (reset_fan_curve s)
  unfolding reset_fan_curve
  reset_fan_curve-AreSafe s = ground arith

  reset_managed_clock-AreSafe :
      (s : ProfileState) (o : ReducerOutput) → reset_managed_clock s ≡ ok o → AreSafe l o
  unfolding reset_managed_clock reduce_reset_gpu_clocks
  reset_managed_clock-AreSafe s o h = ground (
    arith,
    gated-AreSafe l config s Transition.reset_gpu_clocks (reset_gpu_clocks s) o
        (reset_gpu_clocks-AreSafe s),
  )

  steps-AreSafe :
      (s : ProfileState) (o : ReducerOutput)
      → IsBounded s l
      → DefaultsSteps s l config o
      → AreSafe l o
  unfolding reduce_set_profile reduce_enable_fan_auto
  steps-AreSafe s o b d =
      let a = reduce_set_preset-IsBounded l config s TdpPreset.balanced d.powered b d.power in
      let charged = charge_threshold_changed d.profiled.new_state default_charge_threshold in
      rw d.result (
        collapse_persist-AreSafe l _ (
          All-append l d.powered.effects _
            (reduce_set_preset-AreSafe l config s TdpPreset.balanced d.powered d.power)
            (All-append l d.profiled.effects _
              (gated-AreSafe l config _ _ _ d.profiled (set_profile-AreSafe l config _ _ a)
                d.profile)
              (All-append l charged.effects _ (charge-AreSafe _ _) (
                All-append l d.cooled.effects _
                  (gated-AreSafe l config _ _ _ d.cooled (enable_fan_auto-AreSafe _) d.cool)
                  (reset_managed_clock-AreSafe _ d.clocked d.clock))))))

  -- On well-formed limits, and from a state whose envelope and saved envelope are in order and in
  -- range of the hardware, every power envelope among the effects of a transition is too, whatever
  -- the configuration.
  pub reduce-AreSafe :
      (s : ProfileState) (t : Transition) {o : ReducerOutput}
      → IsWellFormed l
      → IsBounded s l
      → reduce s t l config ≡ ok o
      → All (IsSafe l) o.effects
  unfolding reduce reduce_set_envelope reduce_set_profile reduce_set_cooling_level
      reduce_set_custom_fan_curve reduce_enable_gpu_auto_follow reduce_reset_gpu_clocks
      reduce_enable_fan_auto reduce_reset_fan_curve reduce_restore_defaults reduce_set_spl
      set_manual_curve sync_power_target sync_platform_profile sync_charge_threshold sync_fan_curve
      sync_gpu_clock_range
  reduce-AreSafe s (Transition.set_preset p) {o} w b h = reduce_set_preset-AreSafe l config s p o h
  reduce-AreSafe s (Transition.set_spl watts) {o} w b h =
      gate-AreSafe l config s _ _ o h (set_spl-AreSafe l config s watts o)
  reduce-AreSafe s (Transition.set_envelope t) {o} w b h =
      gate-AreSafe l config s _ _ o h (set_envelope-AreSafe l config s t o)
  reduce-AreSafe s (Transition.set_profile p) {o} w b h =
      gated-AreSafe l config s _ _ o (set_profile-AreSafe l config s p b) h
  reduce-AreSafe s (Transition.set_cooling_level p) {o} w b h =
      gated-AreSafe l config s _ _ o (tt, (tt, tt)) h
  reduce-AreSafe s (Transition.set_custom_fan_curve c g) {o} w b h =
      gated-AreSafe l config s _ _ o (tt, (tt, tt)) h
  reduce-AreSafe s Transition.enable_gpu_auto_follow {o} w b h =
      gated-AreSafe l config s _ _ o (enable_gpu_auto_follow-AreSafe s) h
  reduce-AreSafe s Transition.reset_gpu_clocks {o} w b h =
      gated-AreSafe l config s _ _ o (reset_gpu_clocks-AreSafe s) h
  reduce-AreSafe s (Transition.charge_threshold_changed c) w b h =
      ground (arith, charge-AreSafe s c)
  reduce-AreSafe s (Transition.ac_power_changed on) {o} w b h =
      ac_power_changed-AreSafe l config s on o w b h
  reduce-AreSafe s Transition.system_resumed w b h =
      ground (arith, system_resumed-AreSafe l config s w b)
  reduce-AreSafe s (Transition.set_ac_max_performance on) w b h =
      ground (arith, set_ac_max_performance-AreSafe l config s on w b)
  reduce-AreSafe s Transition.enable_fan_auto {o} w b h =
      gated-AreSafe l config s _ _ o (enable_fan_auto-AreSafe s) h
  reduce-AreSafe s Transition.reset_fan_curve {o} w b h =
      gated-AreSafe l config s _ _ o (reset_fan_curve-AreSafe s) h
  reduce-AreSafe s Transition.restore_defaults {o} w b h =
      gate-AreSafe l config s _ _ o h (λ e. steps-AreSafe s o b (steps_of_defaults s l config e))
  reduce-AreSafe s t w b h = ground arith
