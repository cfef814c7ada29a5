-- ===== src/Core/EffectsReachState/Defaults.antt =====
-- The effects of `RestoreDefaults` (hpd-core/src/reducer.rs).
use hpd_handheld_power_daemo.Core.EffectsReachState.Writes.{
  reset_managed_clock-Reaches, charge_threshold_changed-Reaches, set_profile-Reaches,
  set_preset-Reaches, enable_fan_auto-Reaches, gated-Reaches, Reaches,
}
use hpd_handheld_power_daemo.Prelude.{◌++◌, List, refl, ◌≡◌, ◌∙◌, ap, [], ◌∷◌, arith}
use hpd_handheld_power_daemo.Core.Reducer.{
  ReducerOutput, charge_threshold_changed, without_persist, collapse_persist, reduce_set_profile,
  reduce_enable_fan_auto,
}
use hpd_handheld_power_daemo.Core.EmbeddedController.{
  Controller, accept, run, run-append, described,
}
use hpd_handheld_power_daemo.Core.DefaultsSteps.{DefaultsSteps}
use hpd_handheld_power_daemo.Core.Transition.{Transition}
use hpd_handheld_power_daemo.Core.Effect.{Effect}
use hpd_handheld_power_daemo.Core.State.{ProfileState}
use hpd_handheld_power_daemo.Capability.Charge.{default_charge_threshold}
use hpd_handheld_power_daemo.Capability.Power.{PowerEnvelopeLimits, target_eq}
use hpd_handheld_power_daemo.Capability.Profile.{TdpPreset, ProfileName, RuntimeConfig, profile_eq}
use hpd_handheld_power_daemo.Capability.FanCurve.{selection_eq}

run-without_persist : (c : Controller) (es : List Effect) → run c (without_persist es) ≡ run c es
unfolding without_persist run
run-without_persist c [] = refl
run-without_persist c (Effect.persist_state ∷ es) = run-without_persist c es
run-without_persist c (e ∷ es) = run-without_persist (accept c e) es

run-collapse_persist : (c : Controller) (es : List Effect) → run c (collapse_persist es) ≡ run c es
unfolding collapse_persist run
run-collapse_persist c es =
    ground (
      arith,
      run-without_persist c es,
      run-append c (without_persist es) (Effect.persist_state ∷ []),
    )

-- Effects after effects.
run-then :
    (s : ProfileState) (o : ReducerOutput) (es : List Effect)
    → Reaches (described s) o
    → run (described s) (o.effects ++ es) ≡ run (described o.new_state) es
run-then s o es h = run-append (described s) o.effects es ∙ ap (λ c. run c es) h

module _ (limits : PowerEnvelopeLimits) (config : RuntimeConfig) where
  pub steps-Reaches :
      (s : ProfileState) (o : ReducerOutput)
      → DefaultsSteps s limits config o
      → Reaches (described s) o
  unfolding reduce_set_profile reduce_enable_fan_auto
  steps-Reaches s o d =
      let charged = charge_threshold_changed d.profiled.new_state default_charge_threshold in
      let after_cool = run-then charged.new_state d.cooled d.clocked.effects (
        gated-Reaches limits config charged.new_state Transition.enable_fan_auto _ d.cooled
          (enable_fan_auto-Reaches limits config charged.new_state) d.cool) in
      rw d.result (
        run-collapse_persist (described s) _
        ∙ run-then s d.powered _
            (set_preset-Reaches s limits config TdpPreset.balanced d.powered d.power)
        ∙ run-then d.powered.new_state d.profiled _ (
            gated-Reaches limits config d.powered.new_state
              (Transition.set_profile ProfileName.performance) _ d.profiled
              (set_profile-Reaches d.powered.new_state limits config ProfileName.performance)
              d.profile)
        ∙ run-then d.profiled.new_state charged _ (
            charge_threshold_changed-Reaches limits config d.profiled.new_state
              default_charge_threshold)
        ∙ after_cool
        ∙ reset_managed_clock-Reaches limits config d.cooled.new_state d.clocked d.clock)
