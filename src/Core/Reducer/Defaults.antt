-- ===== src/Core/Reducer/Defaults.antt =====
-- hpd-core/src/reducer.rs: the arm `RestoreDefaults`, which chains five transitions.
use hpd_handheld_power_daemo.Prelude.{
  Bool, true, false, List, [], ◌∷◌, ◌++◌, any, if◌then◌else◌, ok, ◌>>=◌,
}
use hpd_handheld_power_daemo.Capability.Charge.{default_charge_threshold}
use hpd_handheld_power_daemo.Capability.Power.{PowerEnvelopeLimits}
use hpd_handheld_power_daemo.Capability.Profile.{ProfileName, TdpPreset, RuntimeConfig}
use hpd_handheld_power_daemo.Core.State.{ProfileState}
use hpd_handheld_power_daemo.Core.Transition.{Transition}
use hpd_handheld_power_daemo.Core.Effect.{Effect}
use hpd_handheld_power_daemo.Core.Reducer.Output.{Reduced, output, gate}
use hpd_handheld_power_daemo.Core.Reducer.PowerEnvelope.{reduce_set_preset}
use hpd_handheld_power_daemo.Core.Reducer.Levers.{
  reduce_set_profile, charge_threshold_changed, reduce_enable_fan_auto, reduce_reset_gpu_clocks,
  is_some,
}

-- `matches!(e, Effect::PersistState)`
abbrev pub is_persist : Effect → Bool
is_persist Effect.persist_state = true
is_persist _ = false

-- `effects.retain(|e| !matches!(e, Effect::PersistState))`
unfoldable pub without_persist : List Effect → List Effect
without_persist [] = []
without_persist (e ∷ es) = let rest = without_persist es in if is_persist e then rest else e ∷ rest

-- At most one `PersistState`, at the end.
unfoldable pub collapse_persist : List Effect → List Effect
collapse_persist es =
    if any is_persist es
    then without_persist es ++ Effect.persist_state ∷ []
    else without_persist es

-- The last step, made only where the GPU clock is managed.
unfoldable pub reset_managed_clock : ProfileState → Reduced
reset_managed_clock s =
    if is_some s.active_gpu_clock then reduce_reset_gpu_clocks s else ok (output s [])

unfoldable pub restore_defaults : ProfileState → PowerEnvelopeLimits → RuntimeConfig → Reduced
restore_defaults s limits config = do
  powered ← reduce_set_preset s TdpPreset.balanced limits config
  profiled ← reduce_set_profile powered.new_state ProfileName.performance
  let charged = charge_threshold_changed profiled.new_state default_charge_threshold
  cooled ← reduce_enable_fan_auto charged.new_state limits config
  clocked ← reset_managed_clock cooled.new_state
  ok (
      output clocked.new_state (
        collapse_persist (
          powered.effects
          ++ (profiled.effects ++ (charged.effects ++ (cooled.effects ++ clocked.effects))))))

unfoldable pub reduce_restore_defaults :
    ProfileState → PowerEnvelopeLimits → RuntimeConfig → Reduced
reduce_restore_defaults s limits config =
    gate s Transition.restore_defaults (restore_defaults s limits config)
