-- ===== src/Core/DefaultsSteps.antt =====
-- The steps of a `RestoreDefaults` (hpd-core/src/reducer.rs) that succeeds.
use hpd_handheld_power_daemo.Prelude.{◌≡◌, ◌++◌, ok, >>=-eq-ok}
use hpd_handheld_power_daemo.Capability.Charge.{default_charge_threshold}
use hpd_handheld_power_daemo.Capability.Power.{PowerEnvelopeLimits}
use hpd_handheld_power_daemo.Capability.Profile.{ProfileName, TdpPreset, RuntimeConfig}
use hpd_handheld_power_daemo.Core.State.{ProfileState}
use hpd_handheld_power_daemo.Core.Reducer.{
  ReducerOutput, output, reduce_set_preset, reduce_set_profile, charge_threshold_changed,
  reduce_enable_fan_auto, reset_managed_clock, collapse_persist, restore_defaults,
}

pub record DefaultsSteps (s : ProfileState) (limits : PowerEnvelopeLimits) (config : RuntimeConfig)
    (o : ReducerOutput) : Type 0 where
  pub powered : ReducerOutput
  pub profiled : ReducerOutput
  pub cooled : ReducerOutput
  pub clocked : ReducerOutput
  pub power : reduce_set_preset s TdpPreset.balanced limits config ≡ ok powered
  pub profile : reduce_set_profile powered.new_state ProfileName.performance ≡ ok profiled
  pub cool :
      reduce_enable_fan_auto
        (charge_threshold_changed profiled.new_state default_charge_threshold).new_state
        limits
        config
      ≡ ok cooled
  pub clock : reset_managed_clock cooled.new_state ≡ ok clocked
  pub result :
      o
      ≡ output clocked.new_state (
          collapse_persist (
            powered.effects
            ++ (profiled.effects
                ++ ((charge_threshold_changed profiled.new_state default_charge_threshold).effects
                    ++ (cooled.effects ++ clocked.effects)))))

module _ (s : ProfileState) (limits : PowerEnvelopeLimits) (config : RuntimeConfig) where
  pub steps_of_defaults :
      {o : ReducerOutput}
      → restore_defaults s limits config ≡ ok o
      → DefaultsSteps s limits config o
  unfolding restore_defaults
  steps_of_defaults h =
      let (a, ea, h1) = >>=-eq-ok (reduce_set_preset s TdpPreset.balanced limits config) _ h in
      let (b, eb, h2) = >>=-eq-ok (reduce_set_profile a.new_state ProfileName.performance) _ h1 in
      let d = charge_threshold_changed b.new_state default_charge_threshold in
      let (e, ee, h3) = >>=-eq-ok (reduce_enable_fan_auto d.new_state limits config) _ h2 in
      let (g, eg, h4) = >>=-eq-ok (reset_managed_clock e.new_state) _ h3 in
      record {
        powered = a;
        profiled = b;
        cooled = e;
        clocked = g;
        power = ea;
        profile = eb;
        cool = ee;
        clock = eg;
        result = cc h4;
      }
