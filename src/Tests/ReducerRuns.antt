-- ===== src/Tests/ReducerRuns.antt =====
-- Runs of the reducer (hpd-core/src/reducer.rs).
use hpd_handheld_power_daemo.Core.Inference.{infer_fan_curve_from_spl}
use hpd_handheld_power_daemo.Core.EffectsReachState.{run-reduce}
use hpd_handheld_power_daemo.Core.Effect.{Effect}
use hpd_handheld_power_daemo.Core.Transition.{Transition}
use hpd_handheld_power_daemo.Core.EmbeddedController.{described, run}
use hpd_handheld_power_daemo.Float.{lt, div, of_u32, mul, to_u32}
use hpd_handheld_power_daemo.Core.Invariants.{validate_power_envelope}
use hpd_handheld_power_daemo.Capability.Units.{from_watts}
use hpd_handheld_power_daemo.Core.EnvelopeWrites.{reduce-AreSafe}
use hpd_handheld_power_daemo.Core.EnvelopeWrites.Arms.{IsSafe}
use hpd_handheld_power_daemo.Core.EnvelopeInvariant.{reduce-IsBounded}
use hpd_handheld_power_daemo.Capability.Profile.{profile_beq, ProfileName, default_config}
use hpd_handheld_power_daemo.Prelude.{
  All, none, ◌++◌, ok, refl, ◌∷◌, [], true, ◌≡◌, some, arith, false,
}
use hpd_handheld_power_daemo.Core.Durability.{on_disk-reduce, on_disk}
use hpd_handheld_power_daemo.Core.EnvelopeBounds.{IsBounded, IsWellFormed}
use hpd_handheld_power_daemo.Capability.FanCurve.{FanCurvePreset, FanCurveSelection}
use hpd_handheld_power_daemo.Core.State.{ProfileState}
use hpd_handheld_power_daemo.Core.LockedOnAc.{
  LeverWrite, plug-unplug, after-plugged-IsPinned, reduce-locked_write, IsPinned, after,
}
use hpd_handheld_power_daemo.Capability.Power.{target_beq, PowerEnvelopeTarget}
use hpd_handheld_power_daemo.Core.DefaultsIdempotence.{
  restore_defaults_twice, restore_defaults-IsDefault, IsDefault,
}
use hpd_handheld_power_daemo.Core.Reducer.{
  without_persist, collapse_persist, reset_managed_clock, enable_fan_auto, reduce_enable_fan_auto,
  charge_threshold_changed, apply_power_target, derive_boosted_envelope, preset_watts,
  is_locked_write, reduce_set_preset, set_profile, set_spl, snapshot_of, restore_defaults, plugged,
  gate, reduce_restore_defaults, reduce_set_spl, ac_power_changed, reduce_set_profile, output,
  ReducerOutput, reduce,
}
use hpd_handheld_power_daemo.Tests.Data.{limits, on_battery, on_ac, while_plugged, target_20w}

abbrev pub after_profile : ReducerOutput
after_profile = record {
  new_state = record on_battery { active_profile = ProfileName.performance };
  effects =
      Effect.apply_platform_profile ProfileName.performance
      ∷ Effect.apply_power_envelope on_battery.power_target
      ∷ Effect.persist_state
      ∷ [];
}

profile_written :
    reduce on_battery (Transition.set_profile ProfileName.performance) limits default_config
    ≡ ok after_profile
unfolding reduce reduce_set_profile gate set_profile is_locked_write profile_beq
profile_written = refl

run-reduce_example :
    run (described on_battery) after_profile.effects ≡ described after_profile.new_state
run-reduce_example =
    run-reduce limits default_config on_battery (Transition.set_profile ProfileName.performance)
      {o = after_profile} refl profile_written

limits-IsWellFormed : IsWellFormed limits
limits-IsWellFormed = ground arith

on_battery-IsBounded : IsBounded on_battery limits
on_battery-IsBounded = ground arith

abbrev after_spl : ReducerOutput
after_spl = record {
  new_state = record on_battery { power_target = target_20w };
  effects = Effect.apply_power_envelope target_20w ∷ Effect.persist_state ∷ [];
}

spl_written : reduce on_battery (Transition.set_spl 20) limits default_config ≡ ok after_spl
unfolding reduce reduce_set_spl gate set_spl is_locked_write from_watts derive_boosted_envelope
    validate_power_envelope apply_power_target target_beq default_config to_u32 mul of_u32
spl_written = refl

reduce-IsBounded_example : IsBounded after_spl.new_state limits
reduce-IsBounded_example =
    reduce-IsBounded on_battery (Transition.set_spl 20) limits default_config {o = after_spl}
      limits-IsWellFormed tt on_battery-IsBounded spl_written

after-plugged-IsPinned_example :
    IsPinned limits default_config
      (some (snapshot_of on_battery))
      (after limits default_config on_battery (Transition.ac_power_changed true ∷ while_plugged))
after-plugged-IsPinned_example =
    after-plugged-IsPinned limits default_config on_battery while_plugged refl refl refl

plug-unplug_example :
    let s' = after limits default_config on_battery (
      Transition.ac_power_changed true
      ∷ (while_plugged ++ Transition.ac_power_changed false ∷ [])) in
    (s'.power_target ≡ on_battery.power_target)
    × (s'.active_profile ≡ on_battery.active_profile)
    × (s'.active_fan_curve ≡ none)
    × (s'.fan_follows_tdp ≡ false)
    × (s'.active_gpu_clock ≡ none)
    × (s'.gpu_follows_tdp ≡ false)
    × (s'.is_ac_connected ≡ false)
    × (s'.ac_max_performance ≡ true)
    × (s'.last_dc_state ≡ none)
plug-unplug_example = plug-unplug limits default_config on_battery while_plugged refl refl refl

reduce-locked_write_example :
    reduce on_ac (Transition.set_spl 20) limits default_config ≡ ok (output on_ac [])
reduce-locked_write_example =
    reduce-locked_write on_ac (LeverWrite.set_spl 20) limits default_config refl refl

abbrev unlocked : ProfileState
unlocked = record on_battery { ac_max_performance = false }

abbrev after_plug : ReducerOutput
after_plug = output (record unlocked { is_ac_connected = true }) []

plug_unlocked :
    reduce unlocked (Transition.ac_power_changed true) limits default_config ≡ ok after_plug
unfolding reduce ac_power_changed plugged
plug_unlocked = refl

on_disk-reduce_example : on_disk after_plug.new_state ≡ on_disk unlocked
on_disk-reduce_example =
    on_disk-reduce limits default_config unlocked (Transition.ac_power_changed true)
      {o = after_plug} refl plug_unlocked refl

abbrev defaults_target : PowerEnvelopeTarget
defaults_target = record { spl = 21000; sppt = 24150; fppt = some 26250 }

abbrev default_curve : FanCurveSelection
default_curve = FanCurveSelection.preset FanCurvePreset.balanced

abbrev after_defaults : ReducerOutput
after_defaults = record {
  new_state = record on_battery {
    power_target = defaults_target;
    active_profile = ProfileName.performance;
    fan_follows_tdp = true;
    active_fan_curve = some default_curve;
  };
  effects =
      Effect.apply_power_envelope defaults_target
      ∷ Effect.apply_platform_profile ProfileName.performance
      ∷ Effect.apply_power_envelope defaults_target
      ∷ Effect.apply_fan_curve default_curve
      ∷ Effect.persist_state
      ∷ [];
}

defaults_restored :
    reduce on_battery Transition.restore_defaults limits default_config ≡ ok after_defaults
unfolding reduce reduce_restore_defaults restore_defaults reduce_set_preset preset_watts
    reduce_set_spl gate set_spl is_locked_write from_watts derive_boosted_envelope
    validate_power_envelope apply_power_target target_beq default_config to_u32 mul of_u32
    reduce_set_profile set_profile profile_beq charge_threshold_changed reduce_enable_fan_auto
    enable_fan_auto infer_fan_curve_from_spl div lt reset_managed_clock collapse_persist
    without_persist
defaults_restored = refl

restore_defaults-IsDefault_example : IsDefault limits default_config after_defaults.new_state
restore_defaults-IsDefault_example =
    restore_defaults-IsDefault limits default_config on_battery {o = after_defaults} refl
      defaults_restored

restore_defaults_twice_example :
    reduce after_defaults.new_state Transition.restore_defaults limits default_config
    ≡ ok (output after_defaults.new_state [])
restore_defaults_twice_example =
    restore_defaults_twice limits default_config on_battery {o = after_defaults} defaults_restored

reduce-AreSafe_example : All (IsSafe limits) after_spl.effects
reduce-AreSafe_example =
    reduce-AreSafe limits default_config on_battery (Transition.set_spl 20) {o = after_spl}
      limits-IsWellFormed on_battery-IsBounded spl_written
