-- ===== src/Core/Reducer/Levers.antt =====
-- hpd-core/src/reducer.rs: the arms of the other levers (profile, fan curve, GPU clock, charge
-- threshold), the rollbacks, and the `reassert_*` helpers.
use hpd_handheld_power_daemo.Prelude.{
  ℕ, Bool, true, false, not, ◌||◌, Option, none, some, [], ◌∷◌, ◌!=◌, nat_eq, option_eq,
  if◌then◌else◌, ok,
}
use hpd_handheld_power_daemo.Capability.Power.{PowerEnvelopeLimits, PowerEnvelopeTarget, target_eq}
use hpd_handheld_power_daemo.Capability.Profile.{ProfileName, RuntimeConfig, profile_eq}
use hpd_handheld_power_daemo.Capability.FanCurve.{
  FanCurve, FanCurvePreset, FanCurveSelection, selection_eq,
}
use hpd_handheld_power_daemo.Capability.GpuClock.{GpuClockRange, GpuClockSelection, clock_eq}
use hpd_handheld_power_daemo.Core.State.{ProfileState}
use hpd_handheld_power_daemo.Core.Transition.{Transition}
use hpd_handheld_power_daemo.Core.Effect.{Effect}
use hpd_handheld_power_daemo.Core.Inference.{infer_fan_curve_from_spl}
use hpd_handheld_power_daemo.Core.Reducer.Output.{ReducerOutput, Reduced, output, push, gate}

abbrev pub reassert_envelope_after_profile : ReducerOutput → ReducerOutput
reassert_envelope_after_profile o = push o (Effect.apply_power_envelope o.new_state.power_target)

-- The fan curve is written again where the daemon manages it.
abbrev pub push_curve : Option FanCurveSelection → ReducerOutput → ReducerOutput
push_curve none o = o
push_curve (some selection) o = push o (Effect.apply_fan_curve selection)

abbrev pub reassert_curve_after_profile : ReducerOutput → ReducerOutput
reassert_curve_after_profile o = push_curve o.new_state.active_fan_curve o

unfoldable pub set_profile : ProfileState → ProfileName → ReducerOutput
set_profile s p =
    let o = output (record s { active_profile = p }) (Effect.apply_platform_profile p ∷ []) in
    if s.active_profile != p
    then push (reassert_curve_after_profile (reassert_envelope_after_profile o))
        Effect.persist_state
    else output s []

unfoldable pub reduce_set_profile : ProfileState → ProfileName → Reduced
reduce_set_profile s p = gate s (Transition.set_profile p) (ok (set_profile s p))

-- Manual cooling: `SetCoolingLevel` and `SetCustomFanCurve` set the selection in the same way.
unfoldable pub set_manual_curve : ProfileState → FanCurveSelection → ReducerOutput
set_manual_curve s selection =
    output (record s { fan_follows_tdp = false; active_fan_curve = some selection })
      (Effect.apply_fan_curve selection ∷ Effect.persist_state ∷ [])

unfoldable pub reduce_set_cooling_level : ProfileState → FanCurvePreset → Reduced
reduce_set_cooling_level s p =
    gate s (Transition.set_cooling_level p) (ok (set_manual_curve s (FanCurveSelection.preset p)))

unfoldable pub reduce_set_custom_fan_curve : ProfileState → FanCurve → FanCurve → Reduced
reduce_set_custom_fan_curve s cpu gpu =
    gate s (Transition.set_custom_fan_curve cpu gpu)
      (ok (set_manual_curve s (FanCurveSelection.custom cpu gpu)))

unfoldable pub enable_gpu_auto_follow :
    ProfileState → PowerEnvelopeLimits → RuntimeConfig → ReducerOutput
enable_gpu_auto_follow s limits config =
    let tier = infer_fan_curve_from_spl s.power_target limits config.profile_thresholds in
    if not s.gpu_follows_tdp
    then output
        (record s {
          gpu_follows_tdp = true;
          active_gpu_clock = some (GpuClockSelection.preset tier);
        })
        (Effect.apply_gpu_clock_range tier ∷ Effect.persist_state ∷ [])
    else output s []

unfoldable pub reduce_enable_gpu_auto_follow :
    ProfileState → PowerEnvelopeLimits → RuntimeConfig → Reduced
reduce_enable_gpu_auto_follow s limits config =
    gate s Transition.enable_gpu_auto_follow (ok (enable_gpu_auto_follow s limits config))

-- `Option::is_some`
abbrev pub is_some {ℓ} : {A : Type ℓ} → Option A → Bool
is_some none = false
is_some (some _) = true

unfoldable pub reset_gpu_clocks : ProfileState → ReducerOutput
reset_gpu_clocks s =
    if is_some s.active_gpu_clock
    then output (record s { active_gpu_clock = none; gpu_follows_tdp = false })
        (Effect.reset_gpu_clocks ∷ Effect.persist_state ∷ [])
    else output s []

unfoldable pub reduce_reset_gpu_clocks : ProfileState → Reduced
reduce_reset_gpu_clocks s = gate s Transition.reset_gpu_clocks (ok (reset_gpu_clocks s))

unfoldable pub charge_threshold_changed : ProfileState → ℕ → ReducerOutput
charge_threshold_changed s threshold =
    if s.charge_end_threshold != threshold
    then output (record s { charge_end_threshold = threshold })
        (Effect.apply_charge_threshold threshold ∷ Effect.persist_state ∷ [])
    else output s []

unfoldable pub sync_power_target : ProfileState → PowerEnvelopeTarget → ReducerOutput
sync_power_target s real = output (record s { power_target = real }) []

unfoldable pub sync_platform_profile : ProfileState → ProfileName → ReducerOutput
sync_platform_profile s real = output (record s { active_profile = real }) []

unfoldable pub sync_charge_threshold : ProfileState → ℕ → ReducerOutput
sync_charge_threshold s real = output (record s { charge_end_threshold = real }) []

unfoldable pub sync_fan_curve : ProfileState → Option FanCurveSelection → ReducerOutput
sync_fan_curve s real = output (record s { active_fan_curve = real }) []

-- `real_range.map(GpuClockSelection::Unmanaged)`
abbrev pub unmanaged : Option GpuClockRange → Option GpuClockSelection
unmanaged none = none
unmanaged (some r) = some (GpuClockSelection.unmanaged r)

unfoldable pub sync_gpu_clock_range : ProfileState → Option GpuClockRange → ReducerOutput
sync_gpu_clock_range s real = output (record s { active_gpu_clock = unmanaged real }) []

unfoldable pub reset_fan_curve : ProfileState → ReducerOutput
reset_fan_curve s =
    if is_some s.active_fan_curve || s.fan_follows_tdp
    then output (record s { active_fan_curve = none; fan_follows_tdp = false })
        (Effect.reset_fan_curve ∷ Effect.persist_state ∷ [])
    else output s []

unfoldable pub reduce_reset_fan_curve : ProfileState → Reduced
reduce_reset_fan_curve s = gate s Transition.reset_fan_curve (ok (reset_fan_curve s))

unfoldable pub enable_fan_auto : ProfileState → PowerEnvelopeLimits → RuntimeConfig → ReducerOutput
enable_fan_auto s limits config =
    let tier = infer_fan_curve_from_spl s.power_target limits config.profile_thresholds in
    let selection = FanCurveSelection.preset tier in
    if not s.fan_follows_tdp
    then output (record s { fan_follows_tdp = true; active_fan_curve = some selection })
        (Effect.apply_fan_curve selection ∷ Effect.persist_state ∷ [])
    else output s []

unfoldable pub reduce_enable_fan_auto : ProfileState → PowerEnvelopeLimits → RuntimeConfig → Reduced
reduce_enable_fan_auto s limits config =
    gate s Transition.enable_fan_auto (ok (enable_fan_auto s limits config))
