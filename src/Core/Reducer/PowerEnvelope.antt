-- ===== src/Core/Reducer/PowerEnvelope.antt =====
-- hpd-core/src/reducer.rs: the arms `SetPreset`, `SetSpl` and `SetEnvelope`, `apply_power_target`
-- and `derive_boosted_envelope`.
use hpd_handheld_power_daemo.Prelude.{
  ℕ, ◌+◌, ◌-◌, ◌/◌, min, max, Bool, ◌||◌, some, [], ◌∷◌, ◌!=◌, nat_eq, option_eq, ltb, leb,
  if◌then◌else◌, ok, err, ◌>>=◌, ◌>>◌,
}
use hpd_handheld_power_daemo.Error.{invariant_violation, spl_watts_out_of_range}
use hpd_handheld_power_daemo.Float.{of_u32, mul, round, to_u32}
use hpd_handheld_power_daemo.Capability.Units.{PowerMilliwatts, from_watts, as_watts, u32_max}
use hpd_handheld_power_daemo.Capability.Power.{PowerEnvelopeLimits, PowerEnvelopeTarget, target_eq}
use hpd_handheld_power_daemo.Capability.Profile.{TdpPreset, RuntimeConfig, profile_eq}
use hpd_handheld_power_daemo.Capability.FanCurve.{FanCurvePreset, FanCurveSelection, selection_eq}
use hpd_handheld_power_daemo.Capability.GpuClock.{GpuClockSelection, clock_eq}
use hpd_handheld_power_daemo.Core.State.{ProfileState}
use hpd_handheld_power_daemo.Core.Transition.{Transition}
use hpd_handheld_power_daemo.Core.Effect.{Effect}
use hpd_handheld_power_daemo.Core.Invariants.{validate_power_envelope}
use hpd_handheld_power_daemo.Core.Inference.{infer_fan_curve_from_spl}
use hpd_handheld_power_daemo.Core.Reducer.Output.{
  ReducerOutput, Reduced, output, push, update, gate,
}

-- `u32::saturating_add`
abbrev pub saturating_add : ℕ → ℕ → ℕ
saturating_add a b = min (a + b) u32_max

-- `target_watts` of `SetPreset`
unfoldable pub preset_watts : TdpPreset → PowerEnvelopeLimits → RuntimeConfig → ℕ
preset_watts TdpPreset.eco limits config = as_watts limits.spl_min
preset_watts TdpPreset.efficiency limits config =
    let min_w = as_watts limits.spl_min in
    let range = of_u32 (as_watts limits.spl_max - min_w) in
    saturating_add min_w (to_u32 (round (mul range config.efficiency_frac)))
preset_watts TdpPreset.balanced limits config =
    saturating_add (as_watts limits.spl_min) (as_watts limits.spl_max) / 2
preset_watts TdpPreset.max limits config = as_watts limits.spl_max

-- A boost rail before its floors: `raw` is the product with its factor.
abbrev pub boosted : Bool → ℕ → PowerMilliwatts → PowerMilliwatts
boosted at_ceiling raw rail_max = if at_ceiling then rail_max else min raw rail_max

unfoldable pub derive_boosted_envelope :
    PowerMilliwatts → PowerEnvelopeLimits → RuntimeConfig → PowerEnvelopeTarget
derive_boosted_envelope spl limits config =
    let at_ceiling = leb limits.spl_max spl in
    let sppt_raw =
      boosted at_ceiling (to_u32 (mul (of_u32 spl) config.sppt_factor)) limits.sppt_max in
    let sppt = max (max sppt_raw spl) limits.sppt_min in
    let fppt_raw =
      boosted at_ceiling (to_u32 (mul (of_u32 spl) config.fppt_factor)) limits.fppt_max in
    let fppt = max (max fppt_raw sppt) limits.fppt_min in
    record { spl = spl; sppt = sppt; fppt = some fppt }

-- The fan curve follows the inferred tier, if it is not there already.
unfoldable pub follow_fan : FanCurvePreset → ReducerOutput → ReducerOutput
follow_fan tier o =
    let selection = FanCurveSelection.preset tier in
    if o.new_state.active_fan_curve != some selection
    then push (update o (record o.new_state { active_fan_curve = some selection }))
        (Effect.apply_fan_curve selection)
    else o

-- The GPU clock follows the inferred tier, if it is not there already.
unfoldable pub follow_gpu : FanCurvePreset → ReducerOutput → ReducerOutput
follow_gpu tier o =
    let selection = GpuClockSelection.preset tier in
    if o.new_state.active_gpu_clock != some selection
    then push (update o (record o.new_state { active_gpu_clock = some selection }))
        (Effect.apply_gpu_clock_range tier)
    else o

-- The part of `apply_power_target` under `fan_follows_tdp || gpu_follows_tdp`.
unfoldable pub follow_tier : FanCurvePreset → ReducerOutput → ReducerOutput
follow_tier tier o =
    let fanned = if o.new_state.fan_follows_tdp then follow_fan tier o else o in
    if fanned.new_state.gpu_follows_tdp then follow_gpu tier fanned else fanned

unfoldable pub apply_power_target :
    ProfileState → PowerEnvelopeTarget → PowerEnvelopeLimits → RuntimeConfig → ReducerOutput
apply_power_target s target limits config =
    let o = output (record s { power_target = target }) (Effect.apply_power_envelope target ∷ []) in
    let tier = infer_fan_curve_from_spl target limits config.profile_thresholds in
    if s.power_target != target
    then push (if s.fan_follows_tdp || s.gpu_follows_tdp then follow_tier tier o else o)
        Effect.persist_state
    else output s []

unfoldable pub set_spl : ProfileState → ℕ → PowerEnvelopeLimits → RuntimeConfig → Reduced
set_spl s watts limits config = do
  spl ← from_watts watts
  if ltb spl limits.spl_min || ltb limits.spl_max spl
      then err (invariant_violation (spl_watts_out_of_range watts))
      else do
        let target = derive_boosted_envelope spl limits config
        validate_power_envelope target limits
        ok (apply_power_target s target limits config)

unfoldable pub reduce_set_spl : ProfileState → ℕ → PowerEnvelopeLimits → RuntimeConfig → Reduced
reduce_set_spl s watts limits config =
    gate s (Transition.set_spl watts) (set_spl s watts limits config)

unfoldable pub reduce_set_preset :
    ProfileState → TdpPreset → PowerEnvelopeLimits → RuntimeConfig → Reduced
reduce_set_preset s p limits config =
    gate s (Transition.set_preset p) (reduce_set_spl s (preset_watts p limits config) limits config)

unfoldable pub set_envelope :
    ProfileState → PowerEnvelopeTarget → PowerEnvelopeLimits → RuntimeConfig → Reduced
set_envelope s target limits config = do
  validate_power_envelope target limits
  ok (apply_power_target s target limits config)

unfoldable pub reduce_set_envelope :
    ProfileState → PowerEnvelopeTarget → PowerEnvelopeLimits → RuntimeConfig → Reduced
reduce_set_envelope s target limits config =
    gate s (Transition.set_envelope target) (set_envelope s target limits config)
