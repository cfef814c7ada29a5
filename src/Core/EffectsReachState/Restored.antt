-- ===== src/Core/EffectsReachState/Restored.antt =====
-- The effects of `restore_dc_state`, run on the embedded controller (hpd-core/src/reducer.rs).
use hpd_handheld_power_daemo.Core.EffectsReachState.Writes.{Reaches-persist, Reaches}
use hpd_handheld_power_daemo.Prelude.{
  refl, some, ◌!=◌, Option, ◌≡◌, Bool, [], ◌∷◌, none, arith, if◌then◌else◌, option_beq_iff,
}
use hpd_handheld_power_daemo.Core.Reducer.{
  output, restore_dc_state, ReducerOutput, curve_effect, restore_profile, restore_envelope,
  restore_curve, restore_gpu_clock, restore_tier, update,
}
use hpd_handheld_power_daemo.Core.EmbeddedController.{Controller, run, run-append, described}
use hpd_handheld_power_daemo.Core.Effect.{Effect}
use hpd_handheld_power_daemo.Core.State.{ProfileState, DcSnapshot}
use hpd_handheld_power_daemo.Capability.GpuClock.{GpuClockSelection}
use hpd_handheld_power_daemo.Capability.Power.{target_eq}
use hpd_handheld_power_daemo.Capability.Profile.{profile_eq}
use hpd_handheld_power_daemo.Capability.FanCurve.{selection_eq}

-- The device while `restore_dc_state` runs: a profile write has dropped what is not yet rewritten.
abbrev curve_dropped : Bool → Controller → Controller
curve_dropped changed c = if changed then record c { curve = none } else c

abbrev both_dropped : Bool → Controller → Controller
both_dropped changed c = if changed then record c { envelope = none; curve = none } else c

module _ (c : Controller) (snap : DcSnapshot) (o : ReducerOutput) where
  restore_profile-drops :
      (changed : Bool)
      → Reaches c o
      → run c (restore_profile changed snap o).effects
        ≡ both_dropped changed (described (restore_profile changed snap o).new_state)
  unfolding restore_profile described run
  restore_profile-drops changed h =
      ground
        (arith, run-append c o.effects (Effect.apply_platform_profile snap.active_profile ∷ []))

  restore_envelope-drops :
      (changed : Bool)
      → run c o.effects ≡ both_dropped changed (described o.new_state)
      → run c (restore_envelope changed snap o).effects
        ≡ curve_dropped changed (described (restore_envelope changed snap o).new_state)
  unfolding restore_envelope described run
  restore_envelope-drops changed h =
      ground (arith, run-append c o.effects (Effect.apply_power_envelope snap.power_target ∷ []))

  restore_curve-Reaches :
      (changed : Bool)
      → run c o.effects ≡ curve_dropped changed (described o.new_state)
      → Reaches c (restore_curve changed snap o)
  unfolding restore_curve described run
  restore_curve-Reaches changed h = ground (
    arith,
    option_beq_iff o.new_state.active_fan_curve snap.active_fan_curve,
    run-append c o.effects (curve_effect snap.active_fan_curve ∷ []),
  )

  restore_tier-Reaches :
      (clock : Option GpuClockSelection) → Reaches c o → Reaches c (restore_tier clock o)
  unfolding restore_tier described run
  restore_tier-Reaches (some (GpuClockSelection.preset t)) h =
      ground (arith, run-append c o.effects (Effect.apply_gpu_clock_range t ∷ []))
  restore_tier-Reaches clock h =
      ground (arith, run-append c o.effects (Effect.reset_gpu_clocks ∷ []))

  restore_gpu_clock-Reaches : Reaches c o → Reaches c (restore_gpu_clock snap o)
  unfolding restore_gpu_clock
  restore_gpu_clock-Reaches h = ground (arith, restore_tier-Reaches snap.active_gpu_clock)

pub restore-Reaches :
    (s : ProfileState) (snap : DcSnapshot) → Reaches (described s) (restore_dc_state s snap)
unfolding restore_dc_state described run
restore-Reaches s snap =
    let c = described s in
    let changed = s.active_profile != snap.active_profile in
    let start = output (record s { last_dc_state = none }) [] in
    let profiled = restore_profile changed snap start in
    let powered = restore_envelope changed snap profiled in
    let curved = restore_curve changed snap powered in
    let fanned =
      update curved (record curved.new_state { fan_follows_tdp = snap.fan_follows_tdp }) in
    let clocked = restore_gpu_clock snap fanned in
    Reaches-persist c
      (update clocked (record clocked.new_state { gpu_follows_tdp = snap.gpu_follows_tdp }))
      (restore_gpu_clock-Reaches c snap fanned (
        restore_curve-Reaches c snap powered changed (
          restore_envelope-drops c snap profiled changed
            (restore_profile-drops c snap start changed refl))))
