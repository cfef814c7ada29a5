-- ===== src/Core/Reducer/AcLock.antt =====
-- hpd-core/src/reducer.rs: the policy "maximum performance on AC": `force_ac_max_performance`,
-- `restore_dc_state`, and the arms `AcPowerChanged`, `SystemResumed` and `SetAcMaxPerformance`.
use hpd_handheld_power_daemo.Prelude.{
  Bool, true, false, ◌&&◌, ◌||◌, Option, none, some, [], ◌∷◌, ◌==◌, ◌!=◌, bool_eq, option_eq,
  if◌then◌else◌, ok, ◌>>=◌,
}
use hpd_handheld_power_daemo.Capability.Power.{PowerEnvelopeLimits, target_eq}
use hpd_handheld_power_daemo.Capability.Profile.{ProfileName, TdpPreset, RuntimeConfig, profile_eq}
use hpd_handheld_power_daemo.Capability.FanCurve.{FanCurvePreset, FanCurveSelection, selection_eq}
use hpd_handheld_power_daemo.Capability.GpuClock.{GpuClockSelection, clock_eq}
use hpd_handheld_power_daemo.Core.State.{ProfileState, DcSnapshot}
use hpd_handheld_power_daemo.Core.Effect.{Effect}
use hpd_handheld_power_daemo.Core.Reducer.Output.{ReducerOutput, Reduced, output, push, update}
use hpd_handheld_power_daemo.Core.Reducer.PowerEnvelope.{derive_boosted_envelope}
use hpd_handheld_power_daemo.Core.Reducer.PowerEnvelope.{reduce_set_preset}
use hpd_handheld_power_daemo.Core.Reducer.Levers.{push_curve, is_some}

-- The snapshot literal of `AcPowerChanged` and `SetAcMaxPerformance`.
abbrev pub snapshot_of : ProfileState → DcSnapshot
snapshot_of s = record {
  power_target = s.power_target;
  active_profile = s.active_profile;
  active_fan_curve = s.active_fan_curve;
  fan_follows_tdp = s.fan_follows_tdp;
  active_gpu_clock = s.active_gpu_clock;
  gpu_follows_tdp = s.gpu_follows_tdp;
}

abbrev pub aggressive_curve : FanCurveSelection
aggressive_curve = FanCurveSelection.preset FanCurvePreset.aggressive

-- The GPU clock is pinned only where it was managed before.
unfoldable pub pin_gpu_clock : Option GpuClockSelection → ReducerOutput → ReducerOutput
pin_gpu_clock none o = o
pin_gpu_clock (some _) o =
    push
      (update o (record o.new_state {
        active_gpu_clock = some (GpuClockSelection.preset FanCurvePreset.aggressive);
        gpu_follows_tdp = false;
      }))
      (Effect.apply_gpu_clock_range FanCurvePreset.aggressive)

unfoldable pub force_ac_max_performance :
    ProfileState → PowerEnvelopeLimits → RuntimeConfig → ReducerOutput
force_ac_max_performance base limits config =
    let target = derive_boosted_envelope limits.spl_max limits config in
    pin_gpu_clock base.active_gpu_clock (
      output
        (record base {
          power_target = target;
          active_profile = ProfileName.performance;
          active_fan_curve = some aggressive_curve;
          fan_follows_tdp = false;
        })
        (Effect.apply_platform_profile ProfileName.performance
          ∷ Effect.apply_power_envelope target
          ∷ Effect.apply_fan_curve aggressive_curve
          ∷ []))

-- The steps of `restore_dc_state`, one for each rail; `changed` is `profile_changed`.
unfoldable pub restore_profile : Bool → DcSnapshot → ReducerOutput → ReducerOutput
restore_profile changed snap o =
    if changed
    then push (update o (record o.new_state { active_profile = snap.active_profile }))
        (Effect.apply_platform_profile snap.active_profile)
    else o

unfoldable pub restore_envelope : Bool → DcSnapshot → ReducerOutput → ReducerOutput
restore_envelope changed snap o =
    if changed || o.new_state.power_target != snap.power_target
    then push (update o (record o.new_state { power_target = snap.power_target }))
        (Effect.apply_power_envelope snap.power_target)
    else o

abbrev pub curve_effect : Option FanCurveSelection → Effect
curve_effect (some selection) = Effect.apply_fan_curve selection
curve_effect none = Effect.reset_fan_curve

unfoldable pub restore_curve : Bool → DcSnapshot → ReducerOutput → ReducerOutput
restore_curve changed snap o =
    if o.new_state.active_fan_curve != snap.active_fan_curve
    then push (update o (record o.new_state { active_fan_curve = snap.active_fan_curve }))
        (curve_effect snap.active_fan_curve)
    else if changed
    then push_curve snap.active_fan_curve o
    else o

-- A snapshot with no tier hands the clock back to the firmware.
unfoldable pub restore_tier : Option GpuClockSelection → ReducerOutput → ReducerOutput
restore_tier (some (GpuClockSelection.preset tier)) o =
    push (update o (record o.new_state { active_gpu_clock = some (GpuClockSelection.preset tier) }))
      (Effect.apply_gpu_clock_range tier)
restore_tier _ o =
    push (update o (record o.new_state { active_gpu_clock = none })) Effect.reset_gpu_clocks

unfoldable pub restore_gpu_clock : DcSnapshot → ReducerOutput → ReducerOutput
restore_gpu_clock snap o =
    if o.new_state.active_gpu_clock != snap.active_gpu_clock
    then restore_tier snap.active_gpu_clock o
    else o

unfoldable pub restore_dc_state : ProfileState → DcSnapshot → ReducerOutput
restore_dc_state current snap =
    let changed = current.active_profile != snap.active_profile in
    let start = output (record current { last_dc_state = none }) [] in
    let profiled = restore_profile changed snap start in
    let powered = restore_envelope changed snap profiled in
    let curved = restore_curve changed snap powered in
    let fanned =
      update curved (record curved.new_state { fan_follows_tdp = snap.fan_follows_tdp }) in
    let clocked = restore_gpu_clock snap fanned in
    push (update clocked (record clocked.new_state { gpu_follows_tdp = snap.gpu_follows_tdp }))
      Effect.persist_state

-- The battery→AC edge.
unfoldable pub plugged : ProfileState → PowerEnvelopeLimits → RuntimeConfig → ReducerOutput
plugged s limits config =
    let o = force_ac_max_performance s limits config in
    if s.ac_max_performance
    then push (update o (record o.new_state { last_dc_state = some (snapshot_of s) }))
        Effect.persist_state
    else output s []

-- The AC→battery edge, by the saved snapshot.
unfoldable pub unplugged :
    Option DcSnapshot → ProfileState → PowerEnvelopeLimits → RuntimeConfig → Reduced
unplugged (some snap) s limits config = ok (restore_dc_state s snap)
unplugged none s limits config =
    if s.ac_max_performance
    then reduce_set_preset (record s { is_ac_connected = false; fan_follows_tdp = true })
        TdpPreset.balanced limits config
    else ok (output s [])

-- `output.new_state.is_ac_connected = is_plugged`
abbrev pub set_connected : Bool → ReducerOutput → ReducerOutput
set_connected is_plugged o = update o (record o.new_state { is_ac_connected = is_plugged })

unfoldable pub ac_power_changed :
    ProfileState → Bool → PowerEnvelopeLimits → RuntimeConfig → Reduced
ac_power_changed s is_plugged limits config =
    if s.is_ac_connected == is_plugged then ok (output s []) else do
      o ←
          (if is_plugged
            then ok (plugged s limits config)
            else unplugged s.last_dc_state s limits config)
      ok (set_connected is_plugged o)

-- Resume in battery mode with no snapshot: every lever is written again, the profile first.
unfoldable pub reassert_clock : Option GpuClockSelection → ReducerOutput → ReducerOutput
reassert_clock none o = o
reassert_clock (some (GpuClockSelection.preset tier)) o =
    push (push o Effect.reset_gpu_clocks) (Effect.apply_gpu_clock_range tier)
reassert_clock (some (GpuClockSelection.unmanaged _)) o =
    push (update o (record o.new_state { active_gpu_clock = none })) Effect.reset_gpu_clocks

unfoldable pub reassert_all : ProfileState → ReducerOutput
reassert_all s = reassert_clock s.active_gpu_clock (
    push_curve s.active_fan_curve (
      output s (
        Effect.apply_platform_profile s.active_profile
        ∷ Effect.apply_power_envelope s.power_target
        ∷ Effect.apply_charge_threshold s.charge_end_threshold
        ∷ [])))

unfoldable pub resumed_on_battery : Option DcSnapshot → ProfileState → ReducerOutput
resumed_on_battery (some snap) s =
    push (restore_dc_state s snap) (Effect.apply_charge_threshold s.charge_end_threshold)
resumed_on_battery none s = reassert_all s

unfoldable pub system_resumed : ProfileState → PowerEnvelopeLimits → RuntimeConfig → ReducerOutput
system_resumed s limits config =
    if s.is_ac_connected && s.ac_max_performance
    then push
        (push (force_ac_max_performance s limits config)
          (Effect.apply_charge_threshold s.charge_end_threshold))
        Effect.persist_state
    else resumed_on_battery s.last_dc_state s

-- The lock is switched on while plugged: the snapshot is taken where there is none.
unfoldable pub lock_while_plugged :
    ProfileState → PowerEnvelopeLimits → RuntimeConfig → ReducerOutput
lock_while_plugged s limits config =
    let o = force_ac_max_performance s limits config in
    let dc =
      if is_some o.new_state.last_dc_state
      then o.new_state.last_dc_state
      else some (snapshot_of s) in
    push (update o (record o.new_state { ac_max_performance = true; last_dc_state = dc }))
      Effect.persist_state

unfoldable pub unlock_while_plugged : Option DcSnapshot → ProfileState → ReducerOutput
unlock_while_plugged (some snap) s = restore_dc_state s snap
unlock_while_plugged none s = output s (Effect.persist_state ∷ [])

unfoldable pub set_ac_max_performance :
    ProfileState → Bool → PowerEnvelopeLimits → RuntimeConfig → ReducerOutput
set_ac_max_performance s enabled limits config =
    if s.ac_max_performance == enabled
    then output s []
    else if s.is_ac_connected
    then (if enabled
        then lock_while_plugged s limits config
        else (let o = unlock_while_plugged s.last_dc_state s in
            update o (record o.new_state { ac_max_performance = false })))
    else output (record s { ac_max_performance = enabled }) (Effect.persist_state ∷ [])
