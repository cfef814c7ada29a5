-- ===== src/Core/RestoredState.antt =====
-- The state that `restore_dc_state` of hpd-core/src/reducer.rs leaves.
use hpd_handheld_power_daemo.Prelude.{
  [], ◌≡◌, Bool, Option, none, some, ◌!=◌, ◌==◌, option_eq, option_beq_iff, arith, if◌then◌else◌,
}
use hpd_handheld_power_daemo.Capability.Power.{target_beq_iff, target_eq}
use hpd_handheld_power_daemo.Capability.Profile.{profile_beq_iff, profile_eq}
use hpd_handheld_power_daemo.Capability.FanCurve.{selection_eq}
use hpd_handheld_power_daemo.Capability.GpuClock.{GpuClockSelection, clock_eq}
use hpd_handheld_power_daemo.Core.State.{ProfileState, DcSnapshot}
use hpd_handheld_power_daemo.Core.Reducer.{
  ReducerOutput, restore_dc_state, restore_profile, restore_envelope, restore_curve,
  restore_gpu_clock, restore_tier, output,
}

-- A clock selection that is no tier is not restored.
abbrev pub tier_only : Option GpuClockSelection → Option GpuClockSelection
tier_only (some (GpuClockSelection.preset tier)) = some (GpuClockSelection.preset tier)
tier_only _ = none

abbrev pub restored_clock :
    Option GpuClockSelection → Option GpuClockSelection → Option GpuClockSelection
restored_clock current saved = if current == saved then saved else tier_only saved

-- `s` with the levers of a snapshot, which is used up.
abbrev pub with_snapshot : ProfileState → DcSnapshot → ProfileState
with_snapshot s snap = record s {
  power_target = snap.power_target;
  active_profile = snap.active_profile;
  fan_follows_tdp = snap.fan_follows_tdp;
  last_dc_state = none;
  active_fan_curve = snap.active_fan_curve;
  active_gpu_clock = restored_clock s.active_gpu_clock snap.active_gpu_clock;
  gpu_follows_tdp = snap.gpu_follows_tdp;
}

module _ (snap : DcSnapshot) (o : ReducerOutput) where
  restore_profile-state :
      (restore_profile (o.new_state.active_profile != snap.active_profile) snap o).new_state
      ≡ record o.new_state { active_profile = snap.active_profile }
  unfolding restore_profile
  restore_profile-state =
      ground (arith, profile_beq_iff o.new_state.active_profile snap.active_profile)

  restore_envelope-state :
      (changed : Bool)
      → (restore_envelope changed snap o).new_state
        ≡ record o.new_state { power_target = snap.power_target }
  unfolding restore_envelope
  restore_envelope-state changed =
      ground (arith, target_beq_iff o.new_state.power_target snap.power_target)

  restore_curve-state :
      (changed : Bool)
      → (restore_curve changed snap o).new_state
        ≡ record o.new_state { active_fan_curve = snap.active_fan_curve }
  unfolding restore_curve
  restore_curve-state changed =
      ground (arith, option_beq_iff o.new_state.active_fan_curve snap.active_fan_curve)

  restore_gpu_clock-state : (restore_gpu_clock snap o).new_state ≡ record o.new_state {
    active_gpu_clock = restored_clock o.new_state.active_gpu_clock snap.active_gpu_clock;
  }
  unfolding restore_gpu_clock restore_tier
  restore_gpu_clock-state =
      ground (arith, option_beq_iff o.new_state.active_gpu_clock snap.active_gpu_clock)

-- The levers are those of the snapshot, and the rest of the state is kept.
pub restore_dc_state-new_state :
    (s : ProfileState) (snap : DcSnapshot)
    → (restore_dc_state s snap).new_state ≡ with_snapshot s snap
unfolding restore_dc_state
restore_dc_state-new_state s snap = simp (
  restore_gpu_clock-state,
  restore_curve-state,
  restore_envelope-state,
  restore_profile-state snap (output (record s { last_dc_state = none }) []),
)
