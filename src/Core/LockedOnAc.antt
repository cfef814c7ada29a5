-- ===== src/Core/LockedOnAc.antt =====
-- "AC = maximum performance" (hpd-core/src/reducer.rs): the time on AC with the lock on, from the
-- plug to the unplug.
use hpd_handheld_power_daemo.Core.RestoredState.{
  restore_dc_state-new_state, tier_only, with_snapshot,
}
use hpd_handheld_power_daemo.Prelude.{
  ℕ, option_beq_iff, refl, all, ◌≡◌, Bool, true, false, ◌⊎◌, Option, none, some, List, [], ◌++◌,
  ◌∷◌, ok, err, arith,
}
use hpd_handheld_power_daemo.Capability.Power.{PowerEnvelopeTarget, PowerEnvelopeLimits}
use hpd_handheld_power_daemo.Capability.Profile.{TdpPreset, ProfileName, RuntimeConfig}
use hpd_handheld_power_daemo.Capability.FanCurve.{FanCurve, FanCurvePreset}
use hpd_handheld_power_daemo.Capability.GpuClock.{GpuClockSelection, clock_eq}
use hpd_handheld_power_daemo.Core.State.{ProfileState, DcSnapshot}
use hpd_handheld_power_daemo.Core.Transition.{Transition}
use hpd_handheld_power_daemo.Core.Reducer.{
  unplugged, ReducerOutput, Reduced, reduce, output, gate, snapshot_of, derive_boosted_envelope,
  aggressive_curve, set_connected, force_ac_max_performance, pin_gpu_clock, plugged,
  ac_power_changed, system_resumed, set_ac_max_performance, charge_threshold_changed,
  reduce_set_preset, reduce_set_spl, reduce_set_envelope, reduce_set_profile,
  reduce_set_cooling_level, reduce_set_custom_fan_curve, reduce_enable_gpu_auto_follow,
  reduce_reset_gpu_clocks, reduce_enable_fan_auto, reduce_reset_fan_curve, reduce_restore_defaults,
}

-- What the executor keeps of a transition: the new state, or the old one after an error.
unfoldable pub next_state : ProfileState → Reduced → ProfileState
next_state s (ok o) = o.new_state
next_state s (err e) = s

-- The state after a sequence of transitions.
unfoldable pub after :
    PowerEnvelopeLimits → RuntimeConfig → ProfileState → List Transition → ProfileState
unfolding next_state
after limits config s [] = s
after limits config s (t ∷ ts) = after limits config (next_state s (reduce s t limits config)) ts

-- What a user can ask for a power or cooling lever.
pub data LeverWrite : Type 0 where
  set_preset : TdpPreset → LeverWrite
  set_spl : ℕ → LeverWrite
  set_envelope : PowerEnvelopeTarget → LeverWrite
  set_profile : ProfileName → LeverWrite
  set_cooling_level : FanCurvePreset → LeverWrite
  set_custom_fan_curve : FanCurve → FanCurve → LeverWrite
  enable_fan_auto reset_fan_curve enable_gpu_auto_follow reset_gpu_clocks : LeverWrite
  restore_defaults : LeverWrite

abbrev pub transition_of : LeverWrite → Transition
transition_of (LeverWrite.set_preset p) = Transition.set_preset p
transition_of (LeverWrite.set_spl watts) = Transition.set_spl watts
transition_of (LeverWrite.set_envelope t) = Transition.set_envelope t
transition_of (LeverWrite.set_profile p) = Transition.set_profile p
transition_of (LeverWrite.set_cooling_level c) = Transition.set_cooling_level c
transition_of (LeverWrite.set_custom_fan_curve c g) = Transition.set_custom_fan_curve c g
transition_of LeverWrite.enable_fan_auto = Transition.enable_fan_auto
transition_of LeverWrite.reset_fan_curve = Transition.reset_fan_curve
transition_of LeverWrite.enable_gpu_auto_follow = Transition.enable_gpu_auto_follow
transition_of LeverWrite.reset_gpu_clocks = Transition.reset_gpu_clocks
transition_of LeverWrite.restore_defaults = Transition.restore_defaults

-- On AC with the lock on, whatever a user asks for a power or cooling lever (a preset, an SPL, an
-- envelope, a profile, a cooling level or curve, automatic cooling, the reset of the curve, the GPU
-- clock or the defaults) is ignored: the state stays as it is and there is no effect.
pub reduce-locked_write :
    (s : ProfileState) (w : LeverWrite) (limits : PowerEnvelopeLimits) (config : RuntimeConfig)
    → s.is_ac_connected ≡ true
    → s.ac_max_performance ≡ true
    → reduce s (transition_of w) limits config ≡ ok (output s [])
unfolding reduce gate reduce_set_preset reduce_set_spl reduce_set_envelope reduce_set_profile
    reduce_set_cooling_level reduce_set_custom_fan_curve reduce_enable_gpu_auto_follow
    reduce_reset_gpu_clocks reduce_enable_fan_auto reduce_reset_fan_curve reduce_restore_defaults
reduce-locked_write s (LeverWrite.set_preset p) limits config on lock = ground arith
reduce-locked_write s w limits config on lock = ground arith

-- The clock is pinned where it is managed.
abbrev pub IsPinnedClock : Option GpuClockSelection → Type 0
IsPinnedClock clock =
    (clock ≡ none) ⊎ (clock ≡ some (GpuClockSelection.preset FanCurvePreset.aggressive))

-- The levers of a device that is locked on AC, with a snapshot for battery mode.
pub record IsPinned (l : PowerEnvelopeLimits) (config : RuntimeConfig) (saved : Option DcSnapshot)
    (s : ProfileState) : Type 0 where
  pub connected : s.is_ac_connected ≡ true
  pub locked : s.ac_max_performance ≡ true
  pub envelope : s.power_target ≡ derive_boosted_envelope l.spl_max l config
  pub profile : s.active_profile ≡ ProfileName.performance
  pub curve : s.active_fan_curve ≡ some aggressive_curve
  pub manual : s.fan_follows_tdp ≡ false
  pub clock : IsPinnedClock s.active_gpu_clock
  pub snapshot : s.last_dc_state ≡ saved

-- All but a rollback, the unplug and the release of the lock.
abbrev pub is_kept_locked : Transition → Bool
is_kept_locked (Transition.sync_power_target _) = false
is_kept_locked (Transition.sync_platform_profile _) = false
is_kept_locked (Transition.sync_charge_threshold _) = false
is_kept_locked (Transition.sync_fan_curve _) = false
is_kept_locked (Transition.sync_gpu_clock_range _) = false
is_kept_locked (Transition.ac_power_changed on) = on
is_kept_locked (Transition.set_ac_max_performance on) = on
is_kept_locked _ = true

module _ (l : PowerEnvelopeLimits) (config : RuntimeConfig) where
  plug-IsPinned :
      (s : ProfileState)
      → s.is_ac_connected ≡ false
      → s.ac_max_performance ≡ true
      → (o : ReducerOutput) × (reduce s (Transition.ac_power_changed true) l config ≡ ok o)
        × IsPinned l config (some (snapshot_of s)) o.new_state
        × (o.new_state.charge_end_threshold ≡ s.charge_end_threshold)
  unfolding reduce ac_power_changed plugged force_ac_max_performance pin_gpu_clock
  plug-IsPinned s off lock =
      (set_connected true (plugged s l config), ground arith, ground arith, ground arith)

  module _ (saved : Option DcSnapshot) where
    next_state-IsPinned :
        (s : ProfileState) (t : Transition)
        → IsPinned l config saved s
        → is_kept_locked t ≡ true
        → IsPinned l config saved (next_state s (reduce s t l config))
    unfolding next_state reduce ac_power_changed set_ac_max_performance system_resumed
        force_ac_max_performance pin_gpu_clock charge_threshold_changed gate reduce_set_preset
        reduce_set_spl reduce_set_envelope reduce_set_profile reduce_set_cooling_level
        reduce_set_custom_fan_curve reduce_enable_gpu_auto_follow reduce_reset_gpu_clocks
        reduce_enable_fan_auto reduce_reset_fan_curve reduce_restore_defaults
    next_state-IsPinned s (Transition.ac_power_changed true) p h = ground arith
    next_state-IsPinned s t p h = ground arith

    after-IsPinned :
        (s : ProfileState) (ts : List Transition)
        → IsPinned l config saved s
        → all is_kept_locked ts ≡ true
        → IsPinned l config saved (after l config s ts)
    unfolding after
    after-IsPinned s [] p h = p
    after-IsPinned s (t ∷ ts) p h =
        after-IsPinned (next_state s (reduce s t l config)) ts
          (next_state-IsPinned s t p (ground arith)) (ground arith)

  -- From the moment a device on battery is plugged in with the lock on, through any transitions but a
  -- rollback, an unplug and the release of the lock, the device stays locked at the envelope that
  -- is derived from the highest SPL, the profile Performance and the curve Aggressive, cooling is
  -- manual, the GPU clock is pinned if it is managed, and the snapshot of the battery state at the
  -- plug is neither lost nor overwritten.
  pub after-plugged-IsPinned :
      (s : ProfileState) (ts : List Transition)
      → s.is_ac_connected ≡ false
      → s.ac_max_performance ≡ true
      → all is_kept_locked ts ≡ true
      → IsPinned l config
          (some (snapshot_of s))
          (after l config s (Transition.ac_power_changed true ∷ ts))
  unfolding after
  after-plugged-IsPinned s ts off lock h =
      let (o, e, p, _) = plug-IsPinned s off lock in
      rw e (after-IsPinned (some (snapshot_of s)) o.new_state ts p h)

  after-append :
      (s : ProfileState) (ts us : List Transition)
      → after l config s (ts ++ us) ≡ after l config (after l config s ts) us
  unfolding after
  after-append s [] us = refl
  after-append s (t ∷ ts) us = after-append (next_state s (reduce s t l config)) ts us

  unplug-restores :
      (s : ProfileState) (snap : DcSnapshot)
      → IsPinned l config (some snap) s
      → next_state s (reduce s (Transition.ac_power_changed false) l config)
        ≡ record (with_snapshot s snap) {
          is_ac_connected = false;
          active_gpu_clock = tier_only snap.active_gpu_clock;
        }
  unfolding next_state reduce ac_power_changed unplugged
  unplug-restores s snap p = ground (
    arith,
    restore_dc_state-new_state s snap,
    option_beq_iff s.active_gpu_clock snap.active_gpu_clock,
  )

  -- Plugging a device on battery in with the lock on and unplugging it later, with any transitions but a rollback, an
  -- unplug and the release of the lock in between, gives back the levers that were set on battery
  -- (envelope, profile, fan curve and whether it follows the TDP, GPU clock and whether it does); a
  -- GPU clock that was no tier goes to firmware auto. The snapshot is used up.
  pub plug-unplug :
      (s : ProfileState) (ts : List Transition)
      → s.is_ac_connected ≡ false
      → s.ac_max_performance ≡ true
      → all is_kept_locked ts ≡ true
      → let s' =
          after l config s
            (Transition.ac_power_changed true ∷ (ts ++ Transition.ac_power_changed false ∷ [])) in
        (s'.power_target ≡ s.power_target)
        × (s'.active_profile ≡ s.active_profile)
        × (s'.active_fan_curve ≡ s.active_fan_curve)
        × (s'.fan_follows_tdp ≡ s.fan_follows_tdp)
        × (s'.active_gpu_clock ≡ tier_only s.active_gpu_clock)
        × (s'.gpu_follows_tdp ≡ s.gpu_follows_tdp)
        × (s'.is_ac_connected ≡ false)
        × (s'.ac_max_performance ≡ true)
        × (s'.last_dc_state ≡ none)
  plug-unplug s ts off lock h =
      let start = Transition.ac_power_changed true ∷ ts in
      let p = after-plugged-IsPinned s ts off lock h in
      rw (after-append s start (Transition.ac_power_changed false ∷ [])) (
        unfold after in
        (rw (unplug-restores (after l config s start) (snapshot_of s) p)
          (refl, refl, refl, refl, refl, refl, refl, p.locked, refl)))
