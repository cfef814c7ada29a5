-- ===== src/Core/EnvelopeInvariant/AcPower.antt =====
-- The power envelope of the state through `AcPowerChanged`, `SystemResumed` and
-- `SetAcMaxPerformance` (hpd-core/src/reducer.rs).
use hpd_handheld_power_daemo.Core.EnvelopeInvariant.Writes.{reduce_set_preset-IsBounded}
use hpd_handheld_power_daemo.Prelude.{
  inl, inr, ◌≡◌, Bool, true, false, Option, none, some, ok, arith,
}
use hpd_handheld_power_daemo.Capability.Power.{PowerEnvelopeLimits}
use hpd_handheld_power_daemo.Capability.Profile.{TdpPreset, RuntimeConfig}
use hpd_handheld_power_daemo.Core.State.{ProfileState, DcSnapshot}
use hpd_handheld_power_daemo.Core.EnvelopeBounds.{
  IsBounded, IsSavedWithin, IsWithin, IsWellFormed, derive_boosted_envelope-IsWithin,
}
use hpd_handheld_power_daemo.Core.RestoredState.{restore_dc_state-new_state}
use hpd_handheld_power_daemo.Core.UnplugSteps.{unplug_steps}
use hpd_handheld_power_daemo.Core.Reducer.{
  ReducerOutput, system_resumed, resumed_on_battery, reassert_all, reassert_clock,
  set_ac_max_performance, lock_while_plugged, unlock_while_plugged, derive_boosted_envelope,
  force_ac_max_performance, pin_gpu_clock, plugged, unplugged, ac_power_changed,
}

module _ (l : PowerEnvelopeLimits) (config : RuntimeConfig) where
  force-keeps :
      (s : ProfileState)
      → ((force_ac_max_performance s l config).new_state.power_target
          ≡ derive_boosted_envelope l.spl_max l config)
        × ((force_ac_max_performance s l config).new_state.last_dc_state ≡ s.last_dc_state)
  unfolding force_ac_max_performance pin_gpu_clock
  force-keeps s = ground arith

  module _ (w : IsWellFormed l) where
    force-IsWithin : IsWithin (derive_boosted_envelope l.spl_max l config) l
    force-IsWithin = derive_boosted_envelope-IsWithin l config w l.spl_max w.spl_range (omega arith)

    plugged-IsBounded :
        (s : ProfileState) → IsBounded s l → IsBounded (plugged s l config).new_state l
    unfolding plugged
    plugged-IsBounded s b = ground (arith, force-keeps s, force-IsWithin)

    unplugged-IsBounded :
        (s : ProfileState) (saved : Option DcSnapshot) (o : ReducerOutput)
        → IsSavedWithin saved l
        → IsBounded s l
        → unplugged saved s l config ≡ ok o
        → IsBounded o.new_state l
    unfolding unplugged
    unplugged-IsBounded s none o v b h = ground (
      arith,
      reduce_set_preset-IsBounded l config
          (record s { is_ac_connected = false; fan_follows_tdp = true }) TdpPreset.balanced o,
    )
    unplugged-IsBounded s (some snap) o v b h = ground (arith, restore_dc_state-new_state s snap)

    pub ac_power_changed-IsBounded :
        (s : ProfileState) (on : Bool) (o : ReducerOutput)
        → IsBounded s l
        → ac_power_changed s on l config ≡ ok o
        → IsBounded o.new_state l
    unfolding ac_power_changed
    ac_power_changed-IsBounded s true o b h = ground (arith, plugged-IsBounded s b)
    ac_power_changed-IsBounded s false o b h = elim (unplug_steps s l config o h) [
      | inl (off, e) ↦ rw e b
      | inr (a, on, ea, e) ↦ ground (arith, unplugged-IsBounded s s.last_dc_state a b.saved b ea, e)
    ]

    resumed_on_battery-IsBounded :
        (s : ProfileState) (saved : Option DcSnapshot)
        → IsSavedWithin saved l
        → IsBounded s l
        → IsBounded (resumed_on_battery saved s).new_state l
    unfolding resumed_on_battery reassert_all reassert_clock
    resumed_on_battery-IsBounded s none v b = ground arith
    resumed_on_battery-IsBounded s (some snap) v b =
        ground (arith, restore_dc_state-new_state s snap)

    pub system_resumed-IsBounded :
        (s : ProfileState) → IsBounded s l → IsBounded (system_resumed s l config).new_state l
    unfolding system_resumed
    system_resumed-IsBounded s b = ground (
      arith,
      force-keeps s,
      force-IsWithin,
      resumed_on_battery-IsBounded s s.last_dc_state b.saved b,
    )

    lock_while_plugged-IsBounded :
        (s : ProfileState) → IsBounded s l → IsBounded (lock_while_plugged s l config).new_state l
    unfolding lock_while_plugged
    lock_while_plugged-IsBounded s b = ground (arith, force-keeps s, force-IsWithin)

    unlock_while_plugged-IsBounded :
        (s : ProfileState) (saved : Option DcSnapshot)
        → IsSavedWithin saved l
        → IsBounded s l
        → IsBounded (unlock_while_plugged saved s).new_state l
    unfolding unlock_while_plugged
    unlock_while_plugged-IsBounded s none v b = b
    unlock_while_plugged-IsBounded s (some snap) v b =
        ground (arith, restore_dc_state-new_state s snap)

    pub set_ac_max_performance-IsBounded :
        (s : ProfileState) (on : Bool)
        → IsBounded s l
        → IsBounded (set_ac_max_performance s on l config).new_state l
    unfolding set_ac_max_performance
    set_ac_max_performance-IsBounded s on b = ground (
      arith,
      lock_while_plugged-IsBounded s b,
      unlock_while_plugged-IsBounded s s.last_dc_state b.saved b,
    )
