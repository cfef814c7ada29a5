-- ===== src/Tests/ResumeRuns.antt =====
-- Boots and resumes (`SystemResumed` of hpd-core/src/reducer.rs) on a device that has lost what was
-- written.
use hpd_handheld_power_daemo.Prelude.{◌≡◌, refl, false, none, some, any, inr}
use hpd_handheld_power_daemo.Capability.Profile.{default_config}
use hpd_handheld_power_daemo.Capability.GpuClock.{GpuClockRange, GpuClockSelection}
use hpd_handheld_power_daemo.Core.State.{ProfileState}
use hpd_handheld_power_daemo.Core.EmbeddedController.{Controller, run, described}
use hpd_handheld_power_daemo.Core.Reducer.{
  system_resumed, resumed_on_battery, reassert_all, reassert_clock, snapshot_of, is_persist,
}
use hpd_handheld_power_daemo.Core.Resume.{run-system_resumed, run-system_resumed_same_snapshot}
use hpd_handheld_power_daemo.Tests.Data.{limits, on_battery}

abbrev lost : Controller
lost = record (described on_battery) { envelope = none; curve = none }

run-system_resumed_example :
    run lost (system_resumed on_battery limits default_config).effects
    ≡ described (system_resumed on_battery limits default_config).new_state
run-system_resumed_example =
    run-system_resumed on_battery limits default_config lost (inr refl)
      (λ _. unfold described in refl)

abbrev with_same_snapshot : ProfileState
with_same_snapshot = record on_battery { last_dc_state = some (snapshot_of on_battery) }

run-system_resumed_same_snapshot_example :
    run lost (system_resumed with_same_snapshot limits default_config).effects
    ≡ record lost { charge = 80 }
run-system_resumed_same_snapshot_example =
    run-system_resumed_same_snapshot with_same_snapshot limits default_config lost refl refl

abbrev manual_range : GpuClockRange
manual_range = record { min_mhz = 800; max_mhz = 1600 }

abbrev with_manual_clock : ProfileState
with_manual_clock = record on_battery {
  active_gpu_clock = some (GpuClockSelection.unmanaged manual_range);
}

-- The clock is cleared in the state, and the state is not saved.
unmanaged_clock_resumed :
    ((system_resumed with_manual_clock limits default_config).new_state
      ≡ record with_manual_clock { active_gpu_clock = none })
    × (any is_persist (system_resumed with_manual_clock limits default_config).effects ≡ false)
unfolding system_resumed resumed_on_battery reassert_all reassert_clock
unmanaged_clock_resumed = (refl, refl)
