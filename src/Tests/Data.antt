-- ===== src/Tests/Data.antt =====
-- A device and states like those of the tests of hpd-core/src/reducer.rs.
use hpd_handheld_power_daemo.Prelude.{true, false, none, some, [], ◌∷◌, List}
use hpd_handheld_power_daemo.Capability.Power.{PowerEnvelopeLimits, PowerEnvelopeTarget}
use hpd_handheld_power_daemo.Capability.Profile.{ProfileName}
use hpd_handheld_power_daemo.Core.State.{ProfileState}
use hpd_handheld_power_daemo.Core.Transition.{Transition}

abbrev pub limits : PowerEnvelopeLimits
limits = record {
  spl_min = 7000;
  spl_max = 35000;
  sppt_min = 13000;
  sppt_max = 43000;
  fppt_min = 19000;
  fppt_max = 55000;
}

abbrev pub target_15w : PowerEnvelopeTarget
target_15w = record { spl = 15000; sppt = 17250; fppt = some 19000 }

abbrev pub target_20w : PowerEnvelopeTarget
target_20w = record { spl = 20000; sppt = 23000; fppt = some 25000 }

abbrev pub on_battery : ProfileState
on_battery = record {
  power_target = target_15w;
  active_profile = ProfileName.balanced;
  charge_end_threshold = 80;
  fan_follows_tdp = false;
  last_dc_state = none;
  ac_max_performance = true;
  active_fan_curve = none;
  active_gpu_clock = none;
  gpu_follows_tdp = false;
  is_ac_connected = false;
  ac_locked = false;
}

abbrev pub on_ac : ProfileState
on_ac = record on_battery { is_ac_connected = true; ac_locked = true }

abbrev pub while_plugged : List Transition
while_plugged =
    Transition.set_spl 20 ∷ Transition.charge_threshold_changed 60 ∷ Transition.system_resumed ∷ []
