-- ===== src/Tests/ExecutorRuns.antt =====
-- Runs of the executor (hpd-core/src/executor.rs), on a device that takes every write and on one
-- that refuses the power envelope.
use hpd_handheld_power_daemo.Core.Reducer.{ac_power_changed, charge_threshold_changed}
use hpd_handheld_power_daemo.Prelude.{ltb, ◌||◌, if◌then◌else◌, nat_eq}
use hpd_handheld_power_daemo.Error.{Fallible}
use hpd_handheld_power_daemo.Capability.FanCurve.{FanCurve, FanCurveSelection}
use hpd_handheld_power_daemo.Asus.FanCurve.{resolve}
use hpd_handheld_power_daemo.Asus.Power.ReadBack.{whole_target}
use hpd_handheld_power_daemo.Core.Executor.Reported.{run-IsReported, run-rollback}
use hpd_handheld_power_daemo.Capability.Profile.{default_config}
use hpd_handheld_power_daemo.Core.State.{ProfileState}
use hpd_handheld_power_daemo.Core.Executor.Progress.{run-idle}
use hpd_handheld_power_daemo.Capability.Backend.{
  PlatformProfile, PowerEnvelope, ChargeControl, HwBackend, FanCurveControl,
}
use hpd_handheld_power_daemo.Prelude.{
  ◌&&◌, ◌≡◌, ◌⊎◌, refl, true, false, none, some, List, [], ◌∷◌, ok, err, arith,
}
use hpd_handheld_power_daemo.Error.{HpdError}
use hpd_handheld_power_daemo.Core.Effect.{Effect}
use hpd_handheld_power_daemo.Core.Transition.{Transition}
use hpd_handheld_power_daemo.Core.EmbeddedController.{Controller, accept, described}
use hpd_handheld_power_daemo.Core.Executor.{Executor, handle_effect, run}
use hpd_handheld_power_daemo.Tests.Data.{limits, on_battery, target_15w, target_20w}

-- The device is a controller that does what the ASUS backend does: it takes whole watts, thresholds
-- from 20 to 100 and the curves that resolve.
abbrev power : PowerEnvelope Controller
power = record {
  get_limits = λ _. ok limits;
  get_target = λ _. ok target_15w;
  set_target = λ t c. (ok tt, accept c (Effect.apply_power_envelope (whole_target t)));
}

abbrev charge : ChargeControl Controller
charge = record {
  is_ac_connected = λ _. ok false;
  set_end_threshold = λ n c.
      if ltb n 20 || ltb 100 n
      then (err HpdError.feature_unsupported, c)
      else (ok tt, accept c (Effect.apply_charge_threshold n));
  get_end_threshold = λ c. ok c.charge;
}

abbrev profile : PlatformProfile Controller
profile = record {
  set_active_profile = λ p c. (ok tt, accept c (Effect.apply_platform_profile p));
  get_active_profile = λ c. ok c.profile;
}

abbrev take_curve :
    FanCurveSelection
    → Fallible (FanCurve × FanCurve)
    → Controller
    → Fallible (Unit {0}) × Controller
take_curve f (ok curves) c = (ok tt, accept c (Effect.apply_fan_curve f))
take_curve f (err e) c = (err e, c)

abbrev fan_curve : FanCurveControl Controller
fan_curve = record {
  apply = λ f c. take_curve f (resolve f) c;
  reset_to_auto = λ c. (ok tt, accept c Effect.reset_fan_curve);
  active_selection = λ c. ok c.curve;
}

abbrev no_file : ProfileState → Controller → Controller
no_file _ c = c

abbrev itself : Controller → Controller
itself c = c

abbrev plugged_in : List Transition
plugged_in = Transition.ac_power_changed true ∷ Transition.charge_threshold_changed 60 ∷ []

abbrev started : List Transition → Executor Controller
started q = record {
  hardware = described on_battery;
  device_limits = limits;
  config = default_config;
  queue = q;
  capacity = 32;
  state = on_battery;
  observed = true;
}

-- A device whose power envelope stays at 15 W.
abbrev refusing : HwBackend Controller
refusing = record {
  power = record power { set_target = λ t c. (err HpdError.feature_unsupported, c) };
  charge = some charge;
  profile = none;
  fan_curve = none;
  gpu_clock = none;
}

run-idle_example :
    ((run refusing no_file 66 (started plugged_in)).0 ≡ false)
    ⊎ ((run refusing no_file 66 (started plugged_in)).1.queue ≡ [])
run-idle_example = run-idle refusing no_file 66 (started plugged_in) (omega arith)

run-IsReported_example :
    let s = (run refusing no_file 5 (started plugged_in)).1.state in
    s.ac_locked ≡ (s.is_ac_connected && s.ac_max_performance)
run-IsReported_example = run-IsReported refusing no_file 5 (started plugged_in) refl

run-rollback_example :
    let y =
      run refusing no_file 1
        (handle_effect refusing no_file (Effect.apply_power_envelope target_20w) (started [])) in
    (y.0 ≡ true)
    × (y.1.state.power_target ≡ target_15w)
    × (refusing.power.get_target y.1.hardware ≡ ok target_15w)
    × (y.1.queue ≡ [])
run-rollback_example =
    run-rollback refusing no_file (started []) target_20w target_15w HpdError.feature_unsupported
      refl (omega arith) refl refl refl
