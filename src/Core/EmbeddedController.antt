-- ===== src/Core/EmbeddedController.antt =====
-- The hardware behind the effects of hpd-core/src/reducer.rs, as its comments document it: writing
-- the platform profile makes the embedded controller drop the power envelope (to the defaults of
-- the profile) and the custom fan curve (to the firmware's).
use hpd_handheld_power_daemo.Prelude.{ℕ, ◌≡◌, refl, Option, none, some, List, [], ◌∷◌, ◌++◌}
use hpd_handheld_power_daemo.Capability.Power.{PowerEnvelopeTarget}
use hpd_handheld_power_daemo.Capability.Profile.{ProfileName}
use hpd_handheld_power_daemo.Capability.FanCurve.{FanCurveSelection}
use hpd_handheld_power_daemo.Capability.GpuClock.{GpuClockSelection}
use hpd_handheld_power_daemo.Core.State.{ProfileState}
use hpd_handheld_power_daemo.Core.Effect.{Effect}

-- What the device enforces; an envelope `none` is the default of the profile.
pub record Controller : Type 0 where
  pub profile : ProfileName
  pub envelope : Option PowerEnvelopeTarget
  pub curve : Option FanCurveSelection
  pub clock : Option GpuClockSelection
  pub charge : ℕ

-- A write that the hardware accepts.
unfoldable pub accept : Controller → Effect → Controller
accept c (Effect.apply_power_envelope t) = record c { envelope = some t }
accept c (Effect.apply_platform_profile p) = record c { profile = p; envelope = none; curve = none }
accept c (Effect.apply_charge_threshold n) = record c { charge = n }
accept c (Effect.apply_fan_curve f) = record c { curve = some f }
accept c Effect.reset_fan_curve = record c { curve = none }
accept c (Effect.apply_gpu_clock_range t) = record c { clock = some (GpuClockSelection.preset t) }
accept c Effect.reset_gpu_clocks = record c { clock = none }
accept c Effect.persist_state = c

unfoldable pub run : Controller → List Effect → Controller
unfolding accept
run c [] = c
run c (e ∷ es) = run (accept c e) es

pub run-append : (c : Controller) (es es' : List Effect) → run c (es ++ es') ≡ run (run c es) es'
unfolding run
run-append c [] es' = refl
run-append c (e ∷ es) es' = run-append (accept c e) es es'

-- The device as the state of the daemon describes it.
unfoldable pub described : ProfileState → Controller
described s = record {
  profile = s.active_profile;
  envelope = some s.power_target;
  curve = s.active_fan_curve;
  clock = s.active_gpu_clock;
  charge = s.charge_end_threshold;
}
