-- ===== src/Core/Executor/FollowsState.antt =====
-- The loop of hpd-core/src/executor.rs on a device whose successful writes reach the controller.
use hpd_handheld_power_daemo.Core.Executor.Faithful.{rails, IsFaithful}
use hpd_handheld_power_daemo.Prelude.{◌≡◌}
use hpd_handheld_power_daemo.Capability.Backend.{
  PowerEnvelope, ChargeControl, PlatformProfile, FanCurveControl,
}
use hpd_handheld_power_daemo.Core.State.{ProfileState}
use hpd_handheld_power_daemo.Core.Transition.{Transition}
use hpd_handheld_power_daemo.Core.Effect.{Effect}
use hpd_handheld_power_daemo.Core.EmbeddedController
use hpd_handheld_power_daemo.Core.EmbeddedController.{Controller, described}
use hpd_handheld_power_daemo.Core.Executor.{Executor}

module _ {ℓ} {H : Type ℓ} (power : PowerEnvelope H) (charge : ChargeControl H)
    (profile : PlatformProfile H) (curve : FanCurveControl H) (save : ProfileState → H → H) where
  module _ (view : H → Controller) (a : IsFaithful power charge profile curve save view) where
    -- The device agrees with the state of the daemon.
    abbrev pub Follows : Executor H → Type 0
    Follows x = rails (view x.hardware) ≡ rails (described x.state)
