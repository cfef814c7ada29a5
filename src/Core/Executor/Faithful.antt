-- ===== src/Core/Executor/Faithful.antt =====
-- A device whose successful writes do what the embedded controller does, and whether it takes the
-- writes of the loop of hpd-core/src/executor.rs.
use hpd_handheld_power_daemo.Prelude.{Option, true}
use hpd_handheld_power_daemo.Error.{Fallible}
use hpd_handheld_power_daemo.Capability.Units.{as_watts}
use hpd_handheld_power_daemo.Prelude.{
  ℕ, zero, suc, ◌≡◌, Bool, false, ◌&&◌, none, some, List, [], ◌∷◌, ok, err,
}
use hpd_handheld_power_daemo.Capability.Power.{PowerEnvelopeTarget}
use hpd_handheld_power_daemo.Capability.Profile.{ProfileName}
use hpd_handheld_power_daemo.Capability.FanCurve.{FanCurveSelection}
use hpd_handheld_power_daemo.Capability.Backend.{
  HwBackend, PowerEnvelope, ChargeControl, PlatformProfile, FanCurveControl,
}
use hpd_handheld_power_daemo.Core.State.{ProfileState}
use hpd_handheld_power_daemo.Core.Transition.{Transition}
use hpd_handheld_power_daemo.Core.Effect.{Effect}
use hpd_handheld_power_daemo.Core.Reducer.{Reduced}
use hpd_handheld_power_daemo.Core.EmbeddedController.{Controller, accept}
use hpd_handheld_power_daemo.Core.Executor.{
  reduce, Executor, handle_effect, receive, current_state, current_limits,
}

abbrev map_option : {A B : Type 0} → (A → B) → Option A → Option B
map_option f none = none
map_option f (some a) = some (f a)

abbrev pub in_watts : PowerEnvelopeTarget → PowerEnvelopeTarget
in_watts t = record {
  spl = as_watts t.spl;
  sppt = as_watts t.sppt;
  fppt = map_option as_watts t.fppt;
}

-- All but the GPU clock, with the envelope in whole watts.
abbrev pub rails : Controller → Controller
rails c = record c { clock = none; envelope = map_option in_watts c.envelope }

-- A device without control of the GPU clock, seen through `view`: a write may be refused, and one that
-- succeeds does what the embedded controller does, up to whole watts; saving the state touches no
-- rail.
pub record IsFaithful {ℓ} {H : Type ℓ} (power : PowerEnvelope H) (charge : ChargeControl H)
    (profile : PlatformProfile H) (curve : FanCurveControl H) (save : ProfileState → H → H)
    (view : H → Controller) : Type ℓ where
  pub target_view :
      (t : PowerEnvelopeTarget) (h : H)
      → (power.set_target t h).0 ≡ ok tt
      → rails (view (power.set_target t h).1)
        ≡ rails (accept (view h) (Effect.apply_power_envelope t))
  pub charge_view :
      (n : ℕ) (h : H)
      → (charge.set_end_threshold n h).0 ≡ ok tt
      → rails (view (charge.set_end_threshold n h).1)
        ≡ rails (accept (view h) (Effect.apply_charge_threshold n))
  pub profile_view :
      (p : ProfileName) (h : H)
      → (profile.set_active_profile p h).0 ≡ ok tt
      → rails (view (profile.set_active_profile p h).1)
        ≡ rails (accept (view h) (Effect.apply_platform_profile p))
  pub curve_view :
      (f : FanCurveSelection) (h : H)
      → (curve.apply f h).0 ≡ ok tt
      → rails (view (curve.apply f h).1) ≡ rails (accept (view h) (Effect.apply_fan_curve f))
  pub reset_view :
      (h : H)
      → (curve.reset_to_auto h).0 ≡ ok tt
      → rails (view (curve.reset_to_auto h).1) ≡ rails (accept (view h) Effect.reset_fan_curve)
  pub save_view : (s : ProfileState) (h : H) → rails (view (save s h)) ≡ rails (view h)

abbrev pub without_gpu_clock {ℓ} :
    {H : Type ℓ}
    → PowerEnvelope H
    → ChargeControl H
    → PlatformProfile H
    → FanCurveControl H
    → HwBackend H
without_gpu_clock power charge profile curve = record {
  power = power;
  charge = some charge;
  profile = some profile;
  fan_curve = some curve;
  gpu_clock = none;
}

unfoldable pub is_ok : Fallible (Unit {0}) → Bool
is_ok (ok u) = true
is_ok (err e) = false

module _ {ℓ} {H : Type ℓ} (power : PowerEnvelope H) (charge : ChargeControl H)
    (profile : PlatformProfile H) (curve : FanCurveControl H) (save : ProfileState → H → H) where
  abbrev pub backend : HwBackend H
  backend = without_gpu_clock power charge profile curve

  -- Whether the device takes the write of an effect, and those of effects in a row.
  unfoldable pub takes : Effect → H → Bool
  unfolding is_ok
  takes (Effect.apply_power_envelope t) h = is_ok (power.set_target t h).0
  takes (Effect.apply_platform_profile p) h = is_ok (profile.set_active_profile p h).0
  takes (Effect.apply_charge_threshold n) h = is_ok (charge.set_end_threshold n h).0
  takes (Effect.apply_fan_curve f) h = is_ok (curve.apply f h).0
  takes Effect.reset_fan_curve h = is_ok (curve.reset_to_auto h).0
  takes e h = true

  unfoldable pub takes_effects : List Effect → Executor H → Bool
  takes_effects [] x = true
  takes_effects (e ∷ es) x = takes e x.hardware && takes_effects es (handle_effect backend save e x)

  abbrev pub takes_output : Reduced → Executor H → Bool
  takes_output (ok o) x = takes_effects o.effects (record x {
    state = record o.new_state {
      ac_locked = o.new_state.is_ac_connected && o.new_state.ac_max_performance;
    };
  })
  takes_output (err e) x = true

  -- Whether it takes every write of a transition, and of the rounds of the loop.
  unfoldable pub takes_transition : Transition → Executor H → Bool
  takes_transition (Transition.config_reload c) x = true
  takes_transition t x =
      let limits = current_limits backend save t x in
      takes_output (reduce (current_state backend save t x) t limits x.config)
        (record x { device_limits = limits })

  unfoldable pub takes_next : List Transition → Executor H → Bool
  takes_next [] x = true
  takes_next (t ∷ rest) x = takes_transition t (record x { queue = rest })

  unfoldable pub takes_rounds : ℕ → Executor H → Bool
  takes_rounds zero x = true
  takes_rounds (suc fuel) x =
      let later = takes_rounds fuel (receive backend save x.queue x).1 in
      takes_next x.queue x && later
