-- ===== src/Core/EffectsReachState/Writes.antt =====
-- The effects of the single levers, run on the embedded controller (hpd-core/src/reducer.rs).
use hpd_handheld_power_daemo.Prelude.{ℕ, refl, ℕ, ◌≡◌, ◌∙◌, ap, [], ◌∷◌, ok, arith}
use hpd_handheld_power_daemo.Core.Reducer.{
  ReducerOutput, follow_fan, follow_gpu, follow_tier, apply_power_target, set_spl,
  force_ac_max_performance, pin_gpu_clock, gate, Reduced, charge_threshold_changed, enable_fan_auto,
  enable_gpu_auto_follow, reset_gpu_clocks, reset_fan_curve, set_manual_curve, set_envelope,
  reset_managed_clock, reduce_reset_gpu_clocks, preset_watts, reduce_set_preset, reduce_set_spl,
  push, update, set_profile,
}
use hpd_handheld_power_daemo.Core.EmbeddedController.{
  Controller, accept, run, run-append, described,
}
use hpd_handheld_power_daemo.Core.Transition.{Transition}
use hpd_handheld_power_daemo.Core.Effect.{Effect}
use hpd_handheld_power_daemo.Core.State.{ProfileState}
use hpd_handheld_power_daemo.Capability.Power.{PowerEnvelopeLimits, PowerEnvelopeTarget, target_eq}
use hpd_handheld_power_daemo.Capability.Profile.{TdpPreset, ProfileName, RuntimeConfig, profile_eq}
use hpd_handheld_power_daemo.Capability.FanCurve.{selection_eq, FanCurvePreset, FanCurveSelection}

-- From the device `c`, the effects lead to the one that the new state describes.
abbrev pub Reaches : Controller → ReducerOutput → Type 0
Reaches c o = run c o.effects ≡ described o.new_state

-- One more write, which brings the device to the changed state.
Reaches-push :
    (c : Controller) (o : ReducerOutput) (s' : ProfileState) (e : Effect)
    → Reaches c o
    → accept (described o.new_state) e ≡ described s'
    → Reaches c (push (update o s') e)
unfolding run
Reaches-push c o s' e h step = run-append c o.effects (e ∷ []) ∙ ap (λ d. accept d e) h ∙ step

module _ (c : Controller) (tier : FanCurvePreset) (o : ReducerOutput) (h : Reaches c o) where
  follow_fan-Reaches : Reaches c (follow_fan tier o)
  unfolding follow_fan described run
  follow_fan-Reaches =
      ground (
        arith,
        run-append c o.effects (Effect.apply_fan_curve (FanCurveSelection.preset tier) ∷ []),
      )

  follow_gpu-Reaches : Reaches c (follow_gpu tier o)
  unfolding follow_gpu described run
  follow_gpu-Reaches =
      ground (arith, run-append c o.effects (Effect.apply_gpu_clock_range tier ∷ []))

follow_tier-Reaches :
    (c : Controller) (tier : FanCurvePreset) (o : ReducerOutput)
    → Reaches c o
    → Reaches c (follow_tier tier o)
unfolding follow_tier
follow_tier-Reaches c tier o h = grind (arith, follow_fan-Reaches, follow_gpu-Reaches)

pub Reaches-persist :
    (c : Controller) (o : ReducerOutput) → Reaches c o → Reaches c (push o Effect.persist_state)
unfolding run
Reaches-persist c o h = run-append c o.effects (Effect.persist_state ∷ []) ∙ h

module _ (s : ProfileState) (limits : PowerEnvelopeLimits) (config : RuntimeConfig) where
  apply_power_target-Reaches :
      (t : PowerEnvelopeTarget) → Reaches (described s) (apply_power_target s t limits config)
  unfolding apply_power_target described run
  apply_power_target-Reaches t =
      grind (arith, follow_tier-Reaches, Reaches-persist, target_eq.beq_iff s.power_target t)

  pub set_spl-Reaches :
      (w : ℕ) {o : ReducerOutput} → set_spl s w limits config ≡ ok o → Reaches (described s) o
  unfolding set_spl
  set_spl-Reaches w h = grind (arith, apply_power_target-Reaches)

  pub set_profile-Reaches : (p : ProfileName) → Reaches (described s) (set_profile s p)
  unfolding set_profile run described
  set_profile-Reaches p = ground (arith, profile_eq.beq_iff s.active_profile p)

  pub force-Reaches :
      (c : Controller)
      → c.charge ≡ s.charge_end_threshold
      → c.clock ≡ s.active_gpu_clock
      → Reaches c (force_ac_max_performance s limits config)
  unfolding force_ac_max_performance pin_gpu_clock run described
  force-Reaches c p q = ground arith

module _ (s : ProfileState) (limits : PowerEnvelopeLimits) (config : RuntimeConfig) where
  pub gate-Reaches :
      (t : Transition) (arm : Reduced) (o : ReducerOutput)
      → gate s t arm ≡ ok o
      → (arm ≡ ok o → Reaches (described s) o)
      → Reaches (described s) o
  unfolding gate run
  gate-Reaches t arm o h k = ground arith

  pub set_preset-Reaches :
      (p : TdpPreset) (o : ReducerOutput)
      → reduce_set_preset s p limits config ≡ ok o
      → Reaches (described s) o
  unfolding reduce_set_preset reduce_set_spl
  set_preset-Reaches p o h =
      gate-Reaches _ _ o h (λ h'.
        gate-Reaches _ _ o h' (set_spl-Reaches s limits config (preset_watts p limits config)))

module _ (limits : PowerEnvelopeLimits) (config : RuntimeConfig) where
  pub charge_threshold_changed-Reaches :
      (s : ProfileState) (n : ℕ) → Reaches (described s) (charge_threshold_changed s n)
  unfolding charge_threshold_changed run described
  charge_threshold_changed-Reaches s n = ground arith

  pub enable_fan_auto-Reaches :
      (s : ProfileState) → Reaches (described s) (enable_fan_auto s limits config)
  unfolding enable_fan_auto run described
  enable_fan_auto-Reaches s = ground arith

  pub enable_gpu_auto_follow-Reaches :
      (s : ProfileState) → Reaches (described s) (enable_gpu_auto_follow s limits config)
  unfolding enable_gpu_auto_follow run described
  enable_gpu_auto_follow-Reaches s = ground arith

  pub reset_gpu_clocks-Reaches : (s : ProfileState) → Reaches (described s) (reset_gpu_clocks s)
  unfolding reset_gpu_clocks run described
  reset_gpu_clocks-Reaches s = ground arith

  pub reset_fan_curve-Reaches : (s : ProfileState) → Reaches (described s) (reset_fan_curve s)
  unfolding reset_fan_curve run described
  reset_fan_curve-Reaches s = ground arith

  pub set_manual_curve-Reaches :
      (s : ProfileState) (f : FanCurveSelection) → Reaches (described s) (set_manual_curve s f)
  unfolding set_manual_curve run described
  set_manual_curve-Reaches s f = refl

  pub set_envelope-Reaches :
      (s : ProfileState) (t : PowerEnvelopeTarget) (o : ReducerOutput)
      → set_envelope s t limits config ≡ ok o
      → Reaches (described s) o
  unfolding set_envelope
  set_envelope-Reaches s t o h = grind (arith, apply_power_target-Reaches)

  -- An arm without errors behind the lock.
  pub gated-Reaches :
      (s : ProfileState) (t : Transition) (a o : ReducerOutput)
      → Reaches (described s) a
      → gate s t (ok a) ≡ ok o
      → Reaches (described s) o
  gated-Reaches s t a o h g = gate-Reaches s limits config t (ok a) o g (λ e. ground arith)

  pub reset_managed_clock-Reaches :
      (s : ProfileState) (o : ReducerOutput)
      → reset_managed_clock s ≡ ok o
      → Reaches (described s) o
  unfolding reset_managed_clock reduce_reset_gpu_clocks run
  reset_managed_clock-Reaches s o h = ground (
    arith,
    gated-Reaches s Transition.reset_gpu_clocks (reset_gpu_clocks s) o (reset_gpu_clocks-Reaches s),
  )
