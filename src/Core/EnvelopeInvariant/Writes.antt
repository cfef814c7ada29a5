-- ===== src/Core/EnvelopeInvariant/Writes.antt =====
-- The power envelope of the state through the single levers (hpd-core/src/reducer.rs).
use hpd_handheld_power_daemo.Prelude.{ℕ, ◌≡◌, ok, arith}
use hpd_handheld_power_daemo.Capability.Power.{
  PowerEnvelopeLimits, PowerEnvelopeTarget, target_beq_iff,
}
use hpd_handheld_power_daemo.Capability.Profile.{ProfileName, TdpPreset, RuntimeConfig}
use hpd_handheld_power_daemo.Capability.FanCurve.{FanCurvePreset, FanCurveSelection}
use hpd_handheld_power_daemo.Core.State.{ProfileState}
use hpd_handheld_power_daemo.Core.Transition.{Transition}
use hpd_handheld_power_daemo.Core.EnvelopeBounds.{
  IsWithin-of_validate, IsBounded, validate_power_envelope_iff,
}
use hpd_handheld_power_daemo.Core.Reducer.{
  ReducerOutput, Reduced, gate, follow_tier, follow_fan, follow_gpu, apply_power_target, set_spl,
  set_envelope, set_profile, charge_threshold_changed, enable_fan_auto, reset_managed_clock,
  reduce_reset_gpu_clocks, reset_gpu_clocks, enable_gpu_auto_follow, reset_fan_curve,
  set_manual_curve, preset_watts, reduce_set_preset, reduce_set_spl,
}

follow_tier-keeps :
    (tier : FanCurvePreset) (o : ReducerOutput)
    → ((follow_tier tier o).new_state.power_target ≡ o.new_state.power_target)
      × ((follow_tier tier o).new_state.last_dc_state ≡ o.new_state.last_dc_state)
unfolding follow_tier follow_fan follow_gpu
follow_tier-keeps tier o = ground arith

module _ (l : PowerEnvelopeLimits) (config : RuntimeConfig) where
  apply_power_target-keeps :
      (s : ProfileState) (t : PowerEnvelopeTarget)
      → ((apply_power_target s t l config).new_state.power_target ≡ t)
        × ((apply_power_target s t l config).new_state.last_dc_state ≡ s.last_dc_state)
  unfolding apply_power_target
  apply_power_target-keeps s t = grind (arith, follow_tier-keeps, target_beq_iff s.power_target t)

  pub set_envelope-IsBounded :
      (s : ProfileState) (t : PowerEnvelopeTarget) (o : ReducerOutput)
      → IsBounded s l
      → set_envelope s t l config ≡ ok o
      → IsBounded o.new_state l
  unfolding set_envelope
  set_envelope-IsBounded s t o b h =
      ground (arith, apply_power_target-keeps s t, (validate_power_envelope_iff t l).0)

  pub set_spl-IsBounded :
      (s : ProfileState) (w : ℕ) (o : ReducerOutput)
      → IsBounded s l
      → set_spl s w l config ≡ ok o
      → IsBounded o.new_state l
  unfolding set_spl
  set_spl-IsBounded s w o b h = grind (arith, apply_power_target-keeps, IsWithin-of_validate)

  pub gate-IsBounded :
      (s : ProfileState) (t : Transition) (arm : Reduced) (o : ReducerOutput)
      → IsBounded s l
      → gate s t arm ≡ ok o
      → (arm ≡ ok o → IsBounded o.new_state l)
      → IsBounded o.new_state l
  unfolding gate
  gate-IsBounded s t arm o b h k = ground arith

  pub reduce_set_preset-IsBounded :
      (s : ProfileState) (p : TdpPreset) (o : ReducerOutput)
      → IsBounded s l
      → reduce_set_preset s p l config ≡ ok o
      → IsBounded o.new_state l
  unfolding reduce_set_preset reduce_set_spl
  reduce_set_preset-IsBounded s p o b h =
      gate-IsBounded s _ _ o b h
        (λ h'. gate-IsBounded s _ _ o b h' (set_spl-IsBounded s (preset_watts p l config) o b))

  pub gated-IsBounded :
      (s : ProfileState) (t : Transition) (a o : ReducerOutput)
      → IsBounded s l
      → IsBounded a.new_state l
      → gate s t (ok a) ≡ ok o
      → IsBounded o.new_state l
  gated-IsBounded s t a o b b' h = gate-IsBounded s t (ok a) o b h (λ e. ground arith)

  pub set_profile-IsBounded :
      (s : ProfileState) (p : ProfileName) → IsBounded s l → IsBounded (set_profile s p).new_state l
  unfolding set_profile
  set_profile-IsBounded s p b = ground arith

  pub charge-IsBounded :
      (s : ProfileState) (n : ℕ)
      → IsBounded s l
      → IsBounded (charge_threshold_changed s n).new_state l
  unfolding charge_threshold_changed
  charge-IsBounded s n b = ground arith

  pub enable_fan_auto-IsBounded :
      (s : ProfileState) → IsBounded s l → IsBounded (enable_fan_auto s l config).new_state l
  unfolding enable_fan_auto
  enable_fan_auto-IsBounded s b = ground arith

  pub reset_gpu_clocks-IsBounded :
      (s : ProfileState) → IsBounded s l → IsBounded (reset_gpu_clocks s).new_state l
  unfolding reset_gpu_clocks
  reset_gpu_clocks-IsBounded s b = ground arith

  pub enable_gpu_auto_follow-IsBounded :
      (s : ProfileState) → IsBounded s l → IsBounded (enable_gpu_auto_follow s l config).new_state l
  unfolding enable_gpu_auto_follow
  enable_gpu_auto_follow-IsBounded s b = ground arith

  pub reset_fan_curve-IsBounded :
      (s : ProfileState) → IsBounded s l → IsBounded (reset_fan_curve s).new_state l
  unfolding reset_fan_curve
  reset_fan_curve-IsBounded s b = ground arith

  pub set_manual_curve-IsBounded :
      (s : ProfileState) (f : FanCurveSelection)
      → IsBounded s l
      → IsBounded (set_manual_curve s f).new_state l
  unfolding set_manual_curve
  set_manual_curve-IsBounded s f b = ground arith

  pub reset_managed_clock-IsBounded :
      (s : ProfileState) (o : ReducerOutput)
      → IsBounded s l
      → reset_managed_clock s ≡ ok o
      → IsBounded o.new_state l
  unfolding reset_managed_clock reduce_reset_gpu_clocks
  reset_managed_clock-IsBounded s o b h = ground (
    arith,
    gated-IsBounded s Transition.reset_gpu_clocks (reset_gpu_clocks s) o b
        (reset_gpu_clocks-IsBounded s b),
  )
