-- ===== src/Core/EnvelopeWrites/Arms.antt =====
-- The power envelopes among the effects of the single arms (hpd-core/src/reducer.rs).
use hpd_handheld_power_daemo.Prelude.{
  ℕ, ◌≡◌, Bool, true, false, Option, none, some, ok, arith, List, [], ◌∷◌, ◌++◌, All,
}
use hpd_handheld_power_daemo.Capability.Power.{PowerEnvelopeLimits, PowerEnvelopeTarget, target_eq}
use hpd_handheld_power_daemo.Capability.Profile.{ProfileName, TdpPreset, RuntimeConfig, profile_eq}
use hpd_handheld_power_daemo.Capability.FanCurve.{FanCurvePreset, FanCurveSelection}
use hpd_handheld_power_daemo.Core.State.{ProfileState, DcSnapshot}
use hpd_handheld_power_daemo.Core.Effect.{Effect}
use hpd_handheld_power_daemo.Core.Transition.{Transition}
use hpd_handheld_power_daemo.Core.EnvelopeBounds.{
  IsWithin-of_validate, IsWithin, IsWellFormed, IsBounded, IsSavedWithin,
  derive_boosted_envelope-IsWithin,
}
use hpd_handheld_power_daemo.Core.Reducer.{
  unlock_while_plugged, reassert_clock, lock_while_plugged, plugged, reassert_all,
  resumed_on_battery, ac_power_changed, set_ac_max_performance, system_resumed, unplugged,
  ReducerOutput, Reduced, push, gate, follow_fan, follow_gpu, follow_tier, apply_power_target,
  set_spl, set_envelope, reduce_set_spl, reduce_set_preset, preset_watts, set_profile,
  restore_dc_state, restore_profile, restore_envelope, restore_curve, restore_gpu_clock,
  restore_tier, force_ac_max_performance, pin_gpu_clock,
}

-- An envelope that is written lies within the limits.
abbrev pub IsSafe : PowerEnvelopeLimits → Effect → Type 0
IsSafe l (Effect.apply_power_envelope t) = IsWithin t l
IsSafe l _ = Unit

abbrev pub AreSafe : PowerEnvelopeLimits → ReducerOutput → Type 0
AreSafe l o = All (IsSafe l) o.effects

pub All-snoc :
    (l : PowerEnvelopeLimits) (es : List Effect) (e : Effect)
    → All (IsSafe l) es
    → IsSafe l e
    → All (IsSafe l) (es ++ e ∷ [])
All-snoc l [] e h k = (k, tt)
All-snoc l (x ∷ es) e h k = (h.0, All-snoc l es e h.1 k)

module _ (l : PowerEnvelopeLimits) (config : RuntimeConfig) where
  pub push-AreSafe :
      (o : ReducerOutput) (e : Effect) → AreSafe l o → IsSafe l e → AreSafe l (push o e)
  push-AreSafe o e h k = All-snoc l o.effects e h k

  pub follow_fan-AreSafe :
      (tier : FanCurvePreset) (o : ReducerOutput) → AreSafe l o → AreSafe l (follow_fan tier o)
  unfolding follow_fan
  follow_fan-AreSafe tier o h =
      ground (arith, push-AreSafe o (Effect.apply_fan_curve (FanCurveSelection.preset tier)) h)

  pub follow_gpu-AreSafe :
      (tier : FanCurvePreset) (o : ReducerOutput) → AreSafe l o → AreSafe l (follow_gpu tier o)
  unfolding follow_gpu
  follow_gpu-AreSafe tier o h = ground (arith, push-AreSafe o (Effect.apply_gpu_clock_range tier) h)

  pub follow_tier-AreSafe :
      (tier : FanCurvePreset) (o : ReducerOutput) → AreSafe l o → AreSafe l (follow_tier tier o)
  unfolding follow_tier
  follow_tier-AreSafe tier o h = grind (arith, follow_fan-AreSafe, follow_gpu-AreSafe)

  pub apply_power_target-AreSafe :
      (s : ProfileState) (t : PowerEnvelopeTarget)
      → IsWithin t l
      → AreSafe l (apply_power_target s t l config)
  unfolding apply_power_target
  apply_power_target-AreSafe s t h = grind (arith, All-snoc, follow_tier-AreSafe)

  pub force-AreSafe :
      (s : ProfileState) → IsWellFormed l → AreSafe l (force_ac_max_performance s l config)
  unfolding force_ac_max_performance pin_gpu_clock
  force-AreSafe s w =
      ground
        (arith, derive_boosted_envelope-IsWithin l config w l.spl_max w.spl_range (omega arith))

  pub set_profile-AreSafe :
      (s : ProfileState) (p : ProfileName) → IsBounded s l → AreSafe l (set_profile s p)
  unfolding set_profile
  set_profile-AreSafe s p b = ground arith

  pub restore-AreSafe :
      (s : ProfileState) (snap : DcSnapshot)
      → IsWithin snap.power_target l
      → AreSafe l (restore_dc_state s snap)
  unfolding restore_dc_state restore_profile restore_envelope restore_curve restore_gpu_clock
      restore_tier
  restore-AreSafe s snap h = grind (arith, All-snoc)

  pub set_spl-AreSafe :
      (s : ProfileState) (w : ℕ) (o : ReducerOutput) → set_spl s w l config ≡ ok o → AreSafe l o
  unfolding set_spl
  set_spl-AreSafe s w o h = grind (arith, apply_power_target-AreSafe, IsWithin-of_validate)

  pub set_envelope-AreSafe :
      (s : ProfileState) (t : PowerEnvelopeTarget) (o : ReducerOutput)
      → set_envelope s t l config ≡ ok o
      → AreSafe l o
  unfolding set_envelope
  set_envelope-AreSafe s t o h = grind (arith, apply_power_target-AreSafe, IsWithin-of_validate)

  pub gate-AreSafe :
      (s : ProfileState) (t : Transition) (arm : Reduced) (o : ReducerOutput)
      → gate s t arm ≡ ok o
      → (arm ≡ ok o → AreSafe l o)
      → AreSafe l o
  unfolding gate
  gate-AreSafe s t arm o h k = ground arith

  pub gated-AreSafe :
      (s : ProfileState) (t : Transition) (a o : ReducerOutput)
      → AreSafe l a
      → gate s t (ok a) ≡ ok o
      → AreSafe l o
  gated-AreSafe s t a o h g = gate-AreSafe s t (ok a) o g (λ e. ground arith)

  pub reduce_set_preset-AreSafe :
      (s : ProfileState) (p : TdpPreset) (o : ReducerOutput)
      → reduce_set_preset s p l config ≡ ok o
      → AreSafe l o
  unfolding reduce_set_preset reduce_set_spl
  reduce_set_preset-AreSafe s p o h =
      gate-AreSafe s _ _ o h
        (λ h'. gate-AreSafe s _ _ o h' (set_spl-AreSafe s (preset_watts p l config) o))

  pub unplugged-AreSafe :
      (s : ProfileState) (saved : Option DcSnapshot) (o : ReducerOutput)
      → IsSavedWithin saved l
      → unplugged saved s l config ≡ ok o
      → AreSafe l o
  unfolding unplugged
  unplugged-AreSafe s none o v h = ground (
    arith,
    reduce_set_preset-AreSafe (record s { is_ac_connected = false; fan_follows_tdp = true })
        TdpPreset.balanced o,
  )
  unplugged-AreSafe s (some snap) o v h = ground (arith, restore-AreSafe s snap v)

  pub ac_power_changed-AreSafe :
      (s : ProfileState) (on : Bool) (o : ReducerOutput)
      → IsWellFormed l
      → IsBounded s l
      → ac_power_changed s on l config ≡ ok o
      → AreSafe l o
  unfolding ac_power_changed plugged
  ac_power_changed-AreSafe s true o w b h = ground (
    arith,
    force-AreSafe s w,
    push-AreSafe (force_ac_max_performance s l config) Effect.persist_state,
  )
  ac_power_changed-AreSafe s false o w b h = grind (arith, unplugged-AreSafe s s.last_dc_state)

  pub resumed_on_battery-AreSafe :
      (s : ProfileState) (saved : Option DcSnapshot)
      → IsSavedWithin saved l
      → IsBounded s l
      → AreSafe l (resumed_on_battery saved s)
  unfolding resumed_on_battery reassert_all reassert_clock
  resumed_on_battery-AreSafe s none v b = ground arith
  resumed_on_battery-AreSafe s (some snap) v b =
      push-AreSafe (restore_dc_state s snap) _ (restore-AreSafe s snap v) tt

  pub system_resumed-AreSafe :
      (s : ProfileState) → IsWellFormed l → IsBounded s l → AreSafe l (system_resumed s l config)
  unfolding system_resumed
  system_resumed-AreSafe s w b = ground (
    arith,
    resumed_on_battery-AreSafe s s.last_dc_state b.saved b,
    push-AreSafe
        (push (force_ac_max_performance s l config)
          (Effect.apply_charge_threshold s.charge_end_threshold))
        Effect.persist_state,
    push-AreSafe (force_ac_max_performance s l config)
        (Effect.apply_charge_threshold s.charge_end_threshold),
    force-AreSafe s w,
  )

  pub unlock_while_plugged-AreSafe :
      (s : ProfileState) (saved : Option DcSnapshot)
      → IsSavedWithin saved l
      → AreSafe l (unlock_while_plugged saved s)
  unfolding unlock_while_plugged
  unlock_while_plugged-AreSafe s none v = (tt, tt)
  unlock_while_plugged-AreSafe s (some snap) v = restore-AreSafe s snap v

  pub set_ac_max_performance-AreSafe :
      (s : ProfileState) (on : Bool)
      → IsWellFormed l
      → IsBounded s l
      → AreSafe l (set_ac_max_performance s on l config)
  unfolding set_ac_max_performance lock_while_plugged
  set_ac_max_performance-AreSafe s on w b = ground (
    arith,
    unlock_while_plugged-AreSafe s s.last_dc_state b.saved,
    push-AreSafe (force_ac_max_performance s l config) Effect.persist_state,
    force-AreSafe s w,
  )
