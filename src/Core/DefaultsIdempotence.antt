-- ===== src/Core/DefaultsIdempotence.antt =====
-- `RestoreDefaults` (hpd-core/src/reducer.rs), and a second one after it.
use hpd_handheld_power_daemo.Prelude.{
  ℕ, ◌≡◌, ◌∙◌, true, false, ◌&&◌, none, [], ok, arith, Bool-cases, inl, inr,
}
use hpd_handheld_power_daemo.Capability.Charge.{default_charge_threshold}
use hpd_handheld_power_daemo.Capability.Power.{
  PowerEnvelopeLimits, PowerEnvelopeTarget, target_beq_iff, target_eq,
}
use hpd_handheld_power_daemo.Capability.Profile.{
  ProfileName, TdpPreset, RuntimeConfig, profile_beq_iff,
}
use hpd_handheld_power_daemo.Capability.FanCurve.{FanCurvePreset}
use hpd_handheld_power_daemo.Core.State.{ProfileState}
use hpd_handheld_power_daemo.Core.Transition.{Transition}
use hpd_handheld_power_daemo.Core.DefaultsSteps.{DefaultsSteps, steps_of_defaults}
use hpd_handheld_power_daemo.Core.Reducer.{
  ReducerOutput, reduce, output, gate, follow_fan, follow_gpu, follow_tier, apply_power_target,
  set_spl, preset_watts, reduce_set_spl, reduce_set_preset, set_profile, reduce_set_profile,
  charge_threshold_changed, enable_fan_auto, reduce_enable_fan_auto, reset_gpu_clocks,
  reduce_reset_gpu_clocks, reset_managed_clock, collapse_persist, without_persist, restore_defaults,
  reduce_restore_defaults,
}

-- The lock test reads two fields that no step changes.
pub record SameLock (s s' : ProfileState) : Type 0 where
  pub connected : s'.is_ac_connected ≡ s.is_ac_connected
  pub locked : s'.ac_max_performance ≡ s.ac_max_performance

module _ (tier : FanCurvePreset) (o : ReducerOutput) where
  follow_tier-frame :
      ((follow_tier tier o).new_state.power_target ≡ o.new_state.power_target)
      × SameLock o.new_state (follow_tier tier o).new_state
  unfolding follow_tier follow_fan follow_gpu
  follow_tier-frame = ground arith

module _ (limits : PowerEnvelopeLimits) (config : RuntimeConfig) where
  apply_power_target-frame :
      (s : ProfileState) (t : PowerEnvelopeTarget)
      → ((apply_power_target s t limits config).new_state.power_target ≡ t)
        × SameLock s (apply_power_target s t limits config).new_state
  unfolding apply_power_target
  apply_power_target-frame s t = grind (arith, follow_tier-frame, target_beq_iff s.power_target t)

  apply_power_target-settled :
      (s : ProfileState) (t : PowerEnvelopeTarget)
      → s.power_target ≡ t
      → apply_power_target s t limits config ≡ output s []
  unfolding apply_power_target
  apply_power_target-settled s t e = ground (arith, target_beq_iff s.power_target t)

  set_spl-frame :
      (s : ProfileState) (w : ℕ) (o : ReducerOutput)
      → set_spl s w limits config ≡ ok o
      → SameLock s o.new_state
  unfolding set_spl
  set_spl-frame s w o h = grind (arith, apply_power_target-frame)

  set_spl-settled :
      (s s' : ProfileState) (w : ℕ) (o : ReducerOutput)
      → set_spl s w limits config ≡ ok o
      → s'.power_target ≡ o.new_state.power_target
      → set_spl s' w limits config ≡ ok (output s' [])
  unfolding set_spl
  set_spl-settled s s' w o h e = grind (arith, apply_power_target-frame, apply_power_target-settled)

  set_preset-frame :
      (s : ProfileState) (p : TdpPreset) (o : ReducerOutput)
      → reduce_set_preset s p limits config ≡ ok o
      → SameLock s o.new_state
  unfolding reduce_set_preset reduce_set_spl gate
  set_preset-frame s p o h = ground (arith, set_spl-frame s (preset_watts p limits config) o)

  set_preset-settled :
      (s s' : ProfileState) (p : TdpPreset) (o : ReducerOutput)
      → SameLock s s'
      → reduce_set_preset s p limits config ≡ ok o
      → s'.power_target ≡ o.new_state.power_target
      → reduce_set_preset s' p limits config ≡ ok (output s' [])
  unfolding reduce_set_preset reduce_set_spl gate
  set_preset-settled s s' p o f h e =
      ground (arith, set_spl-settled s s' (preset_watts p limits config) o)

  -- The state that `RestoreDefaults` leaves alone.
  pub record IsDefault (s : ProfileState) : Type 0 where
    pub preset : reduce_set_preset s TdpPreset.balanced limits config ≡ ok (output s [])
    pub profile : s.active_profile ≡ ProfileName.performance
    pub charge : s.charge_end_threshold ≡ default_charge_threshold
    pub cooling : s.fan_follows_tdp ≡ true
    pub clock : s.active_gpu_clock ≡ none

  restore_defaults-settled :
      (s : ProfileState) → IsDefault s → restore_defaults s limits config ≡ ok (output s [])
  unfolding restore_defaults reduce_set_profile set_profile charge_threshold_changed
      reduce_enable_fan_auto enable_fan_auto reset_managed_clock gate collapse_persist
      without_persist
  restore_defaults-settled s d =
      rw d.preset (ground (arith, profile_beq_iff s.active_profile ProfileName.performance))

  -- The lock is off.
  abbrev pub IsUnlocked : ProfileState → Type 0
  IsUnlocked s = (s.is_ac_connected && s.ac_max_performance) ≡ false

  set_profile-facts :
      (s : ProfileState) (o : ReducerOutput)
      → IsUnlocked s
      → reduce_set_profile s ProfileName.performance ≡ ok o
      → (o.new_state.active_profile ≡ ProfileName.performance)
        × (o.new_state.power_target ≡ s.power_target)
        × SameLock s o.new_state
  unfolding reduce_set_profile set_profile gate
  set_profile-facts s o u h =
      ground (arith, profile_beq_iff s.active_profile ProfileName.performance)

  charge-facts :
      (s : ProfileState) (n : ℕ)
      → let s' = (charge_threshold_changed s n).new_state in
        (s'.charge_end_threshold ≡ n)
        × (s'.active_profile ≡ s.active_profile)
        × (s'.power_target ≡ s.power_target)
        × SameLock s s'
  unfolding charge_threshold_changed
  charge-facts s n = ground arith

  fan-facts :
      (s : ProfileState) (o : ReducerOutput)
      → IsUnlocked s
      → reduce_enable_fan_auto s limits config ≡ ok o
      → (o.new_state.fan_follows_tdp ≡ true)
        × (o.new_state.charge_end_threshold ≡ s.charge_end_threshold)
        × (o.new_state.active_profile ≡ s.active_profile)
        × (o.new_state.power_target ≡ s.power_target)
        × SameLock s o.new_state
  unfolding reduce_enable_fan_auto enable_fan_auto gate
  fan-facts s o u h = ground arith

  clock-facts :
      (s : ProfileState) (o : ReducerOutput)
      → IsUnlocked s
      → reset_managed_clock s ≡ ok o
      → (o.new_state.active_gpu_clock ≡ none)
        × (o.new_state.fan_follows_tdp ≡ s.fan_follows_tdp)
        × (o.new_state.charge_end_threshold ≡ s.charge_end_threshold)
        × (o.new_state.active_profile ≡ s.active_profile)
        × (o.new_state.power_target ≡ s.power_target)
        × SameLock s o.new_state
  unfolding reset_managed_clock reduce_reset_gpu_clocks reset_gpu_clocks gate
  clock-facts s o u h = ground arith

  IsUnlocked-SameLock : (s s' : ProfileState) → SameLock s s' → IsUnlocked s → IsUnlocked s'
  IsUnlocked-SameLock s s' f u = ground arith

  SameLock-trans : (a b c : ProfileState) → SameLock a b → SameLock b c → SameLock a c
  SameLock-trans a b c f g = ground arith

  steps-IsDefault :
      (s : ProfileState) (o : ReducerOutput)
      → IsUnlocked s
      → DefaultsSteps s limits config o
      → IsDefault o.new_state
  steps-IsDefault s o u d =
      let a = d.powered.new_state in
      let b = d.profiled.new_state in
      let c = (charge_threshold_changed b default_charge_threshold).new_state in
      let e = d.cooled.new_state in
      let fa = set_preset-frame s TdpPreset.balanced d.powered d.power in
      let ua = IsUnlocked-SameLock s a fa u in
      let kb = set_profile-facts a d.profiled ua d.profile in
      let ub = IsUnlocked-SameLock a b kb.2 ua in
      let kc = charge-facts b default_charge_threshold in
      let uc = IsUnlocked-SameLock b c kc.3 ub in
      let ke = fan-facts c d.cooled uc d.cool in
      let kg = clock-facts e d.clocked (IsUnlocked-SameLock c e ke.4 uc) d.clock in
      rw d.result (record {
        preset =
            set_preset-settled s d.clocked.new_state TdpPreset.balanced d.powered
              (SameLock-trans s a _ fa (
                SameLock-trans a b _ kb.2
                  (SameLock-trans b c _ kc.3 (SameLock-trans c e _ ke.4 kg.5))))
              d.power (kg.4 ∙ ke.3 ∙ kc.2 ∙ kb.1);
        profile = kg.3 ∙ ke.2 ∙ kc.1 ∙ kb.0;
        charge = kg.2 ∙ ke.1 ∙ kc.0;
        cooling = kg.1 ∙ ke.0;
        clock = kg.0;
      })

  locked_twice :
      (s : ProfileState) (o : ReducerOutput)
      → (s.is_ac_connected && s.ac_max_performance) ≡ true
      → reduce s Transition.restore_defaults limits config ≡ ok o
      → reduce o.new_state Transition.restore_defaults limits config ≡ ok (output o.new_state [])
  unfolding reduce reduce_restore_defaults gate
  locked_twice s o lock h = ground arith

  settled_gate :
      (s : ProfileState)
      → IsDefault s
      → reduce s Transition.restore_defaults limits config ≡ ok (output s [])
  unfolding reduce reduce_restore_defaults gate
  settled_gate s d = ground (arith, restore_defaults-settled s d)

  -- `RestoreDefaults`, where it succeeds and the lock does not ignore it, leaves the state with the
  -- preset Balanced in force, the profile Performance, the default charge threshold, automatic
  -- cooling, and the GPU clock with the firmware.
  pub restore_defaults-IsDefault :
      (s : ProfileState) {o : ReducerOutput}
      → IsUnlocked s
      → reduce s Transition.restore_defaults limits config ≡ ok o
      → IsDefault o.new_state
  unfolding reduce reduce_restore_defaults gate
  restore_defaults-IsDefault s {o} u h =
      steps-IsDefault s o u (steps_of_defaults s limits config (ground arith))

  -- After a `RestoreDefaults` that succeeds, a second one changes nothing and has no effect, under
  -- the lock or not.
  pub restore_defaults_twice :
      (s : ProfileState) {o : ReducerOutput}
      → reduce s Transition.restore_defaults limits config ≡ ok o
      → reduce o.new_state Transition.restore_defaults limits config ≡ ok (output o.new_state [])
  restore_defaults_twice s {o} h = elim (Bool-cases (s.is_ac_connected && s.ac_max_performance)) [
    | inl lock ↦ locked_twice s o lock h
    | inr u ↦ settled_gate o.new_state (restore_defaults-IsDefault s u h)
  ]
