-- ===== src/Core/Durability.antt =====
-- The state file, and the transitions that have the state saved (hpd-core/src/reducer.rs, state.rs).
use hpd_handheld_power_daemo.Core.EffectsReachState.{is_sync}
use hpd_handheld_power_daemo.Capability.Charge.{default_charge_threshold}
use hpd_handheld_power_daemo.Core.DefaultsSteps.{steps_of_defaults, DefaultsSteps}
use hpd_handheld_power_daemo.Prelude.{
  not, ap, sym, ℕ, ◌≡◌, refl, ◌∙◌, Bool, true, false, Option, none, some, List, [], ◌∷◌, ◌++◌, any,
  ok, arith,
}
use hpd_handheld_power_daemo.Capability.Power.{PowerEnvelopeLimits, PowerEnvelopeTarget}
use hpd_handheld_power_daemo.Capability.Profile.{RuntimeConfig, TdpPreset, ProfileName}
use hpd_handheld_power_daemo.Core.State.{ProfileState, DcSnapshot}
use hpd_handheld_power_daemo.Core.Effect.{Effect}
use hpd_handheld_power_daemo.Core.Transition.{Transition}
use hpd_handheld_power_daemo.Core.Reducer.{
  ac_power_changed, reset_fan_curve, set_manual_curve, enable_gpu_auto_follow,
  reduce_restore_defaults, reduce_reset_fan_curve, reduce_enable_gpu_auto_follow,
  reduce_set_custom_fan_curve, reduce_set_cooling_level, reset_gpu_clocks, restore_tier,
  restore_gpu_clock, unlock_while_plugged, lock_while_plugged, reduce_reset_gpu_clocks,
  set_connected, charge_threshold_changed, reset_managed_clock, reduce_enable_fan_auto, plugged,
  enable_fan_auto, set_ac_max_performance, ReducerOutput, Reduced, reduce, push, gate, is_persist,
  collapse_persist, apply_power_target, set_spl, set_envelope, preset_watts, reduce_set_preset,
  reduce_set_spl, reduce_set_envelope, set_profile, reduce_set_profile, restore_dc_state,
}

-- The fields that the state file holds: `is_ac_connected` and `ac_locked` are `#[serde(skip)]`.
unfoldable pub on_disk : ProfileState → ProfileState
on_disk s = record s { is_ac_connected = false; ac_locked = false }

-- The output saves the state, or there is nothing new to save.
abbrev pub IsDurable : ProfileState → ReducerOutput → Type 0
IsDurable s o = any is_persist o.effects ≡ false → on_disk o.new_state ≡ on_disk s

any-append-false :
    (es es' : List Effect)
    → any is_persist (es ++ es') ≡ false
    → (any is_persist es ≡ false) × (any is_persist es' ≡ false)
any-append-false [] es' h = (refl, h)
any-append-false (e ∷ es) es' h = ground (arith, any-append-false es es')

persists-last : (es : List Effect) → any is_persist (es ++ Effect.persist_state ∷ []) ≡ true
persists-last [] = refl
persists-last (e ∷ es) = ground (arith, persists-last es)

push-IsDurable : (s : ProfileState) (o : ReducerOutput) → IsDurable s (push o Effect.persist_state)
push-IsDurable s o h = ground (arith, persists-last o.effects)

module _ (limits : PowerEnvelopeLimits) (config : RuntimeConfig) where
  apply_power_target-IsDurable :
      (s : ProfileState) (t : PowerEnvelopeTarget)
      → IsDurable s (apply_power_target s t limits config)
  unfolding apply_power_target
  apply_power_target-IsDurable s t h = grind (arith, push-IsDurable)

  set_spl-IsDurable :
      (s : ProfileState) (w : ℕ) (o : ReducerOutput)
      → set_spl s w limits config ≡ ok o
      → IsDurable s o
  unfolding set_spl
  set_spl-IsDurable s w o h k = grind (arith, apply_power_target-IsDurable)

  set_envelope-IsDurable :
      (s : ProfileState) (t : PowerEnvelopeTarget) (o : ReducerOutput)
      → set_envelope s t limits config ≡ ok o
      → IsDurable s o
  unfolding set_envelope
  set_envelope-IsDurable s t o h k = grind (arith, apply_power_target-IsDurable)

  gate-IsDurable :
      (s : ProfileState) (t : Transition) (arm : Reduced) (o : ReducerOutput)
      → gate s t arm ≡ ok o
      → (arm ≡ ok o → IsDurable s o)
      → IsDurable s o
  unfolding gate
  gate-IsDurable s t arm o h k n = ground arith

  set_preset-IsDurable :
      (s : ProfileState) (p : TdpPreset) (o : ReducerOutput)
      → reduce_set_preset s p limits config ≡ ok o
      → IsDurable s o
  unfolding reduce_set_preset reduce_set_spl
  set_preset-IsDurable s p o h =
      gate-IsDurable s _ _ o h
        (λ h'. gate-IsDurable s _ _ o h' (set_spl-IsDurable s (preset_watts p limits config) o))

  set_profile-IsDurable : (s : ProfileState) (p : ProfileName) → IsDurable s (set_profile s p)
  unfolding set_profile
  set_profile-IsDurable s p h = grind (arith, push-IsDurable)

  gated-IsDurable :
      (s : ProfileState) (t : Transition) (a o : ReducerOutput)
      → IsDurable s a
      → gate s t (ok a) ≡ ok o
      → IsDurable s o
  gated-IsDurable s t a o d h = gate-IsDurable s t (ok a) o h (λ e. ground arith)

  enable_fan_auto-IsDurable : (s : ProfileState) → IsDurable s (enable_fan_auto s limits config)
  unfolding enable_fan_auto
  enable_fan_auto-IsDurable s h = ground arith

  reset_managed_clock-IsDurable :
      (s : ProfileState) (o : ReducerOutput) → reset_managed_clock s ≡ ok o → IsDurable s o
  unfolding reset_managed_clock reduce_reset_gpu_clocks reset_gpu_clocks gate
  reset_managed_clock-IsDurable s o h k = ground arith

  charge_threshold_changed-IsDurable :
      (s : ProfileState) (n : ℕ) → IsDurable s (charge_threshold_changed s n)
  unfolding charge_threshold_changed
  charge_threshold_changed-IsDurable s n h = ground arith

  plugged-IsDurable :
      (s : ProfileState)
      → s.is_ac_connected ≡ false
      → IsDurable s (set_connected true (plugged s limits config))
  unfolding plugged on_disk
  plugged-IsDurable s off h = grind (arith, persists-last)

restore-persists :
    (s : ProfileState) (snap : DcSnapshot) → any is_persist (restore_dc_state s snap).effects ≡ true
unfolding restore_dc_state restore_gpu_clock restore_tier
restore-persists s snap = grind (arith, persists-last)

restore-IsDurable : (s : ProfileState) (snap : DcSnapshot) → IsDurable s (restore_dc_state s snap)
restore-IsDurable s snap h = ground (arith, restore-persists s snap)

unlock_while_plugged-persists :
    (s : ProfileState) (snap : Option DcSnapshot)
    → any is_persist (unlock_while_plugged snap s).effects ≡ true
unfolding unlock_while_plugged
unlock_while_plugged-persists s none = refl
unlock_while_plugged-persists s (some snap) = restore-persists s snap

module _ (limits : PowerEnvelopeLimits) (config : RuntimeConfig) where
  set_ac_max_performance-IsDurable :
      (s : ProfileState) (on : Bool) → IsDurable s (set_ac_max_performance s on limits config)
  unfolding set_ac_max_performance lock_while_plugged
  set_ac_max_performance-IsDurable s on h =
      grind (arith, persists-last, unlock_while_plugged-persists s s.last_dc_state)

  collapse-persists :
      (es : List Effect) → any is_persist (collapse_persist es) ≡ false → any is_persist es ≡ false
  unfolding collapse_persist
  collapse-persists es h = grind (arith, persists-last)

  steps-IsDurable :
      (s : ProfileState) (o : ReducerOutput) → DefaultsSteps s limits config o → IsDurable s o
  unfolding reduce_set_profile reduce_enable_fan_auto
  steps-IsDurable s o d h =
      let charged = charge_threshold_changed d.profiled.new_state default_charge_threshold in
      let es =
        d.powered.effects
        ++ (d.profiled.effects ++ (charged.effects ++ (d.cooled.effects ++ d.clocked.effects))) in
      let all_quiet =
        collapse-persists es
          (ap (λ (r : ReducerOutput). any is_persist r.effects) (sym d.result) ∙ h) in
      let (q1, r1) = any-append-false d.powered.effects _ all_quiet in
      let (q2, r2) = any-append-false d.profiled.effects _ r1 in
      let (q3, r3) = any-append-false charged.effects _ r2 in
      let (q4, q5) = any-append-false d.cooled.effects _ r3 in
      ap (λ (r : ReducerOutput). on_disk r.new_state) d.result
      ∙ reset_managed_clock-IsDurable limits config d.cooled.new_state d.clocked d.clock q5
      ∙ gated-IsDurable limits config _ _ _ d.cooled (enable_fan_auto-IsDurable limits config _)
          d.cool q4
      ∙ charge_threshold_changed-IsDurable limits config d.profiled.new_state _ q3
      ∙ gated-IsDurable limits config _ _ _ d.profiled (set_profile-IsDurable limits config _ _)
          d.profile q2
      ∙ set_preset-IsDurable limits config s _ d.powered d.power q1

-- The edge to battery, and the resume, which saves nothing where it gives up a clock: these are not
-- covered. The rollbacks are not saved.
abbrev pub is_saved : Transition → Bool
is_saved (Transition.ac_power_changed on) = on
is_saved Transition.system_resumed = false
is_saved t = not (is_sync t)

module _ (limits : PowerEnvelopeLimits) (config : RuntimeConfig) where
  -- A transition other than a rollback, a resume and an unplug, which succeeds and does not ask to
  -- save the state, leaves all that the state file holds as it was.
  pub on_disk-reduce :
      (s : ProfileState) (t : Transition) {o : ReducerOutput}
      → is_saved t ≡ true
      → reduce s t limits config ≡ ok o
      → any is_persist o.effects ≡ false
      → on_disk o.new_state ≡ on_disk s
  unfolding reduce reduce_set_envelope reduce_set_profile reduce_set_cooling_level
      reduce_set_custom_fan_curve reduce_enable_gpu_auto_follow reduce_reset_gpu_clocks
      reduce_enable_fan_auto reduce_reset_fan_curve reduce_restore_defaults reduce_set_spl
      enable_gpu_auto_follow reset_gpu_clocks reset_fan_curve set_manual_curve ac_power_changed
  on_disk-reduce s (Transition.set_preset p) {o} n h q =
      set_preset-IsDurable limits config s p o h q
  on_disk-reduce s (Transition.set_spl w) {o} n h q =
      gate-IsDurable limits config s _ _ o h (set_spl-IsDurable limits config s w o) q
  on_disk-reduce s (Transition.set_envelope t) {o} n h q =
      gate-IsDurable limits config s _ _ o h (set_envelope-IsDurable limits config s t o) q
  on_disk-reduce s (Transition.set_profile p) {o} n h q =
      gated-IsDurable limits config s _ _ o (set_profile-IsDurable limits config s p) h q
  on_disk-reduce s (Transition.set_cooling_level p) {o} n h q =
      gated-IsDurable limits config s _ _ o (λ q'. ground arith) h q
  on_disk-reduce s (Transition.set_custom_fan_curve c g) {o} n h q =
      gated-IsDurable limits config s _ _ o (λ q'. ground arith) h q
  on_disk-reduce s Transition.enable_gpu_auto_follow {o} n h q =
      gated-IsDurable limits config s _ _ o (λ q'. ground arith) h q
  on_disk-reduce s Transition.reset_gpu_clocks {o} n h q =
      gated-IsDurable limits config s _ _ o (λ q'. ground arith) h q
  on_disk-reduce s (Transition.charge_threshold_changed c) n h q =
      ground (arith, charge_threshold_changed-IsDurable limits config s c)
  on_disk-reduce s (Transition.ac_power_changed true) {o} n h q =
      ground (arith, plugged-IsDurable limits config s)
  on_disk-reduce s (Transition.set_ac_max_performance b) n h q =
      ground (arith, set_ac_max_performance-IsDurable limits config s b)
  on_disk-reduce s Transition.enable_fan_auto {o} n h q =
      gated-IsDurable limits config s _ _ o (enable_fan_auto-IsDurable limits config s) h q
  on_disk-reduce s Transition.reset_fan_curve {o} n h q =
      gated-IsDurable limits config s _ _ o (λ q'. ground arith) h q
  on_disk-reduce s Transition.restore_defaults {o} n h q =
      gate-IsDurable limits config s _ _ o h
        (λ e. steps-IsDurable limits config s o (steps_of_defaults s limits config e)) q
  on_disk-reduce s t n h q = ground arith
