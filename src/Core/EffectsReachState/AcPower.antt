-- ===== src/Core/EffectsReachState/AcPower.antt =====
-- The effects of `AcPowerChanged`, `SystemResumed` and `SetAcMaxPerformance`
-- (hpd-core/src/reducer.rs).
use hpd_handheld_power_daemo.Core.EffectsReachState.Restored.{restore-Reaches}
use hpd_handheld_power_daemo.Core.EffectsReachState.Writes.{
  Reaches-persist, set_preset-Reaches, force-Reaches, Reaches,
}
use hpd_handheld_power_daemo.Prelude.{
  Bool-cases, inl, inr, ℕ, inr, inl, ◌&&◌, Bool-cases, true, false, refl, some, Option, ℕ, ◌≡◌,
  Bool, [], ◌∷◌, none, ok, arith,
}
use hpd_handheld_power_daemo.Core.Reducer.{
  restore_dc_state, ReducerOutput, force_ac_max_performance, pin_gpu_clock, plugged, unplugged,
  reassert_all, reassert_clock, lock_while_plugged, unlock_while_plugged, resumed_on_battery,
  ac_power_changed, system_resumed, set_ac_max_performance, push,
}
use hpd_handheld_power_daemo.Core.EmbeddedController.{Controller, run, run-append, described}
use hpd_handheld_power_daemo.Core.RestoredState.{restore_dc_state-new_state}
use hpd_handheld_power_daemo.Core.Effect.{Effect}
use hpd_handheld_power_daemo.Core.State.{ProfileState, DcSnapshot}
use hpd_handheld_power_daemo.Capability.Power.{PowerEnvelopeLimits, target_eq}
use hpd_handheld_power_daemo.Capability.Profile.{TdpPreset, RuntimeConfig, profile_eq}
use hpd_handheld_power_daemo.Capability.FanCurve.{selection_eq}

Reaches-charge :
    (c : Controller) (o : ReducerOutput) {n : ℕ}
    → Reaches c o
    → o.new_state.charge_end_threshold ≡ n
    → Reaches c (push o (Effect.apply_charge_threshold n))
unfolding run described
Reaches-charge c o {n} h e =
    ground (arith, run-append c o.effects (Effect.apply_charge_threshold n ∷ []))

reassert_all-Reaches :
    (c : Controller) (s : ProfileState) → c.clock ≡ s.active_gpu_clock → Reaches c (reassert_all s)
unfolding reassert_all reassert_clock run described
reassert_all-Reaches c s h = ground arith

restore-charge :
    (s : ProfileState) (snap : DcSnapshot)
    → (restore_dc_state s snap).new_state.charge_end_threshold ≡ s.charge_end_threshold
restore-charge s snap = rw restore_dc_state-new_state

resumed_on_battery-Reaches :
    (snap : Option DcSnapshot) (s : ProfileState)
    → Reaches (described s) (resumed_on_battery snap s)
unfolding resumed_on_battery
resumed_on_battery-Reaches none s = reassert_all-Reaches (described s) s (unfold described in refl)
resumed_on_battery-Reaches (some snap) s =
    Reaches-charge (described s) (restore_dc_state s snap) (restore-Reaches s snap)
      (restore-charge s snap)

-- The maximum of a boot or resume on AC, whatever the device had before, but for its clock.
forced_again-Reaches :
    (s : ProfileState) (limits : PowerEnvelopeLimits) (config : RuntimeConfig) (c : Controller)
    → c.clock ≡ s.active_gpu_clock
    → Reaches c (
        push
          (push
            (force_ac_max_performance s limits config)
            (Effect.apply_charge_threshold s.charge_end_threshold))
          Effect.persist_state)
unfolding force_ac_max_performance pin_gpu_clock run described
forced_again-Reaches s limits config c h = ground arith

module _ (s : ProfileState) (limits : PowerEnvelopeLimits) (config : RuntimeConfig) where
  plugged-Reaches : Reaches (described s) (plugged s limits config)
  unfolding plugged run described
  plugged-Reaches = grind (arith, force-Reaches, Reaches-persist)

  pub system_resumed-Reaches : Reaches (described s) (system_resumed s limits config)
  unfolding system_resumed
  system_resumed-Reaches = elim (Bool-cases (s.is_ac_connected && s.ac_max_performance)) [
    | inl e ↦ rw e (forced_again-Reaches s limits config (described s) (unfold described in refl))
    | inr e ↦ rw e (resumed_on_battery-Reaches s.last_dc_state s)
  ]

  lock_while_plugged-Reaches : Reaches (described s) (lock_while_plugged s limits config)
  unfolding lock_while_plugged run described
  lock_while_plugged-Reaches = grind (arith, force-Reaches, Reaches-persist)

  unlock_while_plugged-Reaches :
      (snap : Option DcSnapshot) → Reaches (described s) (unlock_while_plugged snap s)
  unfolding unlock_while_plugged run
  unlock_while_plugged-Reaches none = refl
  unlock_while_plugged-Reaches (some snap) = restore-Reaches s snap

  pub set_ac_max_performance-Reaches :
      (b : Bool) → Reaches (described s) (set_ac_max_performance s b limits config)
  unfolding set_ac_max_performance described run
  set_ac_max_performance-Reaches b =
      ground (arith, lock_while_plugged-Reaches, unlock_while_plugged-Reaches s.last_dc_state)

unplugged-Reaches :
    (s : ProfileState) (limits : PowerEnvelopeLimits) (config : RuntimeConfig)
    (snap : Option DcSnapshot) (o : ReducerOutput)
    → unplugged snap s limits config ≡ ok o
    → Reaches (described s) o
unfolding unplugged run described
unplugged-Reaches s limits config none o h = ground (
  arith,
  set_preset-Reaches (record s { is_ac_connected = false; fan_follows_tdp = true }) limits config
      TdpPreset.balanced o,
)
unplugged-Reaches s limits config (some snap) o h = ground (arith, restore-Reaches s snap)

pub ac_power_changed-Reaches :
    (s : ProfileState) (limits : PowerEnvelopeLimits) (config : RuntimeConfig) (b : Bool)
    (o : ReducerOutput)
    → ac_power_changed s b limits config ≡ ok o
    → Reaches (described s) o
unfolding ac_power_changed described run
ac_power_changed-Reaches s limits config true o h = ground (arith, plugged-Reaches s limits config)
ac_power_changed-Reaches s limits config false o h =
    grind (arith, unplugged-Reaches s limits config s.last_dc_state)
