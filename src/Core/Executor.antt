-- ===== src/Core/Executor.antt =====
-- hpd-core/src/executor.rs: the loop that applies the transitions of a bounded channel and writes
-- the effects. `state` is the value of the `watch` channel, `observed` says whether a receiver of
-- it is left, `queue` holds what is in the channel, and `capacity` is the bound it was made with. `save` is `StatePersister::save`, whose file
-- is a part of the outside world `H` as the hardware is.
pub mod Progress
pub mod Reported
pub mod Faithful
pub mod FollowsState
use hpd_handheld_power_daemo.Prelude.{
  ℕ, zero, suc, Bool, true, false, not, ◌&&◌, Option, none, some, List, [], ◌∷◌, ◌++◌, length, ltb,
  ◌!=◌, if◌then◌else◌, ok, err, ◌>>=◌,
}
use hpd_handheld_power_daemo.Error.{Fallible}
use hpd_handheld_power_daemo.Capability.Power.{PowerEnvelopeLimits, limits_eq}
use hpd_handheld_power_daemo.Capability.Profile.{RuntimeConfig, config_eq}
use hpd_handheld_power_daemo.Capability.FanCurve.{FanCurvePreset}
use hpd_handheld_power_daemo.Capability.GpuClock.{GpuClockConstraints}
use hpd_handheld_power_daemo.Capability.Backend.{
  HwBackend, ChargeControl, FanCurveControl, GpuClockRangeControl,
}
use hpd_handheld_power_daemo.Core.State.{ProfileState}
use hpd_handheld_power_daemo.Core.Transition.{Transition}
use hpd_handheld_power_daemo.Core.Effect.{Effect}
use hpd_handheld_power_daemo.Core.Inference.{gpu_clock_range_for_tier}
use hpd_handheld_power_daemo.Core.Reducer.{Reduced, reduce}

-- `TRANSITION_CHANNEL_CAPACITY`, the default of the bound
abbrev pub transition_channel_capacity : ℕ
transition_channel_capacity = 32

pub record Executor {ℓ} (H : Type ℓ) : Type ℓ where
  pub hardware : H
  pub device_limits : PowerEnvelopeLimits
  pub config : RuntimeConfig
  pub queue : List Transition
  pub capacity : ℕ
  pub state : ProfileState
  pub observed : Bool

-- The rollback after a failed write; a full channel drops it.
unfoldable pub rollback {ℓ} : {H : Type ℓ} → Fallible Transition → Executor H → Executor H
rollback (ok t) x =
    if ltb (length x.queue) x.capacity then record x { queue = x.queue ++ t ∷ [] } else x
rollback (err e) x = x

-- The outcome of a write; `read` builds the transition of its rollback.
unfoldable pub written {ℓ} :
    {H : Type ℓ} → Fallible (Unit {0}) × H → (H → Fallible Transition) → Executor H → Executor H
written (ok _, h) read x = record x { hardware = h }
written (err e, h) read x = rollback (read h) (record x { hardware = h })

-- An effect on a capability that the backend may lack.
abbrev pub with_capability {ℓ} :
    {H C : Type ℓ} → Option C → (C → Executor H → Executor H) → Executor H → Executor H
with_capability none act x = x
with_capability (some c) act x = act c x

-- The write of a tier, once the range of the device is read.
unfoldable pub apply_tier {ℓ} :
    {H : Type ℓ}
    → FanCurvePreset
    → GpuClockRangeControl H
    → Fallible GpuClockConstraints
    → Executor H
    → Executor H
apply_tier tier cap (ok constraints) x =
    let range = gpu_clock_range_for_tier tier constraints x.config.gpu_clock_fractions in
    written (cap.set_range range x.hardware)
      (λ h. do r ← cap.active_range h; ok (Transition.sync_gpu_clock_range r)) x
apply_tier tier cap (err e) x = x

-- `current_state.is_ac_connected`, read again on a resume.
unfoldable pub reread_ac : Fallible Bool → ProfileState → ProfileState
reread_ac (ok ac) s = record s { is_ac_connected = ac }
reread_ac (err e) s = s

unfoldable pub reread_limits :
    Fallible PowerEnvelopeLimits → PowerEnvelopeLimits → PowerEnvelopeLimits
reread_limits (ok limits) cached = if limits != cached then limits else cached
reread_limits (err e) cached = cached

abbrev pub is_shutdown : Transition → Bool
is_shutdown Transition.shutdown = true
is_shutdown _ = false

module _ {ℓ} {H : Type ℓ} (backend : HwBackend H) (save : ProfileState → H → H) where
  unfoldable pub handle_effect : Effect → Executor H → Executor H
  handle_effect (Effect.apply_power_envelope target) x =
      written (backend.power.set_target target x.hardware)
        (λ h. do t ← backend.power.get_target h; ok (Transition.sync_power_target t)) x
  handle_effect (Effect.apply_platform_profile p) x =
      with_capability backend.profile
        (λ cap y.
          written (cap.set_active_profile p y.hardware)
            (λ h. do real ← cap.get_active_profile h; ok (Transition.sync_platform_profile real)) y)
        x
  handle_effect (Effect.apply_charge_threshold n) x =
      with_capability backend.charge
        (λ cap y.
          written (cap.set_end_threshold n y.hardware)
            (λ h. do real ← cap.get_end_threshold h; ok (Transition.sync_charge_threshold real)) y)
        x
  handle_effect (Effect.apply_fan_curve selection) x =
      with_capability backend.fan_curve
        (λ cap y.
          written (cap.apply selection y.hardware)
            (λ h. do real ← cap.active_selection h; ok (Transition.sync_fan_curve real)) y)
        x
  handle_effect Effect.reset_fan_curve x =
      with_capability backend.fan_curve
        (λ cap y.
          written (cap.reset_to_auto y.hardware)
            (λ h. do real ← cap.active_selection h; ok (Transition.sync_fan_curve real)) y)
        x
  handle_effect (Effect.apply_gpu_clock_range tier) x =
      with_capability backend.gpu_clock
        (λ cap y. apply_tier tier cap (cap.constraints y.hardware) y) x
  handle_effect Effect.reset_gpu_clocks x =
      with_capability backend.gpu_clock
        (λ cap y.
          written (cap.reset_to_auto y.hardware)
            (λ h. do r ← cap.active_range h; ok (Transition.sync_gpu_clock_range r)) y)
        x
  handle_effect Effect.persist_state x = record x { hardware = save x.state x.hardware }

  unfoldable pub handle_effects : List Effect → Executor H → Executor H
  handle_effects [] x = x
  handle_effects (e ∷ es) x = handle_effects es (handle_effect e x)

  -- The state that `reduce` is given: on a resume, the power source is read again.
  unfoldable pub current_state : Transition → Executor H → ProfileState
  current_state Transition.system_resumed x = elim backend.charge [
    | none ↦ x.state
    | some charge ↦ reread_ac (charge.is_ac_connected x.hardware) x.state
  ]
  current_state _ x = x.state

  -- The limits that `reduce` is given: on a resume, they are read again.
  unfoldable pub current_limits : Transition → Executor H → PowerEnvelopeLimits
  current_limits Transition.system_resumed x =
      reread_limits (backend.power.get_limits x.hardware) x.device_limits
  current_limits _ x = x.device_limits

  -- `ac_locked` is derived from the new state; without an observer the loop ends. The first
  -- component says whether the loop goes on.
  unfoldable pub dispatch : Reduced → Executor H → Bool × Executor H
  dispatch (ok o) x =
      let locked = o.new_state.is_ac_connected && o.new_state.ac_max_performance in
      if x.observed
      then (
        true,
        handle_effects o.effects (record x { state = record o.new_state { ac_locked = locked } }),
      )
      else (false, x)
  dispatch (err e) x = (true, x)

  -- One round of the loop, for the transition received.
  unfoldable pub process : Transition → Executor H → Bool × Executor H
  process (Transition.config_reload new_config) x =
      (true, record x { config = if config_eq new_config x.config then x.config else new_config })
  process t x =
      let limits = current_limits t x in
      let (go, y) =
        dispatch (reduce (current_state t x) t limits x.config)
          (record x { device_limits = limits }) in
      (go && not (is_shutdown t), y)

  -- With nothing in the channel, the loop waits.
  unfoldable pub receive : List Transition → Executor H → Bool × Executor H
  receive [] x = (true, x)
  receive (t ∷ rest) x = process t (record x { queue = rest })

  -- `fuel` rounds of the loop, or fewer if it ends.
  unfoldable pub run : ℕ → Executor H → Bool × Executor H
  run zero x = (true, x)
  run (suc fuel) x =
      let (go, y) = receive x.queue x in let rest = run fuel y in if go then rest else (false, y)
