-- ===== src/Core/Executor/Reported.antt =====
-- What the executor (hpd-core/src/executor.rs) reports: the derived flag `ac_locked`, and the value
-- of the hardware after a write that failed.
use hpd_handheld_power_daemo.Prelude.{◌<◌}
use hpd_handheld_power_daemo.Prelude.{
  ℕ, zero, suc, ◌≡◌, refl, ◌∙◌, true, ◌&&◌, Option, none, some, List, [], ◌∷◌, ok, err, arith,
}
use hpd_handheld_power_daemo.Error.{Fallible, HpdError}
use hpd_handheld_power_daemo.Capability.Power.{PowerEnvelopeTarget}
use hpd_handheld_power_daemo.Capability.FanCurve.{FanCurvePreset}
use hpd_handheld_power_daemo.Capability.GpuClock.{GpuClockConstraints}
use hpd_handheld_power_daemo.Capability.Backend.{HwBackend, GpuClockRangeControl}
use hpd_handheld_power_daemo.Core.State.{ProfileState}
use hpd_handheld_power_daemo.Core.Transition.{Transition}
use hpd_handheld_power_daemo.Core.Effect.{Effect}
use hpd_handheld_power_daemo.Core.Reducer.{Reduced, reduce, sync_power_target}
use hpd_handheld_power_daemo.Core.Executor.{
  Executor, rollback, written, with_capability, apply_tier, handle_effect, handle_effects, dispatch,
  process, receive, run, current_state, current_limits,
}

-- The lock is reported as it is enforced.
abbrev pub IsReported : ProfileState → Type 0
IsReported s = s.ac_locked ≡ (s.is_ac_connected && s.ac_max_performance)

module _ {ℓ} {H : Type ℓ} where
  rollback-state : (r : Fallible Transition) (x : Executor H) → (rollback r x).state ≡ x.state
  unfolding rollback
  rollback-state (ok t) x = ground arith
  rollback-state (err e) x = refl

  written-state :
      (w : Fallible (Unit {0}) × H) (read : H → Fallible Transition) (x : Executor H)
      → (written w read x).state ≡ x.state
  unfolding written
  written-state (ok _, h) read x = refl
  written-state (err e, h) read x = rollback-state (read h) (record x { hardware = h })

  with_capability-state :
      {C : Type ℓ} (c : Option C) (act : C → Executor H → Executor H) (x : Executor H)
      → ((cap : C) → (act cap x).state ≡ x.state)
      → (with_capability c act x).state ≡ x.state
  with_capability-state none act x h = refl
  with_capability-state (some cap) act x h = h cap

  apply_tier-state :
      (tier : FanCurvePreset) (cap : GpuClockRangeControl H) (c : Fallible GpuClockConstraints)
      (x : Executor H)
      → (apply_tier tier cap c x).state ≡ x.state
  unfolding apply_tier
  apply_tier-state tier cap (ok c) x = written-state _ _ x
  apply_tier-state tier cap (err e) x = refl

  module _ (backend : HwBackend H) (save : ProfileState → H → H) where
    handle_effect-state :
        (e : Effect) (x : Executor H) → (handle_effect backend save e x).state ≡ x.state
    unfolding handle_effect
    handle_effect-state (Effect.apply_power_envelope t) x = written-state _ _ x
    handle_effect-state (Effect.apply_platform_profile p) x =
        with_capability-state backend.profile _ x (λ cap. written-state _ _ x)
    handle_effect-state (Effect.apply_charge_threshold n) x =
        with_capability-state backend.charge _ x (λ cap. written-state _ _ x)
    handle_effect-state (Effect.apply_fan_curve f) x =
        with_capability-state backend.fan_curve _ x (λ cap. written-state _ _ x)
    handle_effect-state Effect.reset_fan_curve x =
        with_capability-state backend.fan_curve _ x (λ cap. written-state _ _ x)
    handle_effect-state (Effect.apply_gpu_clock_range tier) x =
        with_capability-state backend.gpu_clock _ x (λ cap. apply_tier-state tier cap _ x)
    handle_effect-state Effect.reset_gpu_clocks x =
        with_capability-state backend.gpu_clock _ x (λ cap. written-state _ _ x)
    handle_effect-state Effect.persist_state x = refl

    pub handle_effects-state :
        (es : List Effect) (x : Executor H) → (handle_effects backend save es x).state ≡ x.state
    unfolding handle_effects
    handle_effects-state [] x = refl
    handle_effects-state (e ∷ es) x =
        handle_effects-state es (handle_effect backend save e x) ∙ handle_effect-state e x

    dispatch-IsReported :
        (r : Reduced) (x : Executor H)
        → IsReported x.state
        → IsReported (dispatch backend save r x).1.state
    unfolding dispatch
    dispatch-IsReported (ok o) x h = grind (arith, handle_effects-state)
    dispatch-IsReported (err e) x h = h

    process-IsReported :
        (t : Transition) (x : Executor H)
        → IsReported x.state
        → IsReported (process backend save t x).1.state
    unfolding process
    process-IsReported (Transition.config_reload c) x h = h
    process-IsReported t x h =
        dispatch-IsReported _ (record x { device_limits = current_limits backend save t x }) h

    receive-IsReported :
        (q : List Transition) (x : Executor H)
        → IsReported x.state
        → IsReported (receive backend save q x).1.state
    unfolding receive
    receive-IsReported [] x h = h
    receive-IsReported (t ∷ q) x h = process-IsReported t (record x { queue = q }) h

    -- Once the flag for the lock is right, it stays right through any number of rounds of the loop,
    -- whatever transitions they take and whatever writes fail.
    pub run-IsReported :
        (fuel : ℕ) (x : Executor H)
        → IsReported x.state
        → IsReported (run backend save fuel x).1.state
    unfolding run
    run-IsReported zero x h = h
    run-IsReported (suc fuel) x h = ground (
      arith,
      receive-IsReported x.queue x h,
      run-IsReported fuel (receive backend save x.queue x).1,
    )

    -- When a write of the power envelope fails and the hardware can be read, the next round of an
    -- otherwise idle loop makes the state report the envelope that the hardware has. The bound of the
    -- channel is not 0, which tokio refuses.
    pub run-rollback :
        (x : Executor H) (t real : PowerEnvelopeTarget) (e : HpdError)
        → x.queue ≡ []
        → 0 < x.capacity
        → x.observed ≡ true
        → (backend.power.set_target t x.hardware).0 ≡ err e
        → backend.power.get_target (backend.power.set_target t x.hardware).1 ≡ ok real
        → let y =
            run backend save 1 (handle_effect backend save (Effect.apply_power_envelope t) x) in
          (y.0 ≡ true)
          × (y.1.state.power_target ≡ real)
          × (backend.power.get_target y.1.hardware ≡ ok real)
          × (y.1.queue ≡ [])
    unfolding run receive process handle_effect written rollback reduce sync_power_target dispatch
        handle_effects current_state current_limits
    run-rollback x t real e empty room seen failed read = ground arith
