-- ===== src/Core/Executor/Progress.antt =====
-- The channel of the loop of hpd-core/src/executor.rs, and the rollbacks that are sent to it.
use mathlib.Core.Path.{subst, sym, ◌∙◌}
use hpd_handheld_power_daemo.Prelude.{
  ◌>>=◌, ◌&&◌, ℕ, zero, suc, ◌+◌, ◌-◌, ◌≤◌, ◌≡◌, refl, ◌⊎◌, inl, inr, true, false, Option, none,
  some, List, [], ◌∷◌, ◌++◌, length, length-append, ok, err, arith, if◌then◌else◌,
}
use hpd_handheld_power_daemo.Error.{Fallible}
use hpd_handheld_power_daemo.Capability.Backend.{GpuClockRangeControl, HwBackend}
use hpd_handheld_power_daemo.Core.Reducer.{
  Reduced, output, reduce, sync_power_target, sync_platform_profile, sync_charge_threshold,
  sync_fan_curve, sync_gpu_clock_range,
}
use hpd_handheld_power_daemo.Core.State.{ProfileState}
use hpd_handheld_power_daemo.Core.Transition.{Transition}
use hpd_handheld_power_daemo.Core.Effect.{Effect}
use hpd_handheld_power_daemo.Core.EffectsReachState.{is_sync}
use hpd_handheld_power_daemo.Core.Executor.{
  reduce, GpuClockConstraints, Reduced, with_capability, FanCurvePreset, Executor, rollback,
  written, apply_tier, handle_effect, handle_effects, dispatch, process, receive, run,
}

-- Rounds that a channel with these transitions needs: a rollback needs one, and any other transition
-- one for itself and one for each rollback that it may cause, which is the capacity c at most.
abbrev weight : ℕ → Transition → ℕ
weight c t = if is_sync t then 1 else 1 + c

abbrev pub rounds : ℕ → List Transition → ℕ
rounds c [] = 0
rounds c (t ∷ ts) = weight c t + rounds c ts

-- The rounds needed, with the room in the channel counted as rollbacks to come.
abbrev potential : ℕ → List Transition → ℕ
potential c q = rounds c q + (c - length q)

rounds-zero : (c : ℕ) (q : List Transition) → rounds c q ≤ 0 → q ≡ []
rounds-zero c [] h = refl
rounds-zero c (t ∷ q) h = ground arith

rounds-snoc :
    (c : ℕ) (q : List Transition) (t : Transition)
    → rounds c (q ++ t ∷ []) ≡ rounds c q + weight c t
rounds-snoc c [] t = omega arith
rounds-snoc c (u ∷ q) t = omega (arith, rounds-snoc c q t)

-- The transition of a rollback, if there is one, is a rollback.
abbrev IsSyncOnly : Fallible Transition → Type 0
IsSyncOnly (ok t) = is_sync t ≡ true
IsSyncOnly (err e) = Unit

read-IsSyncOnly :
    {A : Type 0} (r : Fallible A) (f : A → Transition)
    → ((a : A) → is_sync (f a) ≡ true)
    → IsSyncOnly (r >>= λ a. ok (f a))
read-IsSyncOnly (ok a) f h = h a
read-IsSyncOnly (err e) f h = tt

module _ {ℓ} {H : Type ℓ} where
  -- From x to y the channel keeps its bound, and no more rounds are needed.
  abbrev Bounded : Executor H → Executor H → Type 0
  Bounded x y =
      (y.capacity ≡ x.capacity) × (potential x.capacity y.queue ≤ potential x.capacity x.queue)

  Bounded-refl : (x : Executor H) → Bounded x x
  Bounded-refl x = (refl, omega arith)

  Bounded-trans : (x y z : Executor H) → Bounded x y → Bounded y z → Bounded x z
  Bounded-trans x y z (c, p) (d, q) =
      let q' = subst (λ n. potential n z.queue ≤ potential n y.queue) c q in
      (d ∙ c, omega (arith, p, q'))

  rollback-potential :
      (r : Fallible Transition) (x : Executor H) → IsSyncOnly r → Bounded x (rollback r x)
  unfolding rollback
  rollback-potential (ok t) x s =
      ground (arith, rounds-snoc x.capacity x.queue t, length-append x.queue (t ∷ []))
  rollback-potential (err e) x s = Bounded-refl x

  written-potential :
      (w : Fallible (Unit {0}) × H) (read : H → Fallible Transition) (x : Executor H)
      → ((h : H) → IsSyncOnly (read h))
      → Bounded x (written w read x)
  unfolding written
  written-potential (ok _, h) read x s = Bounded-refl x
  written-potential (err e, h) read x s =
      rollback-potential (read h) (record x { hardware = h }) (s h)

  with_capability-potential :
      {C : Type ℓ} (c : Option C) (act : C → Executor H → Executor H) (x : Executor H)
      → ((cap : C) → Bounded x (act cap x))
      → Bounded x (with_capability c act x)
  with_capability-potential none act x h = Bounded-refl x
  with_capability-potential (some cap) act x h = h cap

  apply_tier-potential :
      (tier : FanCurvePreset) (cap : GpuClockRangeControl H) (c : Fallible GpuClockConstraints)
      (x : Executor H)
      → Bounded x (apply_tier tier cap c x)
  unfolding apply_tier
  apply_tier-potential tier cap (ok c) x =
      written-potential _ _ x (λ h. read-IsSyncOnly (cap.active_range h) _ (λ r. refl))
  apply_tier-potential tier cap (err e) x = Bounded-refl x

  module _ (backend : HwBackend H) (save : ProfileState → H → H) where
    handle_effect-potential :
        (e : Effect) (x : Executor H) → Bounded x (handle_effect backend save e x)
    unfolding handle_effect
    handle_effect-potential (Effect.apply_power_envelope t) x =
        written-potential _ _ x (λ h. read-IsSyncOnly (backend.power.get_target h) _ (λ r. refl))
    handle_effect-potential (Effect.apply_platform_profile p) x =
        with_capability-potential backend.profile _ x (λ cap.
          written-potential _ _ x (λ h. read-IsSyncOnly (cap.get_active_profile h) _ (λ r. refl)))
    handle_effect-potential (Effect.apply_charge_threshold n) x =
        with_capability-potential backend.charge _ x (λ cap.
          written-potential _ _ x (λ h. read-IsSyncOnly (cap.get_end_threshold h) _ (λ r. refl)))
    handle_effect-potential (Effect.apply_fan_curve f) x =
        with_capability-potential backend.fan_curve _ x (λ cap.
          written-potential _ _ x (λ h. read-IsSyncOnly (cap.active_selection h) _ (λ r. refl)))
    handle_effect-potential Effect.reset_fan_curve x =
        with_capability-potential backend.fan_curve _ x (λ cap.
          written-potential _ _ x (λ h. read-IsSyncOnly (cap.active_selection h) _ (λ r. refl)))
    handle_effect-potential (Effect.apply_gpu_clock_range tier) x =
        with_capability-potential backend.gpu_clock _ x
          (λ cap. apply_tier-potential tier cap (cap.constraints x.hardware) x)
    handle_effect-potential Effect.reset_gpu_clocks x =
        with_capability-potential backend.gpu_clock _ x
          (λ cap. written-potential _ _ x (λ h. read-IsSyncOnly (cap.active_range h) _ (λ r. refl)))
    handle_effect-potential Effect.persist_state x = Bounded-refl x

    handle_effects-potential :
        (es : List Effect) (x : Executor H) → Bounded x (handle_effects backend save es x)
    unfolding handle_effects
    handle_effects-potential [] x = Bounded-refl x
    handle_effects-potential (e ∷ es) x =
        Bounded-trans x (handle_effect backend save e x)
          (handle_effects backend save es (handle_effect backend save e x))
          (handle_effect-potential e x)
          (handle_effects-potential es (handle_effect backend save e x))

    dispatch-rounds :
        (r : Reduced) (x : Executor H)
        → let y = (dispatch backend save r x).1 in
          (y.capacity ≡ x.capacity)
          × (rounds x.capacity y.queue ≤ rounds x.capacity x.queue + x.capacity)
    unfolding dispatch
    dispatch-rounds (ok o) x =
        let locked = o.new_state.is_ac_connected && o.new_state.ac_max_performance in
        let published = record x { state = record o.new_state { ac_locked = locked } } in
        ground (arith, handle_effects-potential o.effects published)
    dispatch-rounds (err e) x = (refl, omega arith)

    -- A rollback has no effects.
    dispatch-quiet :
        (s : ProfileState) (x : Executor H)
        → ((dispatch backend save (ok (output s [])) x).1.queue ≡ x.queue)
          × ((dispatch backend save (ok (output s [])) x).1.capacity ≡ x.capacity)
    unfolding dispatch handle_effects
    dispatch-quiet s x = ground arith

    process-rounds :
        (t : Transition) (x : Executor H)
        → let y = (process backend save t x).1 in
          (y.capacity ≡ x.capacity)
          × (rounds x.capacity y.queue + 1 ≤ rounds x.capacity x.queue + weight x.capacity t)
    unfolding process reduce sync_power_target sync_platform_profile sync_charge_threshold
        sync_fan_curve sync_gpu_clock_range
    process-rounds (Transition.config_reload c) x = (refl, omega arith)
    process-rounds (Transition.sync_power_target r) x = grind (arith, dispatch-quiet)
    process-rounds (Transition.sync_platform_profile r) x = grind (arith, dispatch-quiet)
    process-rounds (Transition.sync_charge_threshold r) x = grind (arith, dispatch-quiet)
    process-rounds (Transition.sync_fan_curve r) x = grind (arith, dispatch-quiet)
    process-rounds (Transition.sync_gpu_clock_range r) x = grind (arith, dispatch-quiet)
    process-rounds t x = grind (arith, dispatch-rounds)

    receive-rounds :
        (q : List Transition) (x : Executor H)
        → ((q ≡ []) × (receive backend save q x ≡ (true, x)))
          ⊎ (((receive backend save q x).1.capacity ≡ x.capacity)
              × (rounds x.capacity (receive backend save q x).1.queue + 1 ≤ rounds x.capacity q))
    unfolding receive
    receive-rounds [] x = inl (refl, refl)
    receive-rounds (t ∷ q) x =
        let (c, n) = process-rounds t (record x { queue = q }) in inr (c, omega (arith, n))

    -- With as many rounds as its channel needs (one for each rollback in it, and one more than the
    -- capacity of the channel for each other transition), the loop has ended or has emptied the
    -- channel, however many writes fail.
    pub run-idle :
        (fuel : ℕ) (x : Executor H)
        → rounds x.capacity x.queue ≤ fuel
        → ((run backend save fuel x).0 ≡ false) ⊎ ((run backend save fuel x).1.queue ≡ [])
    unfolding run
    run-idle zero x h = inr (rounds-zero x.capacity x.queue h)
    run-idle (suc fuel) x h = elim (receive-rounds x.queue x) [
      | inl (empty, e) ↦ rw e (run-idle fuel x (rw empty (omega arith)))
      | inr (same, less) ↦
          let y = (receive backend save x.queue x).1 in
          let enough : rounds y.capacity y.queue ≤ fuel =
            subst (λ c. rounds c y.queue ≤ fuel) (sym same) (omega (arith, less, h)) in
          ground (arith, run-idle fuel y enough)
    ]
