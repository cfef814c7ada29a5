-- ===== src/Daemon/Boot/Reasserted.antt =====
-- The start of hpd-daemon/src/main.rs with the resume that it sends to the executor.
use mathlib.Core.Path.{subst}
use hpd_handheld_power_daemo.Daemon.Boot.FirstState.{
  is_ac_connected-initial_state, initial_state-profile, initial_state-IsFirst, IsFirstCurve,
  IsFirstThreshold,
}
use hpd_handheld_power_daemo.Core.Executor
use hpd_handheld_power_daemo.Prelude.{
  refl, sym, ap, ◌∙◌, true, false, ◌&&◌, Bool, Bool-cases, inl, inr, ◌≡◌, ◌⊎◌, Option, none, some,
  ok, err, arith, ◌==◌, ◌!=◌, nat_eq, string_eq, if◌then◌else◌,
}
use hpd_handheld_power_daemo.Error.{Fallible}
use hpd_handheld_power_daemo.Capability.Power.{PowerEnvelopeLimits, limits_eq}
use hpd_handheld_power_daemo.Capability.Profile.{RuntimeConfig, ProfileName}
use hpd_handheld_power_daemo.Capability.Backend.{HwBackend, ChargeControl}
use hpd_handheld_power_daemo.Core.State.{ProfileState}
use hpd_handheld_power_daemo.Core.Transition.{Transition}
use hpd_handheld_power_daemo.Core.EmbeddedController.{Controller, run, described}
use hpd_handheld_power_daemo.Core.Resume.{run-system_resumed}
use hpd_handheld_power_daemo.Core.Reducer.{
  reduce, pin_gpu_clock, force_ac_max_performance, reassert_clock, reassert_all, resumed_on_battery,
  ReducerOutput, system_resumed, aggressive_curve,
}
use hpd_handheld_power_daemo.Core.Executor.{
  Executor, handle_effects, dispatch, process, receive, current_state, current_limits, reread_ac,
  reread_limits,
}
use hpd_handheld_power_daemo.Daemon.Config.{DaemonConfig}
use hpd_handheld_power_daemo.Daemon.Boot.{
  [], panicked, start_with, start_by, to_option, value_or, read, is_physically_plugged,
  initial_state, first_executor, start, started,
}

abbrev pub is_locked : ProfileState → Bool
is_locked s = s.is_ac_connected && s.ac_max_performance

system_resumed-levers :
    (s : ProfileState) (limits : PowerEnvelopeLimits) (config : RuntimeConfig)
    → (is_locked s ≡ true) ⊎ (s.last_dc_state ≡ none)
    → let s' = (system_resumed s limits config).new_state in
      (((is_locked s' ≡ true)
          × (s'.active_profile ≡ ProfileName.performance)
          × (s'.active_fan_curve ≡ some aggressive_curve))
        ⊎ ((is_locked s' ≡ false)
            × (s'.active_profile ≡ s.active_profile)
            × (s'.active_fan_curve ≡ s.active_fan_curve)))
      × (s'.charge_end_threshold ≡ s.charge_end_threshold)
unfolding system_resumed resumed_on_battery reassert_all reassert_clock force_ac_max_performance
    pin_gpu_clock
system_resumed-levers s limits config h = ground arith

module _ {ℓ} {H : Type ℓ} (backend : HwBackend H) (save : ProfileState → H → H) (h : H) where
  -- The power source was read for the state, and is read again for the transition.
  reread_ac-plugged :
      (r : Fallible Bool) (s : ProfileState)
      → s.is_ac_connected ≡ value_or (to_option r) false
      → reread_ac r s ≡ s
  unfolding reread_ac
  reread_ac-plugged (ok ac) s e = ap (λ a. record s { is_ac_connected = a }) (sym e)
  reread_ac-plugged (err e') s e = refl

  reread_charge :
      (c : Option (ChargeControl H)) (s : ProfileState)
      → s.is_ac_connected ≡ value_or (read c (λ c. c.is_ac_connected h)) false
      → (elim c [ none ↦ s | some charge ↦ reread_ac (charge.is_ac_connected h) s ]) ≡ s
  reread_charge none s e = refl
  reread_charge (some charge) s e = reread_ac-plugged (charge.is_ac_connected h) s e

  current_state-first :
      (limits : PowerEnvelopeLimits) (cfg : DaemonConfig) (loaded : Option ProfileState)
      → current_state backend save Transition.system_resumed
          (first_executor backend h limits cfg loaded)
        ≡ initial_state backend h limits cfg loaded
  unfolding current_state is_physically_plugged
  current_state-first limits cfg loaded =
      reread_charge backend.charge _ (is_ac_connected-initial_state backend h limits cfg loaded)

  reread_limits-same : (l : PowerEnvelopeLimits) → reread_limits (ok l) l ≡ l
  unfolding reread_limits
  reread_limits-same l = elim (Bool-cases (l != l)) [ inl e ↦ rw e refl | inr e ↦ rw e refl ]

  current_limits-first :
      (limits : PowerEnvelopeLimits) (cfg : DaemonConfig) (loaded : Option ProfileState)
      → backend.power.get_limits h ≡ ok limits
      → current_limits backend save Transition.system_resumed
          (first_executor backend h limits cfg loaded)
        ≡ limits
  unfolding current_limits
  current_limits-first limits cfg loaded e =
      ap (λ r. reread_limits r limits) e ∙ reread_limits-same limits

  -- What the reducer makes of the first state.
  abbrev pub first_output : PowerEnvelopeLimits → DaemonConfig → Option ProfileState → ReducerOutput
  first_output limits cfg loaded =
      system_resumed (initial_state backend h limits cfg loaded) limits cfg.runtime

  start-started :
      (limits : PowerEnvelopeLimits) (cfg : DaemonConfig) (loaded : Option ProfileState)
      → backend.power.get_limits h ≡ ok limits
      → (cfg.channel_capacity == 0) ≡ false
      → start backend h cfg loaded ≡ started (first_executor backend h limits cfg loaded)
  unfolding start_by start_with
  start-started limits cfg loaded e room =
      ap (start_by backend h cfg loaded) e
      ∙ ap (λ b. if b then panicked else started (first_executor backend h limits cfg loaded)) room

  -- The first round of the loop.
  receive-first :
      (limits : PowerEnvelopeLimits) (cfg : DaemonConfig) (loaded : Option ProfileState)
      → backend.power.get_limits h ≡ ok limits
      → let x = first_executor backend h limits cfg loaded in
        let o = first_output limits cfg loaded in
        receive backend save x.queue x ≡ (
          true,
          handle_effects backend save o.effects (record x {
            queue = [];
            state = record o.new_state { ac_locked = is_locked o.new_state };
          }),
        )
  unfolding receive process dispatch reduce current_state current_limits
  receive-first limits cfg loaded e =
      let x = first_executor backend h limits cfg loaded in
      let round : ProfileState → PowerEnvelopeLimits → Bool × Executor H = λ s l.
        let o = system_resumed s l cfg.runtime in
        (
          true,
          handle_effects backend save o.effects (record x {
            queue = [];
            device_limits = l;
            state = record o.new_state { ac_locked = is_locked o.new_state };
          }),
        ) in
      ap (λ s. round s (current_limits backend save Transition.system_resumed x))
        (current_state-first limits cfg loaded)
      ∙ ap (round (initial_state backend h limits cfg loaded))
          (current_limits-first limits cfg loaded e)

  run-first :
      (limits : PowerEnvelopeLimits) (cfg : DaemonConfig) (loaded : Option ProfileState)
      → backend.power.get_limits h ≡ ok limits
      → let x = first_executor backend h limits cfg loaded in
        let o = first_output limits cfg loaded in
        Executor.run backend save 1 x ≡ (
          true,
          handle_effects backend save o.effects (record x {
            queue = [];
            state = record o.new_state { ac_locked = is_locked o.new_state };
          }),
        )
  unfolding Executor.run
  run-first limits cfg loaded e =
      ap (λ r. if r.0 then (true, r.1) else (false, r.1)) (receive-first limits cfg loaded e)

  module _ (limits : PowerEnvelopeLimits) (cfg : DaemonConfig) where
    -- Where the limits of the device can be read and the channel has room, the daemon starts with a
    -- resume in the channel, and the first round of the executor takes it and carries out its effects.
    -- Unless a battery state is to be restored, these bring a device in any state to the one that is
    -- then published, except that a GPU clock that is not managed is left to the firmware. With the
    -- lock in force the profile of that state is Performance and its curve Aggressive; else the profile
    -- is that of the configuration, and the curve the one of the state file or, where it has none, that
    -- of the configuration. The charge threshold is that of the state file; at a first start it is the
    -- one of the device if that is from 20 to 100, and else that of the configuration.
    pub start-first_output :
        (loaded : Option ProfileState)
        → backend.power.get_limits h ≡ ok limits
        → (cfg.channel_capacity == 0) ≡ false
        → (let s = initial_state backend h limits cfg loaded in
            (is_locked s ≡ true) ⊎ (s.last_dc_state ≡ none))
        → (c : Controller)
        → ((initial_state backend h limits cfg loaded).active_gpu_clock ≡ none → c.clock ≡ none)
        → let x = first_executor backend h limits cfg loaded in
          let o = first_output limits cfg loaded in
          let published = record o.new_state { ac_locked = is_locked o.new_state } in
          (start backend h cfg loaded ≡ started x)
          × (Executor.run backend save 1 x ≡ (
            true,
            handle_effects backend save o.effects (record x { queue = []; state = published }),
          ))
          × (run c o.effects ≡ described published)
          × (((is_locked published ≡ true)
                × (published.active_profile ≡ ProfileName.performance)
                × (published.active_fan_curve ≡ some aggressive_curve))
              ⊎ ((is_locked published ≡ false)
                  × (published.active_profile ≡ cfg.default_platform_profile)
                  × IsFirstCurve backend h limits cfg loaded published.active_fan_curve))
          × IsFirstThreshold backend h limits cfg loaded published.charge_end_threshold
    unfolding described
    start-first_output loaded e room k c clock =
        let s = initial_state backend h limits cfg loaded in
        let (levers, charge) = system_resumed-levers s limits cfg.runtime k in
        let (threshold, curve) = initial_state-IsFirst backend h limits cfg loaded in
        (
          start-started limits cfg loaded e room,
          run-first limits cfg loaded e,
          run-system_resumed s limits cfg.runtime c k clock,
          elim levers [
            | inl pinned ↦ inl pinned
            | inr (free, profile, same) ↦ inr (
              free,
              profile ∙ initial_state-profile backend h limits cfg loaded,
              subst (IsFirstCurve backend h limits cfg loaded) (sym same) curve,
            )
          ],
          subst (IsFirstThreshold backend h limits cfg loaded) (sym charge) threshold,
        )
