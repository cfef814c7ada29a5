-- ===== src/Dbus/HoldStack/Locked.antt =====
-- The shim of hpd-dbus/src/ppd_shim.rs while the lock of maximum performance on AC is in force.
use hpd_handheld_power_daemo.Capability.Profile.Names.{profile_from_str}
use hpd_handheld_power_daemo.Prelude.{
  refl, ap, ◌∙◌, true, ◌&&◌, ℕ, ◌≡◌, Option, none, some, ok, err, Result, ◌>>=◌, String, ◌==◌,
  nat_eq, string_eq, List, [], ◌∷◌,
}
use hpd_handheld_power_daemo.Capability.Power.{PowerEnvelopeLimits}
use hpd_handheld_power_daemo.Capability.Profile.{ProfileName, RuntimeConfig}
use hpd_handheld_power_daemo.Core.State.{ProfileState}
use hpd_handheld_power_daemo.Core.Reducer.{reduce, reduce_set_profile, gate, is_locked_write}
use hpd_handheld_power_daemo.Dbus.Errors.{FdoError, of_from_str}
use hpd_handheld_power_daemo.Dbus.PpdShim.{
  Shared, send_profile, send_target, hold, remove_holds, restore_pre_hold_snapshot, settle,
  release_profile, name_owner_changed, checked_hold, held, hold_profile, set_active_profile,
}
use hpd_handheld_power_daemo.Dbus.HoldStack.{
  HoldEvent, hold_request, release, owner_change, property_write, manual_change, deliver, wrote,
  step, steps,
}

module _ (limits : PowerEnvelopeLimits) (config : RuntimeConfig) (st : ProfileState)
    (l : (st.is_ac_connected && st.ac_max_performance) ≡ true) where
  deliver-send_target : (o : Option ProfileName) → deliver limits config (send_target o) st ≡ st
  unfolding deliver reduce reduce_set_profile gate is_locked_write
  deliver-send_target none = refl
  deliver-send_target (some p) = rw l refl

  deliver-settle :
      (r : (List ℕ × Option ProfileName) × Shared) → deliver limits config (settle r).0 st ≡ st
  unfolding settle restore_pre_hold_snapshot
  deliver-settle (([], target), s) = deliver-send_target none
  deliver-settle ((c ∷ cs, some p), s) = deliver-send_target (some p)
  deliver-settle ((c ∷ cs, none), s) = deliver-send_target s.pre_hold_profile

  deliver-held :
      (r : Result FdoError (ProfileName × String)) (why app : String) (s : Shared)
      → let (cookie, sent, s') = held r why app st.active_profile s in
        deliver limits config sent st ≡ st
  unfolding hold
  deliver-held (err e) why app s = deliver-send_target none
  deliver-held (ok (p, holder)) why app s = deliver-send_target _

  wrote-state :
      (r : Result FdoError ProfileName) (s : Shared)
      → (wrote limits config
          (r >>= λ p. ok (send_profile p))
          (record { shared = s; state = st })).state
        ≡ st
  wrote-state (ok p) s = deliver-send_target (some p)
  wrote-state (err e) s = refl

  step-state :
      (e : HoldEvent) (s : Shared)
      → (step limits config e (record { shared = s; state = st })).state ≡ st
  unfolding step hold_profile release_profile name_owner_changed set_active_profile
  step-state (hold_request name why app sender) s =
      deliver-held (checked_hold name sender) why app s
  step-state (release cookie) s = deliver-settle (remove_holds (λ h. h.cookie == cookie) s)
  step-state (owner_change (some gone) none) s =
      deliver-settle (remove_holds (λ h. h.holder == gone) s)
  step-state (owner_change (some old) (some new)) s = deliver-send_target none
  step-state (owner_change none new) s = deliver-send_target none
  step-state (property_write value) s = wrote-state (of_from_str (profile_from_str value)) s
  step-state (manual_change p) s = deliver-send_target (some p)

  -- While the lock of maximum performance on AC is in force, no requests, releases, departures of
  -- clients and writes of the profile change the state of the daemon, whatever the holds are.
  pub steps-locked :
      (es : List HoldEvent) (s : Shared)
      → (steps limits config es (record { shared = s; state = st })).state ≡ st
  unfolding steps
  steps-locked [] s = refl
  steps-locked (e ∷ es) s =
      let x = step limits config e (record { shared = s; state = st }) in
      ap (λ r. (steps limits config es (record { shared = x.shared; state = r })).state)
        (step-state e s)
      ∙ steps-locked es x.shared
