-- ===== src/Dbus/HoldStack.antt =====
-- What a client of power-profiles-daemon is promised, and the shim with the reducer behind it: the
-- module documentation of hpd-dbus/src/ppd_shim.rs, and its operations in a session.
mod Stack
pub mod Holdable
pub mod Settled
pub mod Removal
pub mod Refinement
pub mod Locked
unfoldable pub use Stack.*
use hpd_handheld_power_daemo.Core.Transition.{Transition}
use hpd_handheld_power_daemo.Dbus.Errors.{FdoError}
use hpd_handheld_power_daemo.Core.Reducer.{reduce, Reduced}
use hpd_handheld_power_daemo.Capability.Profile.{RuntimeConfig}
use hpd_handheld_power_daemo.Capability.Power.{PowerEnvelopeLimits}
use hpd_handheld_power_daemo.Core.State.{ProfileState}
use hpd_handheld_power_daemo.Prelude.{
  refl, sym, ap, ◌∙◌, true, false, not, ◌&&◌, ◌||◌, ltb, leb, Bool, Bool-cases, inl, inr, ℕ, zero,
  suc, ◌+◌, ◌-◌, ◌*◌, ◌/◌, ◌%◌, ◌^◌, ◌≤◌, ◌<◌, ◌≡◌, ◌⊎◌, ◌↔◌, Option, none, some, ok, err, Result,
  ◌>>=◌, ◌>>◌, arith, String, Equality, ◌==◌, ◌!=◌, nat_eq, string_eq, if◌then◌else◌, All, any, all,
  length, is_empty, List, [], ◌∷◌, ◌++◌,
}
use hpd_handheld_power_daemo.Dbus.PpdShim.{
  send_profile, name_owner_changed, release_profile, hold_profile, Shared, profile_changed,
  set_active_profile,
}

pub record Session : Type 0 where
  pub shared : Shared
  pub state : ProfileState

abbrev pub state_after : ProfileState → Reduced → ProfileState
state_after st (ok o) = o.new_state
state_after st (err e) = st

module _ (limits : PowerEnvelopeLimits) (config : RuntimeConfig) where
  -- The executor takes what was sent.
  unfoldable pub deliver : List Transition → ProfileState → ProfileState
  deliver [] st = st
  deliver (t ∷ ts) st = deliver ts (state_after st (reduce st t limits config))

  -- The reconciler looks at the profile that the executor publishes.
  abbrev pub settled : List Transition → Shared → ProfileState → Session
  settled sent s st =
      let st' = deliver sent st in
      record { shared = (profile_changed st'.active_profile s).1; state = st' }

  abbrev pub wrote : Result FdoError (List Transition) → Session → Session
  wrote (ok sent) x = settled sent x.shared x.state
  wrote (err e) x = x

  -- An event, up to the moment when its transitions are published and reconciled.
  unfoldable pub step : HoldEvent → Session → Session
  step (hold_request name why app sender) x =
      let (cookie, sent, s) = hold_profile name why app sender x.state x.shared in
      settled sent s x.state
  step (release cookie) x =
      let (sent, s) = release_profile cookie x.shared in settled sent s x.state
  step (owner_change old new) x =
      let (sent, s) = name_owner_changed old new x.shared in settled sent s x.state
  step (property_write value) x = wrote (set_active_profile value) x
  step (manual_change p) x = settled (send_profile p) x.shared x.state

  unfoldable pub steps : List HoldEvent → Session → Session
  steps [] x = x
  steps (e ∷ es) x = steps es (step e x)
