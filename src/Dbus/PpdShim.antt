-- ===== src/Dbus/PpdShim.antt =====
-- hpd-dbus/src/ppd_shim.rs: the interface that stands in for power-profiles-daemon.
mod Holds
unfoldable pub use Holds.*
use hpd_handheld_power_daemo.Dbus.Errors.{of_from_str, failed, invalid_args, FdoError}
use mathlib.Core.List.{map}
use Prim.Native.String.{◌++◌}
use hpd_handheld_power_daemo.Prelude.{
  refl, sym, ap, ◌∙◌, true, false, not, ◌&&◌, ◌||◌, ltb, leb, Bool, Bool-cases, inl, inr, ℕ, zero,
  suc, ◌+◌, ◌-◌, ◌*◌, ◌/◌, ◌%◌, ◌^◌, ◌≤◌, ◌<◌, ◌≡◌, ◌⊎◌, ◌↔◌, Option, none, some, ok, err, Result,
  ◌>>=◌, ◌>>◌, arith, String, Equality, ◌==◌, ◌!=◌, nat_eq, string_eq, if◌then◌else◌, All, any, all,
  length, is_empty, List, [], ◌∷◌,
}
use hpd_handheld_power_daemo.Capability.Profile.Names.{profile_from_str, display_profile}
use hpd_handheld_power_daemo.Core.Transition.{Transition}
use hpd_handheld_power_daemo.Capability.Profile.{ProfileName}
use hpd_handheld_power_daemo.Core.State.{ProfileState}

abbrev pub is_holdable : ProfileName → Bool
is_holdable ProfileName.power_saver = true
is_holdable ProfileName.performance = true
is_holdable _ = false

abbrev pub require_holdable : ProfileName → Result FdoError (Unit {0})
require_holdable p =
    if is_holdable p
    then ok tt
    else err (
        invalid_args
          ("HoldProfile only accepts power-saver or performance, got " ++ display_profile p))

abbrev pub require_sender : Option String → Result FdoError String
require_sender none = err (failed "method call has no sender")
require_sender (some sender) = ok sender

-- The tests of `hold_profile`: the profile to hold, and who holds it.
unfoldable pub checked_hold : String → Option String → Result FdoError (ProfileName × String)
checked_hold name sender = do
  p ← of_from_str (profile_from_str name)
  require_holdable p
  holder ← require_sender sender
  ok (p, holder)

abbrev pub held :
    Result FdoError (ProfileName × String)
    → String
    → String
    → ProfileName
    → Shared
    → Result FdoError ℕ × List Transition × Shared
held (err e) why app current_active s = (err e, [], s)
held (ok (p, holder)) why app current_active s =
    let (cookie, sent, s') = hold p why app holder current_active s in (ok cookie, sent, s')

unfoldable pub hold_profile :
    String
    → String
    → String
    → Option String
    → ProfileState
    → Shared
    → Result FdoError ℕ × List Transition × Shared
hold_profile name why app sender state s =
    held (checked_hold name sender) why app state.active_profile s

-- The setter of the property `ActiveProfile`.
unfoldable pub set_active_profile : String → Result FdoError (List Transition)
set_active_profile value = do p ← of_from_str (profile_from_str value); ok (send_profile p)

-- The properties.
abbrev pub active_profile : ProfileState → String
active_profile state = display_profile state.active_profile

-- An entry of `Profiles`: its profile and its driver.
abbrev pub profiles : List (String × String)
profiles = ("power-saver", "hpd") ∷ ("balanced", "hpd") ∷ ("performance", "hpd") ∷ []

-- An entry of `ActiveProfileHolds`: the application, the profile and the reason.
abbrev pub entry_of_hold : Hold → String × String × String
entry_of_hold h = (h.application_id, display_profile h.profile, h.reason)

abbrev pub active_profile_holds : Shared → List (String × String × String)
active_profile_holds s = map entry_of_hold s.holds
