-- ===== src/Dbus/HoldStack/Stack.antt =====
-- The promise of power-profiles-daemon, as the module documentation of hpd-dbus/src/ppd_shim.rs
-- restates it: a profile that the user chose, and a stack of holds over it.
use hpd_handheld_power_daemo.Prelude.{◌+◌, ◌%◌, ◌^◌}
use hpd_handheld_power_daemo.Capability.Profile.Names.{profile_from_str}
use hpd_handheld_power_daemo.Dbus.Errors.{of_from_str, FdoError}
use hpd_handheld_power_daemo.Capability.Profile.{profile_eq, ProfileName}
use hpd_handheld_power_daemo.Prelude.{
  Bool, ℕ, Option, none, some, ok, err, Result, String, ◌==◌, nat_eq, string_eq, if◌then◌else◌,
  is_empty, List, [], ◌∷◌, ◌++◌,
}
use hpd_handheld_power_daemo.Dbus.PpdShim.{checked_hold, Hold}

pub data HoldEvent : Type 0 where
  -- `HoldProfile` with its arguments and the sender of the message
  hold_request : String → String → String → Option String → HoldEvent
  -- `ReleaseProfile`
  release : ℕ → HoldEvent
  -- `NameOwnerChanged`
  owner_change : Option String → Option String → HoldEvent
  -- a write of the property `ActiveProfile`
  property_write : String → HoldEvent
  -- a `SetProfile` from elsewhere
  manual_change : ProfileName → HoldEvent

pub record HoldStack : Type 0 where
  pub base : ProfileName
  pub holds : List Hold
  pub next_cookie : ℕ

abbrev pub or_base : Option ProfileName → ProfileName → ProfileName
or_base none base = base
or_base (some p) base = p

abbrev pub take_hold :
    String → String → Result FdoError (ProfileName × String) → HoldStack → HoldStack
take_hold why app (err e) k = k
take_hold why app (ok (p, holder)) k = record k {
  holds =
      k.holds
      ++ record {
        cookie = k.next_cookie;
        profile = p;
        application_id = app;
        reason = why;
        holder = holder;
      }
        ∷ [];
  next_cookie = (k.next_cookie + 1) % 2 ^ 32;
}

unfoldable pub without_ended : (Hold → Bool) → List Hold → List Hold
without_ended has_ended [] = []
without_ended has_ended (h ∷ hs) =
    let rest = without_ended has_ended hs in if has_ended h then rest else h ∷ rest

abbrev pub drop_holds : (Hold → Bool) → HoldStack → HoldStack
drop_holds has_ended k = record k { holds = without_ended has_ended k.holds }

-- The module documentation: among holds, power saving outranks performance.
abbrev pub outranking : ProfileName → Option ProfileName → Option ProfileName
outranking ProfileName.power_saver others = some ProfileName.power_saver
outranking ProfileName.performance (some ProfileName.power_saver) = some ProfileName.power_saver
outranking ProfileName.performance others = some ProfileName.performance
outranking p others = others

unfoldable pub demanded : List Hold → Option ProfileName
demanded [] = none
demanded (h ∷ hs) = outranking h.profile (demanded hs)

-- `demand` says which profile the holds demand.
module _ (demand : List Hold → Option ProfileName) where
  -- The profile in force: that of the holds, and without holds the one that was chosen.
  abbrev pub in_force : HoldStack → ProfileName
  in_force k = or_base (demand k.holds) k.base

  -- A choice cancels the holds, unless it is the profile in force; with holds, that leaves the profile
  -- below them as it was.
  abbrev pub choose : ProfileName → HoldStack → HoldStack
  choose p k =
      if is_empty k.holds
      then record k { base = p }
      else if in_force k == p
      then k
      else record k { base = p; holds = [] }

  abbrev pub choose_named : Result FdoError ProfileName → HoldStack → HoldStack
  choose_named (ok p) k = choose p k
  choose_named (err e) k = k

  unfoldable pub after_event : HoldEvent → HoldStack → HoldStack
  after_event (hold_request name why app sender) k = take_hold why app (checked_hold name sender) k
  after_event (release cookie) k = drop_holds (λ h. h.cookie == cookie) k
  after_event (owner_change (some gone) none) k = drop_holds (λ h. h.holder == gone) k
  after_event (owner_change _ _) k = k
  after_event (property_write value) k = choose_named (of_from_str (profile_from_str value)) k
  after_event (manual_change p) k = choose p k

  unfoldable pub after_events : List HoldEvent → HoldStack → HoldStack
  after_events [] k = k
  after_events (e ∷ es) k = after_events es (after_event e k)
