-- ===== src/Dbus/PpdShim/Holds.antt =====
use hpd_handheld_power_daemo.Core.Transition.{Transition}
use hpd_handheld_power_daemo.Prelude.{
  is_empty, ◌^◌, nat_eq, string_eq, ◌++◌, some, ◌%◌, ◌==◌, any, true, if◌then◌else◌, String, ◌+◌,
  none, ◌∷◌, Bool, Option, [], ℕ, List,
}
use hpd_handheld_power_daemo.Capability.Profile.{profile_eq, ProfileName}

-- hpd-dbus/src/ppd_shim.rs: the holds, and the background tasks that cancel them. A function returns
-- what it sends to the executor, in order, with the state that it leaves; each is one stretch of
-- the code that runs under its locks, or several that follow each other with no other between.
pub record Hold : Type 0 where
  pub cookie : ℕ
  pub profile : ProfileName
  pub application_id : String
  pub reason : String
  pub holder : String

-- `Shared`, without the sender of the channel.
pub record Shared : Type 0 where
  pub holds : List Hold
  pub next_cookie : ℕ
  pub pre_hold_profile : Option ProfileName

-- `PowerProfilesShim::new`
abbrev pub new_shared : Shared
new_shared = record { holds = []; next_cookie = 1; pre_hold_profile = none }

abbrev pub send_profile : ProfileName → List Transition
send_profile p = Transition.set_profile p ∷ []

abbrev pub is_held : ProfileName → List Hold → Bool
is_held p = any (λ h. h.profile == p)

unfoldable pub effective_hold_profile : List Hold → Option ProfileName
effective_hold_profile holds =
    if is_held ProfileName.power_saver holds
    then some ProfileName.power_saver
    else if is_held ProfileName.performance holds
    then some ProfileName.performance
    else none

-- `if let Some(target) = target { self.send_profile(target) }`
abbrev pub send_target : Option ProfileName → List Transition
send_target none = []
send_target (some p) = send_profile p

-- `fetch_add(1)` on an `AtomicU32`.
abbrev pub after_cookie : ℕ → ℕ
after_cookie c = (c + 1) % 2 ^ 32

-- `Shared::hold`
unfoldable pub hold :
    ProfileName → String → String → String → ProfileName → Shared → ℕ × List Transition × Shared
hold p why app owner current_active s =
    let holds =
      s.holds
      ++ record {
        cookie = s.next_cookie;
        profile = p;
        application_id = app;
        reason = why;
        holder = owner;
      }
        ∷ [] in
    (
      s.next_cookie,
      send_target (effective_hold_profile holds),
      record {
        holds = holds;
        next_cookie = after_cookie s.next_cookie;
        pre_hold_profile = if is_empty s.holds then some current_active else s.pre_hold_profile;
      },
    )

-- The cookies that `retain` collects, and the holds that it keeps.
unfoldable pub removed_cookies : (Hold → Bool) → List Hold → List ℕ
removed_cookies should_remove [] = []
removed_cookies should_remove (h ∷ hs) =
    let rest = removed_cookies should_remove hs in if should_remove h then h.cookie ∷ rest else rest

unfoldable pub retained : (Hold → Bool) → List Hold → List Hold
retained should_remove [] = []
retained should_remove (h ∷ hs) =
    let rest = retained should_remove hs in if should_remove h then rest else h ∷ rest

-- `Shared::remove_holds`: the cookies of the removed holds, and what the others come to.
unfoldable pub remove_holds : (Hold → Bool) → Shared → (List ℕ × Option ProfileName) × Shared
remove_holds should_remove s =
    let kept = retained should_remove s.holds in
    (
      (removed_cookies should_remove s.holds, effective_hold_profile kept),
      record s { holds = kept },
    )

-- `Shared::restore_pre_hold_snapshot`
unfoldable pub restore_pre_hold_snapshot : Shared → List Transition × Shared
restore_pre_hold_snapshot s = (send_target s.pre_hold_profile, record s { pre_hold_profile = none })

-- What `release_profile` and `run_holder_disconnect_watcher` do after `remove_holds`.
unfoldable pub settle : (List ℕ × Option ProfileName) × Shared → List Transition × Shared
settle (([], target), s) = ([], s)
settle ((c ∷ cs, some p), s) = (send_profile p, s)
settle ((c ∷ cs, none), s) = restore_pre_hold_snapshot s

unfoldable pub release_profile : ℕ → Shared → List Transition × Shared
release_profile cookie s = settle (remove_holds (λ h. h.cookie == cookie) s)

-- One signal of `run_holder_disconnect_watcher`, from the old and the new owner of a name.
unfoldable pub name_owner_changed :
    Option String → Option String → Shared → List Transition × Shared
name_owner_changed (some gone) none s = settle (remove_holds (λ h. h.holder == gone) s)
name_owner_changed _ _ s = ([], s)

-- `expected.as_ref().is_none_or(|p| *p == current)`
abbrev pub is_expected : Option ProfileName → ProfileName → Bool
is_expected none current = true
is_expected (some p) current = p == current

-- One round of `run_external_override_reconciler`, on the profile that the daemon now has: the
-- cookies that `ProfileReleased` is emitted for.
unfoldable pub profile_changed : ProfileName → Shared → List ℕ × Shared
profile_changed current s =
    if is_expected (effective_hold_profile s.holds) current then ([], s) else (
      removed_cookies (λ _. true) s.holds,
      record s { holds = retained (λ _. true) s.holds; pre_hold_profile = none },
    )
