-- ===== src/Tests/ShimRuns.antt =====
-- Runs of the stand-in for power-profiles-daemon (hpd-dbus/src/ppd_shim.rs) and of the names of presets.
use hpd_handheld_power_daemo.Prelude.{
  refl, ◌≡◌, ◌↔◌, none, some, ok, nat_eq, string_eq, List, [], ◌∷◌,
}
use hpd_handheld_power_daemo.Text.{to_lowercase}
use hpd_handheld_power_daemo.Capability.Profile.{
  ProfileName, profile_beq, TdpPreset, default_config,
}
use hpd_handheld_power_daemo.Capability.Profile.Names.{
  preset_from_str, display_preset, preset_from_str-display_preset,
}
use hpd_handheld_power_daemo.Dbus.PpdShim.{
  new_shared, hold, profile_changed, effective_hold_profile, removed_cookies, retained,
}
use hpd_handheld_power_daemo.Dbus.HoldStack.{
  demanded, HoldEvent, hold_request, release, owner_change, after_events, steps,
}
use hpd_handheld_power_daemo.Dbus.HoldStack.Settled.{session_of}
use hpd_handheld_power_daemo.Dbus.HoldStack.Refinement.{new_stack, steps-after_events}
use hpd_handheld_power_daemo.Dbus.HoldStack.Locked.{steps-locked}
use hpd_handheld_power_daemo.Tests.Data.{limits, on_battery, on_ac}

-- A game holds performance, a player asks for power saving, the game crashes, and the player is done.
abbrev game_and_player : List HoldEvent
game_and_player =
    hold_request "performance" "game" "game-performance" (some ":1.7")
    ∷ hold_request "power-saver" "movie" "player" (some ":1.9")
    ∷ owner_change (some ":1.7") none
    ∷ release 2
    ∷ []

steps-after_events_example :
    steps limits default_config game_and_player (record { shared = new_shared; state = on_battery })
    ≡ session_of demanded on_battery (after_events demanded game_and_player (new_stack on_battery))
steps-after_events_example =
    steps-after_events limits default_config on_battery refl game_and_player

steps-locked_example :
    (steps limits default_config game_and_player
      (record { shared = new_shared; state = on_ac })).state
    ≡ on_ac
steps-locked_example = steps-locked limits default_config on_ac refl game_and_player new_shared

-- A state that is published before the executor has taken the profile of a new hold releases the hold.
early_publication :
    (profile_changed ProfileName.balanced
      (hold ProfileName.performance "game" "game-performance" ":1.7" ProfileName.balanced
        new_shared).2).0
    ≡ 1 ∷ []
unfolding profile_changed hold effective_hold_profile removed_cookies retained profile_beq
early_publication = refl

preset_in_mixed_case :
    (preset_from_str "Max" ≡ ok TdpPreset.max) ↔ (to_lowercase "Max" ≡ display_preset TdpPreset.max)
preset_in_mixed_case = preset_from_str-display_preset "Max" TdpPreset.max

max_in_lower_case : to_lowercase "Max" ≡ "max"
unfolding to_lowercase
max_in_lower_case = refl
