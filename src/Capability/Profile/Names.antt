-- ===== src/Capability/Profile/Names.antt =====
use hpd_handheld_power_daemo.Text.{trim, to_lowercase}
use Prim.Native.String.{◌++◌}
use hpd_handheld_power_daemo.Prelude.{
  refl, ap, ◌∙◌, ◌≡◌, ◌↔◌, arith, ◌||◌, ok, err, Result, String, ◌==◌, nat_eq, string_eq,
  if◌then◌else◌,
}
use hpd_handheld_power_daemo.Capability.Profile.{ProfileName, TdpPreset}

-- hpd-capabilities/src/profile.rs: the names of profiles and presets, printed (`Display`) and read
-- (`FromStr`).
unfoldable pub display_profile : ProfileName → String
display_profile ProfileName.power_saver = "power-saver"
display_profile ProfileName.balanced = "balanced"
display_profile ProfileName.performance = "performance"
display_profile (ProfileName.custom s) = s

-- The `match` of `from_str` on the text in lower case.
abbrev pub profile_named : String → ProfileName
profile_named other =
    if other == "powersaver" || other == "power-saver" || other == "quiet" || other == "low-power"
    then ProfileName.power_saver
    else if other == "balanced"
    then ProfileName.balanced
    else if other == "performance"
    then ProfileName.performance
    else ProfileName.custom other

unfoldable pub profile_from_str : String → Result String ProfileName
profile_from_str s =
    if trim s == "" then err "profile name cannot be empty" else ok (profile_named (to_lowercase s))

unfoldable pub display_preset : TdpPreset → String
display_preset TdpPreset.eco = "eco"
display_preset TdpPreset.efficiency = "efficiency"
display_preset TdpPreset.balanced = "balanced"
display_preset TdpPreset.max = "max"

-- The `match` of `from_str` on the text in lower case.
abbrev pub preset_named : String → Result String TdpPreset
preset_named other =
    if other == "eco"
    then ok TdpPreset.eco
    else if other == "efficiency"
    then ok TdpPreset.efficiency
    else if other == "balanced"
    then ok TdpPreset.balanced
    else if other == "max"
    then ok TdpPreset.max
    else err ("unknown TDP preset '" ++ (other ++ "': use one of eco, efficiency, balanced, max"))

unfoldable pub preset_from_str : String → Result String TdpPreset
preset_from_str s = preset_named (to_lowercase s)

preset_named-display_preset : (p : TdpPreset) → preset_named (display_preset p) ≡ ok p
unfolding display_preset
preset_named-display_preset TdpPreset.eco = refl
preset_named-display_preset TdpPreset.efficiency = refl
preset_named-display_preset TdpPreset.balanced = refl
preset_named-display_preset TdpPreset.max = refl

display_preset-preset_named :
    (other : String) (p : TdpPreset) → preset_named other ≡ ok p → other ≡ display_preset p
unfolding display_preset
display_preset-preset_named other p h = ground (
  arith,
  string_eq.beq_iff other "eco",
  string_eq.beq_iff other "efficiency",
  string_eq.beq_iff other "balanced",
  string_eq.beq_iff other "max",
)

-- A text is read as a preset just when its lower case is the text that the preset is printed as.
pub preset_from_str-display_preset :
    (s : String) (p : TdpPreset) → (preset_from_str s ≡ ok p) ↔ (to_lowercase s ≡ display_preset p)
unfolding preset_from_str
preset_from_str-display_preset s p = (
  display_preset-preset_named (to_lowercase s) p,
  λ e. ap preset_named e ∙ preset_named-display_preset p,
)
