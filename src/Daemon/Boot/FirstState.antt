-- ===== src/Daemon/Boot/FirstState.antt =====
-- The state that `run_daemon` of hpd-daemon/src/main.rs starts with, against its sources.
use hpd_handheld_power_daemo.Prelude.{
  ◌≤◌, ◌<◌, ℕ, refl, Bool-cases, inl, inr, ◌≡◌, ◌⊎◌, Option, none, some, arith, nat_eq, string_eq,
}
use hpd_handheld_power_daemo.Capability.Power.{PowerEnvelopeLimits}
use hpd_handheld_power_daemo.Capability.Backend.{HwBackend}
use hpd_handheld_power_daemo.Capability.FanCurve.{FanCurvePreset, FanCurveSelection}
use hpd_handheld_power_daemo.Core.State.{ProfileState}
use hpd_handheld_power_daemo.Daemon.Config.{DaemonConfig}
use hpd_handheld_power_daemo.Daemon.Boot.{
  value_or, filter, read, is_threshold, is_physically_plugged, curve_or_default, first_state,
  first_threshold, known_state, initial_state,
}

-- A threshold from what the device reports, or the one of the configuration.
abbrev pub IsThresholdOr : ℕ → Option ℕ → ℕ → Type 0
IsThresholdOr default reported n =
    ((reported ≡ some n) × (20 ≤ n) × (n ≤ 100))
    ⊎ ((n ≡ default)
        × ((reported ≡ none) ⊎ ((t : ℕ) × (reported ≡ some t) × ((t < 20) ⊎ (100 < t)))))

filter-IsThresholdOr :
    (default : ℕ) (reported : Option ℕ)
    → IsThresholdOr default reported (value_or (filter is_threshold reported) default)
filter-IsThresholdOr default none = inr (refl, inl refl)
filter-IsThresholdOr default (some t) = elim (Bool-cases (is_threshold t)) [
  | inl e ↦ rw e (inl (refl, ground arith, ground arith))
  | inr e ↦ rw e (inr (refl, inr (t, refl, ground arith)))
]

abbrev IsPresetOr : Option FanCurvePreset → Option FanCurveSelection → Type 0
IsPresetOr none curve = curve ≡ none
IsPresetOr (some p) curve = curve ≡ some (FanCurveSelection.preset p)

-- A stored curve, or the one of the configuration where none is stored.
abbrev pub IsCurveOr :
    Option FanCurvePreset → Option FanCurveSelection → Option FanCurveSelection → Type 0
IsCurveOr default stored curve =
    ((f : FanCurveSelection) × (stored ≡ some f) × (curve ≡ some f))
    ⊎ ((stored ≡ none) × IsPresetOr default curve)

curve_or_default-IsCurveOr :
    (default : Option FanCurvePreset) (stored : Option FanCurveSelection)
    → IsCurveOr default stored (curve_or_default stored default)
curve_or_default-IsCurveOr default (some f) = inl (f, refl, refl)
curve_or_default-IsCurveOr none none = inr (refl, refl)
curve_or_default-IsCurveOr (some p) none = inr (refl, refl)

IsPresetOr-default :
    (default : Option FanCurvePreset) → IsPresetOr default (curve_or_default none default)
IsPresetOr-default none = refl
IsPresetOr-default (some p) = refl

module _ {ℓ} {H : Type ℓ} (backend : HwBackend H) (h : H) where
  pub is_ac_connected-initial_state :
      (limits : PowerEnvelopeLimits) (cfg : DaemonConfig) (loaded : Option ProfileState)
      → (initial_state backend h limits cfg loaded).is_ac_connected
        ≡ is_physically_plugged backend h
  unfolding initial_state known_state first_state
  is_ac_connected-initial_state limits cfg none = refl
  is_ac_connected-initial_state limits cfg (some s) = refl

  pub initial_state-profile :
      (limits : PowerEnvelopeLimits) (cfg : DaemonConfig) (loaded : Option ProfileState)
      → (initial_state backend h limits cfg loaded).active_profile ≡ cfg.default_platform_profile
  unfolding initial_state
  initial_state-profile limits cfg loaded = refl

  module _ (limits : PowerEnvelopeLimits) (cfg : DaemonConfig) where
    -- The threshold and the curve of a first state: those of the state file, where there is one.
    abbrev pub IsFirstThreshold : Option ProfileState → ℕ → Type 0
    IsFirstThreshold (some stored) n = n ≡ stored.charge_end_threshold
    IsFirstThreshold none n =
        IsThresholdOr cfg.default_charge_threshold
          (read backend.charge (λ c. c.get_end_threshold h)) n

    abbrev pub IsFirstCurve : Option ProfileState → Option FanCurveSelection → Type 0
    IsFirstCurve (some stored) curve = IsCurveOr cfg.default_fan_curve stored.active_fan_curve curve
    IsFirstCurve none curve = IsPresetOr cfg.default_fan_curve curve

    pub initial_state-IsFirst :
        (loaded : Option ProfileState)
        → let s = initial_state backend h limits cfg loaded in
          IsFirstThreshold loaded s.charge_end_threshold × IsFirstCurve loaded s.active_fan_curve
    unfolding initial_state known_state first_state first_threshold
    initial_state-IsFirst (some stored) =
        (refl, curve_or_default-IsCurveOr cfg.default_fan_curve stored.active_fan_curve)
    initial_state-IsFirst none = (
      filter-IsThresholdOr cfg.default_charge_threshold
          (read backend.charge (λ c. c.get_end_threshold h)),
      IsPresetOr-default cfg.default_fan_curve,
    )
