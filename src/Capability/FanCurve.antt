-- ===== src/Capability/FanCurve.antt =====
-- hpd-capabilities/src/fan_curve.rs: fan curves, their validation, presets and selections.
-- Temperatures and duties are `u8` values.
pub mod Acceptance
use hpd_handheld_power_daemo.Prelude.{
  ℕ, ◌+◌, ◌≡◌, ◌↔◌, Bool, true, false, ◌&&◌, ◌||◌, List, [], ◌∷◌, Option, none, some, max, Equality,
  ◌==◌, nat_eq, list_eq, list_beq_iff, arith, ltb, leb, if◌then◌else◌, ok, err, ◌>>◌,
}
use hpd_handheld_power_daemo.Error.{
  Fallible, invariant_violation, temperature_decreases, temperature_not_increasing, duty_decreases,
  point_temperature_out_of_range, point_duty_out_of_range, point_below_safety_floor,
}

abbrev pub pwm_max : ℕ
pwm_max = 255

pub record FanCurvePoint : Type 0 where
  pub temp_c : ℕ
  pub pwm : ℕ

unfoldable pub point_beq : FanCurvePoint → FanCurvePoint → Bool
point_beq a b = a.temp_c == b.temp_c && a.pwm == b.pwm

pub point_beq_iff : (a b : FanCurvePoint) → (point_beq a b ≡ true) ↔ (a ≡ b)
unfolding point_beq
point_beq_iff a b = ground arith

instance abbrev pub point_eq : Equality FanCurvePoint
point_eq = record { beq = point_beq; beq_iff = point_beq_iff }

-- `[FanCurvePoint; FAN_CURVE_POINTS]`: the eight points, by number.
pub record FanCurve : Type 0 where
  pub point1 : FanCurvePoint
  pub point2 : FanCurvePoint
  pub point3 : FanCurvePoint
  pub point4 : FanCurvePoint
  pub point5 : FanCurvePoint
  pub point6 : FanCurvePoint
  pub point7 : FanCurvePoint
  pub point8 : FanCurvePoint

abbrev pub points : FanCurve → List FanCurvePoint
points c =
    c.point1 ∷ c.point2 ∷ c.point3 ∷ c.point4 ∷ c.point5 ∷ c.point6 ∷ c.point7 ∷ c.point8 ∷ []

unfoldable pub curve_beq : FanCurve → FanCurve → Bool
curve_beq a b = points a == points b

pub points-injective : (a b : FanCurve) → points a ≡ points b → a ≡ b
points-injective a b h = cc h

pub curve_beq_iff : (a b : FanCurve) → (curve_beq a b ≡ true) ↔ (a ≡ b)
unfolding curve_beq
curve_beq_iff a b = (
  λ h. points-injective a b ((list_beq_iff (points a) (points b)).0 h),
  λ p. (list_beq_iff (points a) (points b)).1 (cc),
)

instance abbrev pub curve_eq : Equality FanCurve
curve_eq = record { beq = curve_beq; beq_iff = curve_beq_iff }

-- The loop of `validate` over `windows(2)`.
unfoldable pub validate_windows : FanCurvePoint → List FanCurvePoint → Fallible (Unit {0})
validate_windows prev [] = ok tt
validate_windows prev (next ∷ rest) =
    if ltb next.temp_c prev.temp_c
    then err (invariant_violation (temperature_decreases next.temp_c prev.temp_c))
    else if ltb next.pwm prev.pwm
    then err (invariant_violation (duty_decreases next.pwm prev.pwm))
    else validate_windows next rest

abbrev pub over_windows :
    (FanCurvePoint → List FanCurvePoint → Fallible (Unit {0}))
    → List FanCurvePoint
    → Fallible (Unit {0})
over_windows loop [] = ok tt
over_windows loop (p ∷ ps) = loop p ps

unfoldable pub validate : FanCurve → Fallible (Unit {0})
unfolding validate_windows
validate c = over_windows validate_windows (points c)

-- (threshold, min_pwm) pairs in `safety_floor`
pub record FanCurveConstraints : Type 0 where
  pub temp_min_c : ℕ
  pub temp_max_c : ℕ
  pub pwm_min : ℕ
  pub pwm_max : ℕ
  pub safety_floor : List (ℕ × ℕ)

-- The first loop of `validate_against`.
unfoldable pub strict_windows : FanCurvePoint → List FanCurvePoint → Fallible (Unit {0})
strict_windows prev [] = ok tt
strict_windows prev (next ∷ rest) =
    if leb next.temp_c prev.temp_c
    then err (invariant_violation (temperature_not_increasing next.temp_c prev.temp_c))
    else if ltb next.pwm prev.pwm
    then err (invariant_violation (duty_decreases next.pwm prev.pwm))
    else strict_windows next rest

-- The larger of a value and an optional one, as `Iterator::max` folds.
abbrev pub max_option : ℕ → Option ℕ → Option ℕ
max_option n none = some n
max_option n (some m) = some (max n m)

-- The highest `min_pwm` among the thresholds that the temperature has reached.
unfoldable pub required_duty : ℕ → List (ℕ × ℕ) → Option ℕ
required_duty temp [] = none
required_duty temp ((threshold, min_pwm) ∷ rest) =
    let above = required_duty temp rest in
    if leb threshold temp then max_option min_pwm above else above

unfoldable pub check_floor : ℕ → FanCurvePoint → Option ℕ → Fallible (Unit {0})
check_floor point p none = ok tt
check_floor point p (some required) =
    if ltb p.pwm required
    then err (invariant_violation (point_below_safety_floor point p.temp_c required p.pwm))
    else ok tt

-- One round of the second loop of `validate_against`.
unfoldable pub check_point : FanCurveConstraints → ℕ → FanCurvePoint → Fallible (Unit {0})
unfolding check_floor
check_point c point p =
    if ltb p.temp_c c.temp_min_c || ltb c.temp_max_c p.temp_c
    then err (
        invariant_violation
          (point_temperature_out_of_range point p.temp_c c.temp_min_c c.temp_max_c))
    else if ltb p.pwm c.pwm_min || ltb c.pwm_max p.pwm
    then err (invariant_violation (point_duty_out_of_range point p.pwm c.pwm_min c.pwm_max))
    else check_floor point p (required_duty p.temp_c c.safety_floor)

-- The second loop of `validate_against`; `i` points are done.
unfoldable pub check_points : FanCurveConstraints → ℕ → List FanCurvePoint → Fallible (Unit {0})
check_points c i [] = ok tt
check_points c i (p ∷ ps) = let rest = check_points c (i + 1) ps in check_point c (i + 1) p >> rest

unfoldable pub validate_against : FanCurve → FanCurveConstraints → Fallible (Unit {0})
validate_against curve c =
    over_windows strict_windows (points curve) >> check_points c 0 (points curve)

pub data FanCurvePreset : Type 0 where
  silent balanced aggressive : FanCurvePreset

unfoldable pub preset_beq : FanCurvePreset → FanCurvePreset → Bool
preset_beq silent silent = true
preset_beq balanced balanced = true
preset_beq aggressive aggressive = true
preset_beq _ _ = false

pub preset_beq_iff : (a b : FanCurvePreset) → (preset_beq a b ≡ true) ↔ (a ≡ b)
unfolding preset_beq
preset_beq_iff a b = ground arith

instance abbrev pub preset_eq : Equality FanCurvePreset
preset_eq = record { beq = preset_beq; beq_iff = preset_beq_iff }

pub data FanCurveSelection : Type 0 where
  preset : FanCurvePreset → FanCurveSelection
  custom : FanCurve → FanCurve → FanCurveSelection

unfoldable pub selection_beq : FanCurveSelection → FanCurveSelection → Bool
selection_beq (preset p) (preset q) = p == q
selection_beq (custom c g) (custom c' g') = c == c' && g == g'
selection_beq _ _ = false

pub selection_beq_iff : (a b : FanCurveSelection) → (selection_beq a b ≡ true) ↔ (a ≡ b)
unfolding selection_beq
selection_beq_iff (preset p) (preset q) = ground (arith, preset_beq_iff p q)
selection_beq_iff (custom c g) (custom c' g') =
    ground (arith, curve_beq_iff c c', curve_beq_iff g g')
selection_beq_iff a b = ground arith

instance abbrev pub selection_eq : Equality FanCurveSelection
selection_eq = record { beq = selection_beq; beq_iff = selection_beq_iff }
