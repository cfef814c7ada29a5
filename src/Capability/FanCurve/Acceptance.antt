-- ===== src/Capability/FanCurve/Acceptance.antt =====
-- Which curves the validations of hpd-capabilities/src/fan_curve.rs accept.
use hpd_handheld_power_daemo.Prelude.{
  ap, ◌∙◌, >>=-eq-ok, ℕ, ◌+◌, ◌≤◌, ◌<◌, ◌≡◌, refl, ◌↔◌, List, [], ◌∷◌, Option, none, some, ok,
  arith, All,
}
use hpd_handheld_power_daemo.Capability.FanCurve.{
  over_windows, FanCurvePoint, FanCurve, points, validate_windows, validate, FanCurveConstraints,
  strict_windows, required_duty, check_floor, check_point, check_points, validate_against,
}

-- The curve never spins the fan slower at a higher point, whichever two points are compared.
abbrev pub IsSorted : List FanCurvePoint → Type 0
IsSorted [] = Unit
IsSorted (p ∷ ps) = All (λ q. (p.temp_c ≤ q.temp_c) × (p.pwm ≤ q.pwm)) ps × IsSorted ps

abbrev pub IsStrict : List FanCurvePoint → Type 0
IsStrict [] = Unit
IsStrict (p ∷ ps) = All (λ q. (p.temp_c < q.temp_c) × (p.pwm ≤ q.pwm)) ps × IsStrict ps

sorted_trans :
    (p q : FanCurvePoint) (ps : List FanCurvePoint)
    → p.temp_c ≤ q.temp_c
    → p.pwm ≤ q.pwm
    → All (λ r. (q.temp_c ≤ r.temp_c) × (q.pwm ≤ r.pwm)) ps
    → All (λ r. (p.temp_c ≤ r.temp_c) × (p.pwm ≤ r.pwm)) ps
sorted_trans p q [] h k a = tt
sorted_trans p q (r ∷ ps) h k a = (omega arith, sorted_trans p q ps h k a.1)

strict_trans :
    (p q : FanCurvePoint) (ps : List FanCurvePoint)
    → p.temp_c < q.temp_c
    → p.pwm ≤ q.pwm
    → All (λ r. (q.temp_c < r.temp_c) × (q.pwm ≤ r.pwm)) ps
    → All (λ r. (p.temp_c < r.temp_c) × (p.pwm ≤ r.pwm)) ps
strict_trans p q [] h k a = tt
strict_trans p q (r ∷ ps) h k a = (omega arith, strict_trans p q ps h k a.1)

validate_windows_sound :
    (p : FanCurvePoint) (ps : List FanCurvePoint)
    → validate_windows p ps ≡ ok tt
    → IsSorted (p ∷ ps)
unfolding validate_windows
validate_windows_sound p [] h = (tt, tt)
validate_windows_sound p (q ∷ ps) h =
    ground (arith, validate_windows_sound q ps, sorted_trans p q ps)

validate_windows_complete :
    (p : FanCurvePoint) (ps : List FanCurvePoint)
    → IsSorted (p ∷ ps)
    → validate_windows p ps ≡ ok tt
unfolding validate_windows
validate_windows_complete p [] s = refl
validate_windows_complete p (q ∷ ps) s = ground (arith, validate_windows_complete q ps)

strict_windows_sound :
    (p : FanCurvePoint) (ps : List FanCurvePoint) → strict_windows p ps ≡ ok tt → IsStrict (p ∷ ps)
unfolding strict_windows
strict_windows_sound p [] h = (tt, tt)
strict_windows_sound p (q ∷ ps) h = ground (arith, strict_windows_sound q ps, strict_trans p q ps)

strict_windows_complete :
    (p : FanCurvePoint) (ps : List FanCurvePoint) → IsStrict (p ∷ ps) → strict_windows p ps ≡ ok tt
unfolding strict_windows
strict_windows_complete p [] s = refl
strict_windows_complete p (q ∷ ps) s = ground (arith, strict_windows_complete q ps)

validate_windows_list_iff :
    (ps : List FanCurvePoint) → (over_windows validate_windows ps ≡ ok tt) ↔ IsSorted ps
validate_windows_list_iff [] = (λ _. tt, λ _. refl)
validate_windows_list_iff (p ∷ ps) = (validate_windows_sound p ps, validate_windows_complete p ps)

strict_windows_list_iff :
    (ps : List FanCurvePoint) → (over_windows strict_windows ps ≡ ok tt) ↔ IsStrict ps
strict_windows_list_iff [] = (λ _. tt, λ _. refl)
strict_windows_list_iff (p ∷ ps) = (strict_windows_sound p ps, strict_windows_complete p ps)

-- `validate` accepts a curve exactly when neither temperature nor duty decreases from any of its
-- points to any later one.
pub validate_iff : (c : FanCurve) → (validate c ≡ ok tt) ↔ IsSorted (points c)
unfolding validate
validate_iff c = validate_windows_list_iff (points c)

-- Every threshold of the floor that the point has reached is met.
abbrev pub MeetsFloor : FanCurvePoint → List (ℕ × ℕ) → Type 0
MeetsFloor p = All (λ (f : ℕ × ℕ). f.0 ≤ p.temp_c → f.1 ≤ p.pwm)

-- A bound on an optional duty.
abbrev Covers : ℕ → Option ℕ → Type 0
Covers pwm none = Unit
Covers pwm (some required) = required ≤ pwm

required_duty_iff :
    (p : FanCurvePoint) (floor : List (ℕ × ℕ))
    → Covers p.pwm (required_duty p.temp_c floor) ↔ MeetsFloor p floor
unfolding required_duty
required_duty_iff p [] = (λ _. tt, λ _. tt)
required_duty_iff p ((t, d) ∷ floor) = ground (arith, required_duty_iff p floor)

pub record IsPointAllowed (c : FanCurveConstraints) (p : FanCurvePoint) : Type 0 where
  pub temp_min-le : c.temp_min_c ≤ p.temp_c
  pub le-temp_max : p.temp_c ≤ c.temp_max_c
  pub pwm_min-le : c.pwm_min ≤ p.pwm
  pub le-pwm_max : p.pwm ≤ c.pwm_max
  pub meets_floor : MeetsFloor p c.safety_floor

check_floor_iff :
    (i : ℕ) (p : FanCurvePoint) (o : Option ℕ) → (check_floor i p o ≡ ok tt) ↔ Covers p.pwm o
unfolding check_floor
check_floor_iff i p o = ground arith

check_point_iff :
    (c : FanCurveConstraints) (i : ℕ) (p : FanCurvePoint)
    → (check_point c i p ≡ ok tt) ↔ IsPointAllowed c p
unfolding check_point
check_point_iff c i p = ground (
  arith,
  check_floor_iff i p (required_duty p.temp_c c.safety_floor),
  required_duty_iff p c.safety_floor,
)

unit_eq : (u : Unit {0}) → u ≡ tt
unit_eq tt = refl

check_points_sound :
    (c : FanCurveConstraints) (i : ℕ) (ps : List FanCurvePoint)
    → check_points c i ps ≡ ok tt
    → All (IsPointAllowed c) ps
unfolding check_points
check_points_sound c i [] h = tt
check_points_sound c i (p ∷ ps) h =
    let (u, hp, hs) = >>=-eq-ok (check_point c (i + 1) p) _ h in
    ((check_point_iff c (i + 1) p).0 (hp ∙ ap ok (unit_eq u)), check_points_sound c (i + 1) ps hs)

check_points_complete :
    (c : FanCurveConstraints) (i : ℕ) (ps : List FanCurvePoint)
    → All (IsPointAllowed c) ps
    → check_points c i ps ≡ ok tt
unfolding check_points
check_points_complete c i [] a = refl
check_points_complete c i (p ∷ ps) a =
    rw ((check_point_iff c (i + 1) p).1 a.0) (check_points_complete c (i + 1) ps a.1)

-- `validate_against` accepts a curve exactly when its temperatures strictly increase and its
-- duties do not decrease from any point to any later one, and every point is in the range of the
-- device and has at least the duty of every threshold of the safety floor that it has reached.
pub validate_against_iff :
    (curve : FanCurve) (c : FanCurveConstraints)
    → (validate_against curve c ≡ ok tt)
      ↔ (IsStrict (points curve) × All (IsPointAllowed c) (points curve))
unfolding validate_against
validate_against_iff curve c = (
  λ h.
      let (u, hw, hp) = >>=-eq-ok (over_windows strict_windows (points curve)) _ h in
      (
        (strict_windows_list_iff (points curve)).0 (hw ∙ ap ok (unit_eq u)),
        check_points_sound c 0 (points curve) hp,
      ),
  λ h.
      rw ((strict_windows_list_iff (points curve)).1 h.0)
        (check_points_complete c 0 (points curve) h.1),
)
