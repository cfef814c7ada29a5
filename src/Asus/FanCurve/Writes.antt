-- ===== src/Asus/FanCurve/Writes.antt =====
-- The writes of `apply` of hpd-backend-asus/src/fan_curve.rs as a list.
use hpd_handheld_power_daemo.Prelude.{refl, ◌≡◌, ok, err, String, nat_eq, string_eq, List}
use Prim.Native.String.{◌++◌}
use mathlib.Core.Path.{fun_ext}
use hpd_handheld_power_daemo.Prelude.{append, ap, sym, ◌∙◌, ℕ, ◌+◌}
use hpd_handheld_power_daemo.Decimal.{to_string}
use hpd_handheld_power_daemo.Capability.Backend.{Write}
use hpd_handheld_power_daemo.Capability.FanCurve.{FanCurvePoint, points}
use hpd_handheld_power_daemo.Asus.FanCurve.{enable_attr, write, write_points_from, point_attr}
use hpd_handheld_power_daemo.Asus.FanCurve.Attributes.{point_writes, applied_writes}
use hpd_handheld_power_daemo.Error.{Fallible}
use hpd_handheld_power_daemo.Sysfs.{SysfsIo}
use hpd_handheld_power_daemo.Capability.FanCurve.{FanCurve, curve_eq}
use hpd_handheld_power_daemo.Asus.Power.{and_then}
use hpd_handheld_power_daemo.Asus.FanCurve.{write_curves}

module _ {ℓ} {H : Type ℓ} (sysfs : SysfsIo H) (base : String) where
  -- Writes of attributes in a row, up to the first that fails.
  unfoldable pub write_all : List (String × String) → Write H
  write_all List.[] h = (ok tt, h)
  write_all (List.◌∷◌ (a, v) ws) h = and_then (write sysfs (base ++ a) v h) (write_all ws)

  and_then_assoc :
      (x : Fallible (Unit {0}) × H) (f g : Write H)
      → and_then (and_then x f) g ≡ and_then x (λ h. and_then (f h) g)
  and_then_assoc (ok u, h) f g = refl
  and_then_assoc (err e, h) f g = refl

  write_all-append :
      (ws vs : List (String × String)) (h : H)
      → write_all (append ws vs) h ≡ and_then (write_all ws h) (write_all vs)
  unfolding write_all
  write_all-append List.[] vs h = refl
  write_all-append (List.◌∷◌ (a, v) ws) vs h =
      ap (and_then (write sysfs (base ++ a) v h)) (fun_ext (write_all-append ws vs))
      ∙ sym (and_then_assoc (write sysfs (base ++ a) v h) (write_all ws) (write_all vs))

  write_points_from-write_all :
      (fan i : ℕ) (ps : List FanCurvePoint) (h : H)
      → write_points_from sysfs base fan i ps h ≡ write_all (point_writes fan i ps) h
  unfolding write_points_from write_all
  write_points_from-write_all fan i List.[] h = refl
  write_points_from-write_all fan i (List.◌∷◌ p ps) h =
      let temp = write sysfs (base ++ point_attr fan (i + 1) "temp") (to_string p.temp_c) in
      let pwm = write sysfs (base ++ point_attr fan (i + 1) "pwm") (to_string p.pwm) in
      and_then_assoc (temp h) pwm (write_points_from sysfs base fan (i + 1) ps)
      ∙ ap (and_then (temp h)) (
          fun_ext
            (λ h1. ap (and_then (pwm h1)) (fun_ext (write_points_from-write_all fan (i + 1) ps))))

  and_then-done : (x : Fallible (Unit {0}) × H) → and_then x (λ h. (ok tt, h)) ≡ x
  and_then-done (ok u, h) = refl
  and_then-done (err e, h) = refl

  write-write_all :
      (a v : String) (h : H) → write sysfs (base ++ a) v h ≡ write_all (List.◌∷◌ (a, v) List.[]) h
  unfolding write_all
  write-write_all a v h = sym (and_then-done (write sysfs (base ++ a) v h))

  and_then-write_all :
      (ws vs : List (String × String)) (h : H) (x : Fallible (Unit {0}) × H) (f : Write H)
      → x ≡ write_all ws h
      → ((h' : H) → f h' ≡ write_all vs h')
      → and_then x f ≡ write_all (append ws vs) h
  and_then-write_all ws vs h x f e g =
      ap (λ y. and_then y f) e
      ∙ ap (and_then (write_all ws h)) (fun_ext g)
      ∙ sym (write_all-append ws vs h)

  pub write_curves-write_all :
      (cpu gpu : FanCurve) (h : H)
      → write_curves sysfs base (cpu, gpu) h ≡ write_all (applied_writes cpu gpu) h
  unfolding write_curves
  write_curves-write_all cpu gpu h =
      and_then-write_all _ _ h _ _
        (and_then-write_all _ _ h _ _
          (and_then-write_all _ _ h _ _ (write_points_from-write_all 1 0 (points cpu) h)
            (write_points_from-write_all 2 0 (points gpu)))
          (write-write_all (enable_attr 1) "1"))
        (write-write_all (enable_attr 2) "1")
