-- ===== src/Asus/FanCurve/ReadBack.antt =====
-- What hpd-backend-asus/src/fan_curve.rs reads back after `apply`, on a file system that keeps what
-- is written.
use hpd_handheld_power_daemo.Prelude.{
  refl, ap, ◌∙◌, ℕ, ◌≤◌, ◌≡◌, none, some, ok, err, arith, String, nat_eq, string_eq, All, List,
}
use hpd_handheld_power_daemo.Decimal.{to_string, digits, parse-to_string, trim-to_string}
use hpd_handheld_power_daemo.Text.{trim, trim_start, trim_end}
use hpd_handheld_power_daemo.Error.{Fallible}
use hpd_handheld_power_daemo.Sysfs.{SysfsIo, IsStore}
use hpd_handheld_power_daemo.Capability.FanCurve.{
  FanCurvePoint, FanCurve, FanCurveSelection, curve_eq, points,
}
use hpd_handheld_power_daemo.Asus.FanCurve.{
  and_then, curve_hwmon_name, enable_attr, point_path, of_parsed_u8, resolve, of_base, curve_base,
  read_u8, read_point, read_fan_points, get_curves, confirm, write_curves, apply, match_preset,
  known_presets, active_selection, reset_to_auto,
}
use hpd_handheld_power_daemo.Asus.FanCurve.Selections.{match_preset-IsReportOf, IsReportOf}
use hpd_handheld_power_daemo.Asus.FanCurve.Attributes.{
  Leaves, applied_writes, write-Leaves, and_then-Leaves, write_points_from-Leaves, enable-IsNoName,
  find_hwmon_by_name-Leaves,
}

-- The temperature and the duty of a point are of type `u8`.
abbrev pub IsU8Point : FanCurvePoint → Type 0
IsU8Point p = (p.temp_c ≤ 255) × (p.pwm ≤ 255)

abbrev pub IsU8Curve : FanCurve → Type 0
IsU8Curve c = All IsU8Point (points c)

plain_one : trim "1" ≡ "1"
unfolding trim trim_start trim_end
plain_one = refl

plain_two : trim "2" ≡ "2"
unfolding trim trim_start trim_end
plain_two = refl

module _ {ℓ} {H : Type ℓ} (sysfs : SysfsIo H) where
  read_u8-to_string :
      (path : String) (n : ℕ) (h : H)
      → n ≤ 255
      → sysfs.read_string path h ≡ ok (to_string n)
      → read_u8 sysfs path h ≡ ok n
  unfolding read_u8
  read_u8-to_string path n h small e =
      rw (e, trim-to_string n)
        (ap (λ o. of_parsed_u8 (to_string n) o)
          (parse-to_string 255 n small (omega (arith, small))))

  read_point-to_string :
      (base : String) (fan point : ℕ) (p : FanCurvePoint) (h : H)
      → IsU8Point p
      → sysfs.read_string (point_path base fan point "temp") h ≡ ok (to_string p.temp_c)
      → sysfs.read_string (point_path base fan point "pwm") h ≡ ok (to_string p.pwm)
      → read_point sysfs base fan point h ≡ ok p
  read_point-to_string base fan point p h small et ep =
      rw (read_u8-to_string _ p.temp_c h small.0 et, read_u8-to_string _ p.pwm h small.1 ep) refl

  module _ (store : IsStore sysfs) (base : String) where
    write_curves-Leaves :
        (cpu gpu : FanCurve) (h : H)
        → Leaves sysfs store base (applied_writes cpu gpu) h (write_curves sysfs base (cpu, gpu) h)
    unfolding write_curves
    write_curves-Leaves cpu gpu h =
        and_then-Leaves sysfs store base _ _ h _ _
          (and_then-Leaves sysfs store base _ _ h _ _
            (and_then-Leaves sysfs store base _ _ h _ _
              (write_points_from-Leaves sysfs store base 1 0 (points cpu) h)
              (write_points_from-Leaves sysfs store base 2 0 (points gpu) _))
            (write-Leaves sysfs store base (enable_attr 1) "1" _ (enable-IsNoName 1) plain_one))
          (write-Leaves sysfs store base (enable_attr 2) "1" _ (enable-IsNoName 2) plain_one)

    cpu_points :
        (cpu gpu : FanCurve) (h : H) (x : Fallible (Unit {0}) × H)
        → Leaves sysfs store base (applied_writes cpu gpu) h x
        → IsU8Curve cpu
        → read_fan_points sysfs base 1 x.1 ≡ ok cpu
    unfolding read_fan_points to_string digits
    cpu_points cpu gpu h x l (s1, (s2, (s3, (s4, (s5, (s6, (s7, (s8, _)))))))) =
        let point = read_point-to_string base 1 in
        rw
          (
            point 1 cpu.point1 x.1 s1 (l.reads _) (l.reads _),
            point 2 cpu.point2 x.1 s2 (l.reads _) (l.reads _),
            point 3 cpu.point3 x.1 s3 (l.reads _) (l.reads _),
            point 4 cpu.point4 x.1 s4 (l.reads _) (l.reads _),
            point 5 cpu.point5 x.1 s5 (l.reads _) (l.reads _),
            point 6 cpu.point6 x.1 s6 (l.reads _) (l.reads _),
            point 7 cpu.point7 x.1 s7 (l.reads _) (l.reads _),
            point 8 cpu.point8 x.1 s8 (l.reads _) (l.reads _),
          )
          refl

    gpu_points :
        (cpu gpu : FanCurve) (h : H) (x : Fallible (Unit {0}) × H)
        → Leaves sysfs store base (applied_writes cpu gpu) h x
        → IsU8Curve gpu
        → read_fan_points sysfs base 2 x.1 ≡ ok gpu
    unfolding read_fan_points to_string digits
    gpu_points cpu gpu h x l (s1, (s2, (s3, (s4, (s5, (s6, (s7, (s8, _)))))))) =
        let point = read_point-to_string base 2 in
        rw
          (
            point 1 gpu.point1 x.1 s1 (l.reads _) (l.reads _),
            point 2 gpu.point2 x.1 s2 (l.reads _) (l.reads _),
            point 3 gpu.point3 x.1 s3 (l.reads _) (l.reads _),
            point 4 gpu.point4 x.1 s4 (l.reads _) (l.reads _),
            point 5 gpu.point5 x.1 s5 (l.reads _) (l.reads _),
            point 6 gpu.point6 x.1 s6 (l.reads _) (l.reads _),
            point 7 gpu.point7 x.1 s7 (l.reads _) (l.reads _),
            point 8 gpu.point8 x.1 s8 (l.reads _) (l.reads _),
          )
          refl

    curve_base-Leaves :
        (ws : List (String × String)) (h : H) (x : Fallible (Unit {0}) × H)
        → Leaves sysfs store base ws h x
        → curve_base sysfs h ≡ ok base
        → curve_base sysfs x.1 ≡ ok base
    curve_base-Leaves ws h x l found =
        ap (of_base sysfs) (find_hwmon_by_name-Leaves sysfs store base ws h x l curve_hwmon_name)
        ∙ found

    get_curves-Leaves :
        (cpu gpu : FanCurve) (h : H) (x : Fallible (Unit {0}) × H)
        → Leaves sysfs store base (applied_writes cpu gpu) h x
        → curve_base sysfs h ≡ ok base
        → IsU8Curve cpu
        → IsU8Curve gpu
        → get_curves sysfs x.1 ≡ ok (cpu, gpu)
    unfolding get_curves
    get_curves-Leaves cpu gpu h x l found c g =
        rw (curve_base-Leaves _ h x l found, cpu_points cpu gpu h x l c, gpu_points cpu gpu h x l g)
          refl

    active_selection-Leaves :
        (cpu gpu : FanCurve) (h : H) (x : Fallible (Unit {0}) × H)
        → Leaves sysfs store base (applied_writes cpu gpu) h x
        → curve_base sysfs h ≡ ok base
        → IsU8Curve cpu
        → IsU8Curve gpu
        → active_selection sysfs x.1 ≡ ok (some (match_preset (cpu, gpu) known_presets))
    unfolding active_selection to_string digits trim trim_start trim_end
    active_selection-Leaves cpu gpu h x l found c g =
        rw
          (
            curve_base-Leaves _ h x l found,
            l.reads (enable_attr 1),
            get_curves-Leaves cpu gpu h x l found c g,
          )
          refl

    apply-write_curves :
        (selection : FanCurveSelection) (curves : FanCurve × FanCurve) (h : H)
        → curve_base sysfs h ≡ ok base
        → resolve selection ≡ ok curves
        → apply sysfs selection h
          ≡ and_then (write_curves sysfs base curves h) (confirm sysfs curves)
    unfolding apply
    apply-write_curves selection curves h found e = rw (e, found) refl

    confirmed :
        (cpu gpu : FanCurve) (x : Fallible (Unit {0}) × H)
        → x.0 ≡ ok tt
        → get_curves sysfs x.1 ≡ ok (cpu, gpu)
        → and_then x (confirm sysfs (cpu, gpu)) ≡ (ok tt, x.1)
    confirmed cpu gpu (err e, h) o r = cc
    confirmed cpu gpu (ok u, h) o r =
        rw (r, (curve_eq.beq_iff cpu cpu).1 refl, (curve_eq.beq_iff gpu gpu).1 refl) refl

module _ {ℓ} {H : Type ℓ} (sysfs : SysfsIo H) where
  -- On a file system that keeps what is written, with the device of the fan curves present and curves
  -- of `u8` values, a selection that resolves to curves is applied: `apply` succeeds, `get_curves`
  -- reads the curves back, and `active_selection` reports the preset that was applied, or for a custom
  -- selection one that resolves to the same curves.
  pub active_selection-apply :
      (store : IsStore sysfs) (base : String) (selection : FanCurveSelection)
      (curves : FanCurve × FanCurve) (h : H)
      → curve_base sysfs h ≡ ok base
      → resolve selection ≡ ok curves
      → IsU8Curve curves.0
      → IsU8Curve curves.1
      → ((apply sysfs selection h).0 ≡ ok tt)
        × (get_curves sysfs (apply sysfs selection h).1 ≡ ok curves)
        × (reported : FanCurveSelection) × (active_selection sysfs (apply sysfs selection h).1
            ≡ ok (some reported))
        × IsReportOf selection curves reported
  active_selection-apply store base selection (cpu, gpu) h found e c g =
      let l = write_curves-Leaves sysfs store base cpu gpu h in
      let read = get_curves-Leaves sysfs store base cpu gpu h _ l found c g in
      let written =
        apply-write_curves sysfs store base selection (cpu, gpu) h found e
        ∙ confirmed sysfs store base cpu gpu _ l.succeeds read in
      rw written (
        refl,
        read,
        match_preset (cpu, gpu) known_presets,
        active_selection-Leaves sysfs store base cpu gpu h _ l found c g,
        match_preset-IsReportOf selection (cpu, gpu) e,
      )

  -- On a file system that keeps what is written, with the device of the fan curves present,
  -- `reset_to_auto` succeeds, and `active_selection` then reports that no curve is in charge.
  pub active_selection-reset_to_auto :
      (store : IsStore sysfs) (base : String) (h : H)
      → curve_base sysfs h ≡ ok base
      → ((reset_to_auto sysfs h).0 ≡ ok tt)
        × (active_selection sysfs (reset_to_auto sysfs h).1 ≡ ok none)
  unfolding reset_to_auto active_selection to_string digits trim trim_start trim_end
  active_selection-reset_to_auto store base h found =
      let l =
        and_then-Leaves sysfs store base _ _ h _ _
          (write-Leaves sysfs store base (enable_attr 1) "2" h (enable-IsNoName 1) plain_two)
          (write-Leaves sysfs store base (enable_attr 2) "2" _ (enable-IsNoName 2) plain_two) in
      rw found (
        l.succeeds,
        rw (curve_base-Leaves sysfs store base _ h _ l found, l.reads (enable_attr 1)) refl,
      )
