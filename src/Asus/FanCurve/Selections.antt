-- ===== src/Asus/FanCurve/Selections.antt =====
-- What the selections of hpd-backend-asus/src/fan_curve.rs resolve to, and what `apply` writes.
use hpd_handheld_power_daemo.Asus.FanCurve.Writes.{write_all, write_curves-write_all}
use hpd_handheld_power_daemo.Prelude.{
  refl, ◌&&◌, Bool-cases, inl, inr, ◌≡◌, ◌⊎◌, ok, err, arith, String, ◌==◌, nat_eq, string_eq, List,
}
use hpd_handheld_power_daemo.Prelude.{>>=-eq-ok, ap, sym, ◌∙◌, ◌||◌, ◌!=◌}
use hpd_handheld_power_daemo.Asus.FanCurve.{mismatch, get_curves}
use hpd_handheld_power_daemo.Asus.FanCurve.Attributes.{applied_writes}
use hpd_handheld_power_daemo.Error.{Fallible, HpdError}
use hpd_handheld_power_daemo.Sysfs.{SysfsIo}
use hpd_handheld_power_daemo.Capability.FanCurve.{
  FanCurve, FanCurvePreset, FanCurveSelection, curve_eq, curve_beq, point_beq, validate_against,
  strict_windows, check_points, check_point, check_floor, required_duty,
}
use hpd_handheld_power_daemo.Asus.Power.{and_then}
use hpd_handheld_power_daemo.Asus.FanCurve.{
  resolve, match_preset, known_presets, preset_curve, preset_curves, rc73xa_fan_curve_constraints,
  curve_base, confirm, apply,
}

match_preset-resolve :
    (cpu gpu : FanCurve) (ps : List FanCurvePreset)
    → resolve (FanCurveSelection.custom cpu gpu) ≡ ok (cpu, gpu)
    → resolve (match_preset (cpu, gpu) ps) ≡ ok (cpu, gpu)
unfolding match_preset
match_preset-resolve cpu gpu List.[] e = e
match_preset-resolve cpu gpu (List.◌∷◌ p ps) e =
    elim (Bool-cases (cpu == preset_curve p && gpu == preset_curve p)) [
      | inl same ↦ rw same (
          unfold resolve in
          ground
            (arith, curve_eq.beq_iff cpu (preset_curve p), curve_eq.beq_iff gpu (preset_curve p)))
      | inr other ↦ rw other (match_preset-resolve cpu gpu ps e)
    ]

match_preset-preset :
    (p : FanCurvePreset) → match_preset (preset_curves p) known_presets ≡ FanCurveSelection.preset p
unfolding match_preset curve_beq point_beq
match_preset-preset FanCurvePreset.silent = refl
match_preset-preset FanCurvePreset.balanced = refl
match_preset-preset FanCurvePreset.aggressive = refl

-- What is reported for a selection: the preset itself, or a selection that resolves to the same curves.
abbrev pub IsReportOf : FanCurveSelection → FanCurve × FanCurve → FanCurveSelection → Type 0
IsReportOf (FanCurveSelection.preset p) curves reported = reported ≡ FanCurveSelection.preset p
IsReportOf (FanCurveSelection.custom cpu gpu) curves reported = resolve reported ≡ ok curves

IsAccepted-by :
    (c : FanCurve) (u : Unit {0})
    → validate_against c rc73xa_fan_curve_constraints ≡ ok u
    → validate_against c rc73xa_fan_curve_constraints ≡ ok tt
IsAccepted-by c u e = e

-- A custom selection resolves to its curves, when the limits of the model accept both.
resolve-custom :
    (c g : FanCurve) (curves : FanCurve × FanCurve)
    → resolve (FanCurveSelection.custom c g) ≡ ok curves
    → (validate_against c rc73xa_fan_curve_constraints ≡ ok tt)
      × (validate_against g rc73xa_fan_curve_constraints ≡ ok tt)
      × (curves ≡ (c, g))
unfolding resolve
resolve-custom c g curves e =
    let (u, first, rest) = >>=-eq-ok (validate_against c rc73xa_fan_curve_constraints) _ e in
    let (v, second, last) = >>=-eq-ok (validate_against g rc73xa_fan_curve_constraints) _ rest in
    (first, second, cc)

pub match_preset-IsReportOf :
    (selection : FanCurveSelection) (curves : FanCurve × FanCurve)
    → resolve selection ≡ ok curves
    → IsReportOf selection curves (match_preset curves known_presets)
match_preset-IsReportOf (FanCurveSelection.preset p) curves e =
    let same : preset_curves p ≡ curves = unfold resolve in cc in
    rw (← same) (match_preset-preset p)
match_preset-IsReportOf (FanCurveSelection.custom c g) curves e =
    let (first, second, same) = resolve-custom c g curves e in
    rw same (match_preset-resolve c g known_presets (unfold resolve in rw (first, second) refl))

-- The curves of every preset are within the limits of the model.
preset-accepted :
    (p : FanCurvePreset) → validate_against (preset_curve p) rc73xa_fan_curve_constraints ≡ ok tt
unfolding validate_against strict_windows check_points check_point check_floor required_duty
preset-accepted FanCurvePreset.silent = refl
preset-accepted FanCurvePreset.balanced = refl
preset-accepted FanCurvePreset.aggressive = refl

resolve-accepted :
    (selection : FanCurveSelection) (curves : FanCurve × FanCurve)
    → resolve selection ≡ ok curves
    → (validate_against curves.0 rc73xa_fan_curve_constraints ≡ ok tt)
      × (validate_against curves.1 rc73xa_fan_curve_constraints ≡ ok tt)
resolve-accepted (FanCurveSelection.preset p) curves e =
    let same : preset_curves p ≡ curves = unfold resolve in cc in
    rw (← same) (preset-accepted p, preset-accepted p)
resolve-accepted (FanCurveSelection.custom c g) curves e =
    let (first, second, same) = resolve-custom c g curves e in rw same (first, second)

-- The curves that a selection stands for.
abbrev pub IsFor : FanCurveSelection → FanCurve × FanCurve → Type 0
IsFor (FanCurveSelection.preset p) curves = curves ≡ (preset_curve p, preset_curve p)
IsFor (FanCurveSelection.custom cpu gpu) curves = curves ≡ (cpu, gpu)

resolve-IsFor :
    (selection : FanCurveSelection) (curves : FanCurve × FanCurve)
    → resolve selection ≡ ok curves
    → IsFor selection curves
resolve-IsFor (FanCurveSelection.preset p) curves e =
    let same : preset_curves p ≡ curves = unfold resolve in cc in sym same
resolve-IsFor (FanCurveSelection.custom c g) curves e = (resolve-custom c g curves e).2

module _ {ℓ} {H : Type ℓ} (sysfs : SysfsIo H) (selection : FanCurveSelection) (h : H) where
  -- `apply` succeeds after all writes, and what is then read back is what was written; or it fails
  -- after the writes, up to the first that failed.
  abbrev pub IsConfirmed : Fallible (Unit {0}) × H → FanCurve × FanCurve → Type ℓ
  IsConfirmed w curves =
      ((w.0 ≡ ok tt)
        × (apply sysfs selection h ≡ (ok tt, w.1))
        × (get_curves sysfs w.1 ≡ ok curves))
      ⊎ ((e : HpdError) × (apply sysfs selection h ≡ (err e, w.1)))

  -- What `apply` does where it writes.
  abbrev pub WritesAccepted : String → FanCurve × FanCurve → Type ℓ
  WritesAccepted base curves =
      (curve_base sysfs h ≡ ok base)
      × IsFor selection curves
      × (validate_against curves.0 rc73xa_fan_curve_constraints ≡ ok tt)
      × (validate_against curves.1 rc73xa_fan_curve_constraints ≡ ok tt)
      × IsConfirmed (write_all sysfs base (applied_writes curves.0 curves.1) h) curves

  abbrev pub Outcome : Type ℓ
  Outcome =
      ((e : HpdError) × (apply sysfs selection h ≡ (err e, h)))
      ⊎ ((base : String) × (curves : FanCurve × FanCurve) × WritesAccepted base curves)

  -- The end of `apply`, after the writes w and with r read back.
  confirmed :
      (curves : FanCurve × FanCurve) (w : Fallible (Unit {0}) × H)
      (r : Fallible (FanCurve × FanCurve))
      → apply sysfs selection h ≡ and_then w (confirm sysfs curves)
      → get_curves sysfs w.1 ≡ r
      → IsConfirmed w curves
  confirmed curves (err e, h1) r a g = inr (e, a)
  confirmed (cpu, gpu) (ok u, h1) (err e) a g = inr (e, a ∙ rw g refl)
  confirmed (cpu, gpu) (ok u, h1) (ok (c, d)) a g = elim (Bool-cases (c != cpu || d != gpu)) [
    | inl other ↦ inr (mismatch (cpu, gpu) (c, d), a ∙ rw (g, other) refl)
    | inr same ↦ inl (
      refl,
      a ∙ rw (g, same) refl,
      ground (arith, curve_eq.beq_iff c cpu, curve_eq.beq_iff d gpu),
    )
  ]

  apply-Outcome :
      (r : Fallible (FanCurve × FanCurve)) (b : Fallible String)
      → resolve selection ≡ r
      → curve_base sysfs h ≡ b
      → Outcome
  unfolding apply
  apply-Outcome (err e) b er eb = inl (e, rw er refl)
  apply-Outcome (ok curves) (err e) er eb = inl (e, rw (er, eb) refl)
  apply-Outcome (ok curves) (ok base) er eb =
      let (first, second) = resolve-accepted selection curves er in
      let w = write_all sysfs base (applied_writes curves.0 curves.1) h in
      let written : apply sysfs selection h ≡ and_then w (confirm sysfs curves) =
        rw (er, eb)
          (ap (λ x. and_then x (confirm sysfs curves))
            (write_curves-write_all sysfs base curves.0 curves.1 h)) in
      inr (
        base,
        curves,
        (
          eb,
          resolve-IsFor selection curves er,
          first,
          second,
          confirmed curves w (get_curves sysfs w.1) written refl,
        ),
      )

  -- On any file system, `apply` either fails with nothing written, or the curves that the selection
  -- stands for are accepted by the limits and the safety floor of the model, and it writes them point
  -- by point, the first to the fan of the processor and the second to that of the graphics, and then
  -- switches both fans to them, up to the first write that fails; where it succeeds, the curves that
  -- are then read back are those.
  pub apply-IsSafe : Outcome
  apply-IsSafe = apply-Outcome (resolve selection) (curve_base sysfs h) refl refl
