-- ===== src/Asus/FanCurve/Presets.antt =====
-- hpd-backend-asus/src/fan_curve.rs: the curves of the presets and the limits of the model.
use hpd_handheld_power_daemo.Prelude.{ℕ, List, [], ◌∷◌}
use hpd_handheld_power_daemo.Capability.FanCurve.{
  FanCurvePoint, FanCurve, FanCurvePreset, FanCurveConstraints, pwm_max,
}

abbrev pt : ℕ → ℕ → FanCurvePoint
pt temp pwm = record { temp_c = temp; pwm = pwm }

abbrev pub silent_curve : FanCurve
silent_curve = record {
  point1 = pt 50 15;
  point2 = pt 58 28;
  point3 = pt 65 55;
  point4 = pt 72 95;
  point5 = pt 78 150;
  point6 = pt 83 200;
  point7 = pt 88 235;
  point8 = pt 93 255;
}

abbrev pub balanced_curve : FanCurve
balanced_curve = record {
  point1 = pt 45 20;
  point2 = pt 54 50;
  point3 = pt 62 95;
  point4 = pt 69 145;
  point5 = pt 75 190;
  point6 = pt 80 225;
  point7 = pt 85 255;
  point8 = pt 92 255;
}

abbrev pub aggressive_curve : FanCurve
aggressive_curve = record {
  point1 = pt 40 45;
  point2 = pt 48 90;
  point3 = pt 55 135;
  point4 = pt 62 180;
  point5 = pt 68 220;
  point6 = pt 74 255;
  point7 = pt 82 255;
  point8 = pt 90 255;
}

abbrev pub rc73xa_fan_curve_constraints : FanCurveConstraints
rc73xa_fan_curve_constraints = record {
  temp_min_c = 30;
  temp_max_c = 95;
  pwm_min = 0;
  pwm_max = pwm_max;
  safety_floor = (85, 150) ∷ (90, 200) ∷ [];
}

abbrev pub preset_curve : FanCurvePreset → FanCurve
preset_curve FanCurvePreset.silent = silent_curve
preset_curve FanCurvePreset.balanced = balanced_curve
preset_curve FanCurvePreset.aggressive = aggressive_curve

-- The same curve for both fans.
abbrev pub preset_curves : FanCurvePreset → FanCurve × FanCurve
preset_curves p = (preset_curve p, preset_curve p)

-- The presets in the order in which `active_selection` tries them.
abbrev pub known_presets : List FanCurvePreset
known_presets = FanCurvePreset.silent ∷ FanCurvePreset.balanced ∷ FanCurvePreset.aggressive ∷ []
