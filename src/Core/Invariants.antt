-- ===== src/Core/Invariants.antt =====
-- hpd-core/src/invariants.rs
use hpd_handheld_power_daemo.Prelude.{
  Bool, ◌||◌, Option, none, some, ltb, if◌then◌else◌, ok, err, ◌>>◌,
}
use hpd_handheld_power_daemo.Error.{
  Fallible, Violation, invariant_violation, sppt_below_spl, fppt_below_sppt, spl_out_of_range,
  sppt_out_of_range, fppt_out_of_range,
}
use hpd_handheld_power_daemo.Capability.Units.{PowerMilliwatts}
use hpd_handheld_power_daemo.Capability.Power.{PowerEnvelopeLimits, PowerEnvelopeTarget}

-- `if` a rule is broken, `return Err`.
abbrev pub ensure_not : Bool → Violation → Fallible (Unit {0})
ensure_not broken v = if broken then err (invariant_violation v) else ok tt

-- A test of FPPT is made only where the target has one.
unfoldable pub check_fppt_order : Option PowerMilliwatts → PowerMilliwatts → Fallible (Unit {0})
check_fppt_order none sppt = ok tt
check_fppt_order (some fppt) sppt = ensure_not (ltb fppt sppt) (fppt_below_sppt fppt sppt)

unfoldable pub check_fppt_range :
    Option PowerMilliwatts → PowerMilliwatts → PowerMilliwatts → Fallible (Unit {0})
check_fppt_range none lo hi = ok tt
check_fppt_range (some fppt) lo hi =
    ensure_not (ltb fppt lo || ltb hi fppt) (fppt_out_of_range fppt lo hi)

unfoldable pub validate_power_envelope :
    PowerEnvelopeTarget → PowerEnvelopeLimits → Fallible (Unit {0})
unfolding check_fppt_order check_fppt_range
validate_power_envelope target limits = do
  ensure_not (ltb target.sppt target.spl) (sppt_below_spl target.sppt target.spl)
  check_fppt_order target.fppt target.sppt
  ensure_not (ltb target.spl limits.spl_min || ltb limits.spl_max target.spl)
      (spl_out_of_range target.spl limits.spl_min limits.spl_max)
  ensure_not (ltb target.sppt limits.sppt_min || ltb limits.sppt_max target.sppt)
      (sppt_out_of_range target.sppt limits.sppt_min limits.sppt_max)
  check_fppt_range target.fppt limits.fppt_min limits.fppt_max
