-- ===== src/Capability/Power.antt =====
-- hpd-capabilities/src/power.rs: the limits and the target of the power envelope.
use hpd_handheld_power_daemo.Prelude.{
  true, ◌≡◌, ◌↔◌, Bool, ◌&&◌, Option, Equality, ◌==◌, nat_eq, option_eq, option_beq_iff, arith,
}
use hpd_handheld_power_daemo.Capability.Units.{PowerMilliwatts}

pub record PowerEnvelopeLimits : Type 0 where
  pub spl_min : PowerMilliwatts
  pub spl_max : PowerMilliwatts
  pub sppt_min : PowerMilliwatts
  pub sppt_max : PowerMilliwatts
  pub fppt_min : PowerMilliwatts
  pub fppt_max : PowerMilliwatts

pub record PowerEnvelopeTarget : Type 0 where
  pub spl : PowerMilliwatts
  pub sppt : PowerMilliwatts
  pub fppt : Option PowerMilliwatts

unfoldable pub target_beq : PowerEnvelopeTarget → PowerEnvelopeTarget → Bool
target_beq a b = a.spl == b.spl && a.sppt == b.sppt && a.fppt == b.fppt

pub target_beq_iff : (a b : PowerEnvelopeTarget) → (target_beq a b ≡ true) ↔ (a ≡ b)
unfolding target_beq
target_beq_iff a b = ground (arith, option_beq_iff a.fppt b.fppt)

instance abbrev pub target_eq : Equality PowerEnvelopeTarget
target_eq = record { beq = target_beq; beq_iff = target_beq_iff }

unfoldable pub limits_beq : PowerEnvelopeLimits → PowerEnvelopeLimits → Bool
limits_beq a b =
    a.spl_min == b.spl_min
    && a.spl_max == b.spl_max
    && a.sppt_min == b.sppt_min
    && a.sppt_max == b.sppt_max
    && a.fppt_min == b.fppt_min
    && a.fppt_max == b.fppt_max

pub limits_beq_iff : (a b : PowerEnvelopeLimits) → (limits_beq a b ≡ true) ↔ (a ≡ b)
unfolding limits_beq
limits_beq_iff a b = ground arith

instance abbrev pub limits_eq : Equality PowerEnvelopeLimits
limits_eq = record { beq = limits_beq; beq_iff = limits_beq_iff }
