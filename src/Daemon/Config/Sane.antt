-- ===== src/Daemon/Config/Sane.antt =====
-- `DaemonConfig::load` of hpd-daemon/src/config.rs: the numbers that reach the reducer.
use hpd_handheld_power_daemo.Prelude.{
  refl, sym, ap, ◌∙◌, true, false, Bool-cases, inl, inr, ◌≡◌, ok, Result, arith, String, nat_eq,
  string_eq,
}
use hpd_handheld_power_daemo.Float.{F32, lt, eq, one, zero_f32, is_finite}
use hpd_handheld_power_daemo.Capability.Profile.{
  ProfileThresholds, GpuClockFractions, sanitized, config_eq, RuntimeConfig,
}
use hpd_handheld_power_daemo.Capability.SanitizedConfig.{
  sanitized-sane, IsFraction, IsFactor, AreThresholds, AreFractions, IsSane, sanitized-IsSane,
}
use hpd_handheld_power_daemo.Daemon.Config.{
  or_default_config, IoErrorKind, with_sanitized, DaemonConfig, load, config_of,
}

lt-eq : (a a' b b' : F32) → eq a a' ≡ true → eq b b' ≡ true → lt a b ≡ lt a' b'
unfolding lt eq
lt-eq a a' b b' e f = ground arith

lt-eq_fixed : (a b c : F32) → eq a b ≡ true → (lt a c ≡ lt b c) × (lt c a ≡ lt c b)
unfolding lt eq
lt-eq_fixed a b c e = ground arith

is_finite-eq : (a b : F32) → eq a b ≡ true → is_finite a ≡ is_finite b
unfolding eq
is_finite-eq a b e = ground arith

IsFraction-eq : (a b : F32) → eq a b ≡ true → IsFraction a → IsFraction b
IsFraction-eq a b e h = record {
  finite = sym (is_finite-eq a b e) ∙ h.finite;
  not_below = sym (lt-eq_fixed a b zero_f32 e).0 ∙ h.not_below;
  not_above = sym (lt-eq_fixed a b one e).1 ∙ h.not_above;
}

sorted-eq : (a a' b b' : F32) → eq a a' ≡ true → eq b b' ≡ true → lt a b ≡ false → lt a' b' ≡ false
sorted-eq a a' b b' e f h = sym (lt-eq a a' b b' e f) ∙ h

IsFactor-eq : (a b : F32) → eq a b ≡ true → IsFactor a → IsFactor b
IsFactor-eq a b e h = record {
  finite = sym (is_finite-eq a b e) ∙ h.finite;
  not_below = sym (lt-eq_fixed a b one e).0 ∙ h.not_below;
}

AreThresholds-eq :
    (a b : ProfileThresholds)
    → (eq a.low_frac b.low_frac ≡ true) × (eq a.high_frac b.high_frac ≡ true)
    → AreThresholds a
    → AreThresholds b
AreThresholds-eq a b (low, high) h = record {
  low = IsFraction-eq a.low_frac b.low_frac low h.low;
  high = IsFraction-eq a.high_frac b.high_frac high h.high;
  sorted = sorted-eq a.high_frac b.high_frac a.low_frac b.low_frac high low h.sorted;
}

AreFractions-eq :
    (a b : GpuClockFractions)
    → (eq a.silent_max_frac b.silent_max_frac ≡ true)
      × (eq a.balanced_max_frac b.balanced_max_frac ≡ true)
      × (eq a.aggressive_max_frac b.aggressive_max_frac ≡ true)
    → AreFractions a
    → AreFractions b
AreFractions-eq a b (silent, balanced, aggressive) h = record {
  silent = IsFraction-eq a.silent_max_frac b.silent_max_frac silent h.silent;
  balanced = IsFraction-eq a.balanced_max_frac b.balanced_max_frac balanced h.balanced;
  aggressive = IsFraction-eq a.aggressive_max_frac b.aggressive_max_frac aggressive h.aggressive;
  silent_first =
      sorted-eq a.balanced_max_frac b.balanced_max_frac a.silent_max_frac b.silent_max_frac balanced
        silent h.silent_first;
  aggressive_last =
      sorted-eq a.aggressive_max_frac b.aggressive_max_frac a.balanced_max_frac b.balanced_max_frac
        aggressive balanced h.aggressive_last;
}

-- A configuration that equals a sane one is sane, whatever the signs of its zeros.
IsSane-eq : (a b : RuntimeConfig) → config_eq a b ≡ true → IsSane a → IsSane b
unfolding config_eq
IsSane-eq a b e h = record {
  thresholds =
      AreThresholds-eq a.profile_thresholds b.profile_thresholds (ground arith) h.thresholds;
  sppt = IsFactor-eq a.sppt_factor b.sppt_factor (ground arith) h.sppt;
  fppt = IsFactor-eq a.fppt_factor b.fppt_factor (ground arith) h.fppt;
  fractions =
      AreFractions-eq a.gpu_clock_fractions b.gpu_clock_fractions (ground arith) h.fractions;
  efficiency = IsFraction-eq a.efficiency_frac b.efficiency_frac (ground arith) h.efficiency;
}

with_sanitized-IsSane : (cfg : DaemonConfig) → IsSane (with_sanitized cfg).runtime
with_sanitized-IsSane cfg = elim (Bool-cases (config_eq (sanitized cfg.runtime) cfg.runtime)) [
  | inl same ↦
      rw same (IsSane-eq (sanitized cfg.runtime) cfg.runtime same (sanitized-IsSane cfg.runtime))
  | inr other ↦ rw other (sanitized-IsSane cfg.runtime)
]

-- Whatever the file and its parser give, the numbers of the configuration that `load` returns are
-- sane: fractions from 0 to 1 and in order, boost factors finite and at least 1.
pub load-IsSane :
    (parse : String → Result String DaemonConfig) (file : Result IoErrorKind String)
    → IsSane (load parse file).runtime
unfolding load
load-IsSane parse file = with_sanitized-IsSane (config_of parse file)

with_sanitized-sane : (cfg : DaemonConfig) → IsSane cfg.runtime → with_sanitized cfg ≡ cfg
with_sanitized-sane cfg h =
    rw (sanitized-sane cfg.runtime h) (elim (Bool-cases (config_eq cfg.runtime cfg.runtime)) [
      | inl same ↦ rw same refl
      | inr other ↦ rw other refl
    ])

config_of-ok :
    (parse : String → Result String DaemonConfig) (contents : String) (cfg : DaemonConfig)
    → parse contents ≡ ok cfg
    → config_of parse (ok contents) ≡ cfg
unfolding config_of
config_of-ok parse contents cfg e = ap or_default_config e

-- A file that is read and parsed, with sane numbers, is taken as the operator wrote it.
pub load-sane :
    (parse : String → Result String DaemonConfig) (contents : String) (cfg : DaemonConfig)
    → parse contents ≡ ok cfg
    → IsSane cfg.runtime
    → load parse (ok contents) ≡ cfg
unfolding load
load-sane parse contents cfg e h =
    ap with_sanitized (config_of-ok parse contents cfg e) ∙ with_sanitized-sane cfg h
