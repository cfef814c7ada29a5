-- ===== src/Capability/GpuClock.antt =====
-- hpd-capabilities/src/gpu_clock.rs: GPU clock ranges, in MHz.
use hpd_handheld_power_daemo.Prelude.{
  ℕ, ◌≡◌, ◌↔◌, Bool, true, false, ◌&&◌, ◌||◌, Equality, ◌==◌, nat_eq, arith, ltb, leb,
  if◌then◌else◌, ok, err,
}
use hpd_handheld_power_daemo.Error.{
  Fallible, invariant_violation, clock_range_inverted, clock_min_out_of_range,
  clock_max_out_of_range,
}
use hpd_handheld_power_daemo.Capability.FanCurve.{FanCurvePreset, preset_beq_iff, preset_eq}

pub record GpuClockRange : Type 0 where
  pub min_mhz : ℕ
  pub max_mhz : ℕ

unfoldable pub range_beq : GpuClockRange → GpuClockRange → Bool
range_beq a b = a.min_mhz == b.min_mhz && a.max_mhz == b.max_mhz

pub range_beq_iff : (a b : GpuClockRange) → (range_beq a b ≡ true) ↔ (a ≡ b)
unfolding range_beq
range_beq_iff a b = ground arith

instance abbrev pub range_eq : Equality GpuClockRange
range_eq = record { beq = range_beq; beq_iff = range_beq_iff }

pub record GpuClockConstraints : Type 0 where
  pub range_min_mhz : ℕ
  pub range_max_mhz : ℕ

-- `GpuClockRange::validate_against`
unfoldable pub validate_range : GpuClockRange → GpuClockConstraints → Fallible (Unit {0})
validate_range r c =
    if leb r.max_mhz r.min_mhz
    then err (invariant_violation (clock_range_inverted r.min_mhz r.max_mhz))
    else if ltb r.min_mhz c.range_min_mhz || ltb c.range_max_mhz r.min_mhz
    then err
        (invariant_violation (clock_min_out_of_range r.min_mhz c.range_min_mhz c.range_max_mhz))
    else if ltb r.max_mhz c.range_min_mhz || ltb c.range_max_mhz r.max_mhz
    then err
        (invariant_violation (clock_max_out_of_range r.max_mhz c.range_min_mhz c.range_max_mhz))
    else ok tt

pub data GpuClockSelection : Type 0 where
  preset : FanCurvePreset → GpuClockSelection
  unmanaged : GpuClockRange → GpuClockSelection

unfoldable pub clock_beq : GpuClockSelection → GpuClockSelection → Bool
clock_beq (preset p) (preset q) = p == q
clock_beq (unmanaged r) (unmanaged r') = r == r'
clock_beq _ _ = false

pub clock_beq_iff : (a b : GpuClockSelection) → (clock_beq a b ≡ true) ↔ (a ≡ b)
unfolding clock_beq
clock_beq_iff (preset p) (preset q) = ground (arith, preset_beq_iff p q)
clock_beq_iff (unmanaged r) (unmanaged r') = ground (arith, range_beq_iff r r')
clock_beq_iff a b = ground arith

instance abbrev pub clock_eq : Equality GpuClockSelection
clock_eq = record { beq = clock_beq; beq_iff = clock_beq_iff }
