-- ===== src/Core/EnvelopeBounds.antt =====
-- Order and ranges of the rails of a power envelope (hpd-core/src/invariants.rs and reducer.rs).
use hpd_handheld_power_daemo.Prelude.{ℕ, ◌*◌, ◌≤◌, ◌≡◌, ◌↔◌, Option, none, some, ok, arith}
use hpd_handheld_power_daemo.Capability.Units.{PowerMilliwatts, u32_max, from_watts}
use hpd_handheld_power_daemo.Capability.Power.{PowerEnvelopeLimits, PowerEnvelopeTarget}
use hpd_handheld_power_daemo.Capability.Profile.{RuntimeConfig}
use hpd_handheld_power_daemo.Core.Invariants.{validate_power_envelope}
use hpd_handheld_power_daemo.Core.Reducer.{derive_boosted_envelope, set_spl, apply_power_target}
use hpd_handheld_power_daemo.Core.State.{DcSnapshot, ProfileState}

-- FPPT, on a platform that has one.
abbrev pub IsFpptWithin : Option PowerMilliwatts → PowerMilliwatts → PowerEnvelopeLimits → Type 0
IsFpptWithin none sppt l = Unit
IsFpptWithin (some fppt) sppt l = (sppt ≤ fppt) × (l.fppt_min ≤ fppt) × (fppt ≤ l.fppt_max)

pub record IsWithin (t : PowerEnvelopeTarget) (l : PowerEnvelopeLimits) : Type 0 where
  pub spl-le-sppt : t.spl ≤ t.sppt
  pub spl_min-le : l.spl_min ≤ t.spl
  pub le-spl_max : t.spl ≤ l.spl_max
  pub sppt_min-le : l.sppt_min ≤ t.sppt
  pub le-sppt_max : t.sppt ≤ l.sppt_max
  pub fppt_within : IsFpptWithin t.fppt t.sppt l

-- The envelope of a state, and the one that it has saved for battery mode.
abbrev pub IsSavedWithin : Option DcSnapshot → PowerEnvelopeLimits → Type 0
IsSavedWithin none l = Unit
IsSavedWithin (some snap) l = IsWithin snap.power_target l

pub record IsBounded (s : ProfileState) (l : PowerEnvelopeLimits) : Type 0 where
  pub target : IsWithin s.power_target l
  pub saved : IsSavedWithin s.last_dc_state l

-- The validation accepts a target exactly when it is in order and in range.
pub validate_power_envelope_iff :
    (t : PowerEnvelopeTarget) (l : PowerEnvelopeLimits)
    → (validate_power_envelope t l ≡ ok tt) ↔ IsWithin t l
unfolding validate_power_envelope
validate_power_envelope_iff t l = ground arith

pub IsWithin-of_validate :
    (t : PowerEnvelopeTarget) (l : PowerEnvelopeLimits) (u : Unit {0})
    → validate_power_envelope t l ≡ ok u
    → IsWithin t l
IsWithin-of_validate t l tt h = (validate_power_envelope_iff t l).0 h

-- The ranges of the rails overlap as those of real devices do: a boost rail reaches at least as
-- high as the one below it.
pub record IsWellFormed (l : PowerEnvelopeLimits) : Type 0 where
  pub spl_range : l.spl_min ≤ l.spl_max
  pub sppt_range : l.sppt_min ≤ l.sppt_max
  pub fppt_range : l.fppt_min ≤ l.fppt_max
  pub sppt_above : l.spl_max ≤ l.sppt_max
  pub fppt_above : l.sppt_max ≤ l.fppt_max

module _ (l : PowerEnvelopeLimits) (config : RuntimeConfig) (w : IsWellFormed l) where
  -- On well-formed limits and for an SPL in its range, the derived envelope is in order and in
  -- range, whatever the boost factors, not-a-number included.
  pub derive_boosted_envelope-IsWithin :
      (spl : PowerMilliwatts)
      → l.spl_min ≤ spl
      → spl ≤ l.spl_max
      → IsWithin (derive_boosted_envelope spl l config) l
  unfolding derive_boosted_envelope
  derive_boosted_envelope-IsWithin spl lo hi = ground arith

  -- On well-formed limits, a whole wattage in the range of SPL whose milliwatts fit in 32 bits is
  -- accepted, and the envelope derived from it is applied.
  pub set_spl-ok :
      (s : ProfileState) (watts : ℕ)
      → watts * 1000 ≤ u32_max
      → l.spl_min ≤ watts * 1000
      → watts * 1000 ≤ l.spl_max
      → set_spl s watts l config
        ≡ ok (apply_power_target s (derive_boosted_envelope (watts * 1000) l config) l config)
  unfolding set_spl from_watts
  set_spl-ok s watts fits lo hi = ground (
    arith,
    (validate_power_envelope_iff (derive_boosted_envelope (watts * 1000) l config) l).1
        (derive_boosted_envelope-IsWithin (watts * 1000) lo hi),
  )
