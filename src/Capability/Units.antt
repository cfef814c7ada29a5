-- ===== src/Capability/Units.antt =====
-- hpd-capabilities/src/units.rs. A `PowerMilliwatts` is the `u32` that it wraps.
use hpd_handheld_power_daemo.Prelude.{ℕ, ◌*◌, ◌/◌, ◌≡◌, ltb, if◌then◌else◌, ok, err, arith}
use hpd_handheld_power_daemo.Error.{Fallible, invariant_violation, watts_too_large}

abbrev pub PowerMilliwatts : Type 0
PowerMilliwatts = ℕ

abbrev pub milliwatts_per_watt : ℕ
milliwatts_per_watt = 1000

-- `u32::MAX`
abbrev pub u32_max : ℕ
u32_max = 4294967295

-- `checked_mul` refuses a product above `u32::MAX`.
unfoldable pub from_watts : ℕ → Fallible PowerMilliwatts
from_watts watts =
    if ltb u32_max (watts * milliwatts_per_watt)
    then err (invariant_violation (watts_too_large watts))
    else ok (watts * milliwatts_per_watt)

abbrev pub as_watts : PowerMilliwatts → ℕ
as_watts mw = mw / milliwatts_per_watt

-- Where the conversion of a wattage to milliwatts succeeds, the conversion back gives the wattage.
pub as_watts-from_watts :
    (watts : ℕ) {mw : PowerMilliwatts} → from_watts watts ≡ ok mw → as_watts mw ≡ watts
unfolding from_watts
as_watts-from_watts watts h = ground arith
