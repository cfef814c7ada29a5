-- ===== src/Error.antt =====
-- hpd-error: the error types of the workspace. Paths and raw texts are kept; the text that
-- `format!` builds for an `InvariantViolation` is the constructor of `Violation` that names the
-- rule, with the numbers that the message prints.
use hpd_handheld_power_daemo.Prelude.{ℕ, String, Result}

pub data SysfsError : Type 0 where
  not_found : String → SysfsError
  permission_denied : String → SysfsError
  parse_error : String → String → String → SysfsError
  io : String → SysfsError

pub data BackendError : Type 0 where
  parse_failed : String → String → String → BackendError
  other : String → BackendError

pub data Violation : Type 0 where
  watts_too_large : ℕ → Violation
  spl_watts_out_of_range : ℕ → Violation
  sppt_below_spl : ℕ → ℕ → Violation
  fppt_below_sppt : ℕ → ℕ → Violation
  spl_out_of_range : ℕ → ℕ → ℕ → Violation
  sppt_out_of_range : ℕ → ℕ → ℕ → Violation
  fppt_out_of_range : ℕ → ℕ → ℕ → Violation
  temperature_decreases : ℕ → ℕ → Violation
  temperature_not_increasing : ℕ → ℕ → Violation
  duty_decreases : ℕ → ℕ → Violation
  point_temperature_out_of_range : ℕ → ℕ → ℕ → ℕ → Violation
  point_duty_out_of_range : ℕ → ℕ → ℕ → ℕ → Violation
  point_below_safety_floor : ℕ → ℕ → ℕ → ℕ → Violation
  clock_range_inverted : ℕ → ℕ → Violation
  clock_min_out_of_range : ℕ → ℕ → ℕ → Violation
  clock_max_out_of_range : ℕ → ℕ → ℕ → Violation
  charge_out_of_range : ℕ → ℕ → ℕ → Violation
  unknown_fan_curve_preset : String → Violation

pub data HpdError : Type 0 where
  sysfs : SysfsError → HpdError
  backend : BackendError → HpdError
  feature_unsupported : HpdError
  invariant_violation : Violation → HpdError

-- `Result<A, HpdError>`
abbrev pub Fallible : Type 0 → Type 0
Fallible A = Result HpdError A
