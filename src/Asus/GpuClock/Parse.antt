-- ===== src/Asus/GpuClock/Parse.antt =====
-- hpd-backend-asus/src/gpu_clock.rs: the text of `pp_od_clk_voltage`.
use Prim.Native.String.{◌++◌}
use hpd_handheld_power_daemo.Prelude.{
  ℕ, Option, none, some, ok, err, String, nat_eq, string_eq, List,
}
use hpd_handheld_power_daemo.Decimal.{to_string, parse}
use hpd_handheld_power_daemo.Text.{trim, lines, split_whitespace, strip_prefix, leading_digits}
use hpd_handheld_power_daemo.Error.{Fallible, HpdError, BackendError}
use hpd_handheld_power_daemo.Capability.Units.{u32_max}
use hpd_handheld_power_daemo.Capability.GpuClock.{GpuClockRange, GpuClockConstraints}

abbrev pub parse_error : String → String → String → HpdError
parse_error field raw reason = HpdError.backend (BackendError.parse_failed field raw reason)

-- No digits are no number, for `parse` too.
unfoldable pub mhz_value : String → Option ℕ
mhz_value token = parse u32_max (leading_digits token)

abbrev pub with_value : Option ℕ → List ℕ → List ℕ
with_value none ns = ns
with_value (some n) ns = List.◌∷◌ n ns

-- `filter_map(mhz_value)`
unfoldable pub mhz_values : List String → List ℕ
mhz_values List.[] = List.[]
mhz_values (List.◌∷◌ w ws) = with_value (mhz_value w) (mhz_values ws)

-- `words.next().and_then(mhz_value)`
abbrev pub first_mhz : List String → Option ℕ
first_mhz List.[] = none
first_mhz (List.◌∷◌ w ws) = mhz_value w

-- The bounds, where a line gives two numbers; otherwise the next lines are tried.
abbrev pub bounds_or : List ℕ → Fallible GpuClockConstraints → Fallible GpuClockConstraints
bounds_or (List.◌∷◌ a (List.◌∷◌ b List.[])) later =
    ok (record { range_min_mhz = a; range_max_mhz = b })
bounds_or _ later = later

abbrev pub sclk_line : Option String → Fallible GpuClockConstraints → Fallible GpuClockConstraints
sclk_line none later = later
sclk_line (some rest) later = bounds_or (mhz_values (split_whitespace rest)) later

-- The loop of `read_constraints`.
unfoldable pub find_constraints : String → List String → Fallible GpuClockConstraints
find_constraints raw List.[] =
    err (parse_error "pp_od_clk_voltage_od_range" raw "expected a `SCLK:` line inside `OD_RANGE`")
find_constraints raw (List.◌∷◌ line rest) =
    sclk_line (strip_prefix "SCLK:" (trim line)) (find_constraints raw rest)

unfoldable pub parse_constraints : String → Fallible GpuClockConstraints
parse_constraints raw = find_constraints raw (lines raw)

-- What the loop of `read_committed_sclk` has read.
abbrev pub Committed : Type 0
Committed = Option ℕ × Option ℕ

abbrev pub read_max : Option String → Committed → Committed
read_max none c = c
read_max (some rest) (min_mhz, max_mhz) = (min_mhz, first_mhz (split_whitespace rest))

abbrev pub read_min : Option String → String → Committed → Committed
read_min none line c = read_max (strip_prefix "1:" line) c
read_min (some rest) line (min_mhz, max_mhz) = (first_mhz (split_whitespace rest), max_mhz)

abbrev pub at_range : Option String → Committed → Committed → Committed
at_range (some rest) c later = c
at_range none c later = later

-- The loop of `read_committed_sclk`, up to the line `OD_RANGE`.
unfoldable pub committed_sclk : List String → Committed → Committed
committed_sclk List.[] c = c
committed_sclk (List.◌∷◌ line rest) c =
    at_range (strip_prefix "OD_RANGE" (trim line)) c
      (committed_sclk rest (read_min (strip_prefix "0:" (trim line)) (trim line) c))

abbrev pub of_committed : String → Committed → Fallible GpuClockRange
of_committed raw (some min_mhz, some max_mhz) = ok (record { min_mhz = min_mhz; max_mhz = max_mhz })
of_committed raw _ =
    err (parse_error "pp_od_clk_voltage_od_sclk" raw "expected `0:`/`1:` lines inside `OD_SCLK`")

unfoldable pub parse_committed_sclk : String → Fallible GpuClockRange
parse_committed_sclk raw = of_committed raw (committed_sclk (lines raw) (none, none))

-- `{:?}` of a range.
abbrev pub debug_range : GpuClockRange → String
debug_range r =
    "GpuClockRange { min_mhz: "
    ++ (to_string r.min_mhz ++ (", max_mhz: " ++ (to_string r.max_mhz ++ " }")))
