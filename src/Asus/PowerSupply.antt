-- ===== src/Asus/PowerSupply.antt =====
-- hpd-backend-asus/src/power_supply.rs: the nodes of the class `power_supply`, by their `type`.
use Prim.Native.String.{◌++◌}
use hpd_handheld_power_daemo.Prelude.{
  Bool, Option, none, some, ok, err, Result, String, ◌==◌, nat_eq, string_eq, if◌then◌else◌, List,
}
use hpd_handheld_power_daemo.Text.{trim}
use hpd_handheld_power_daemo.Error.{SysfsError}
use hpd_handheld_power_daemo.Sysfs.{SysfsIo}

abbrev pub power_supply_root : String
power_supply_root = "/sys/class/power_supply"

-- `unwrap_or_default` of a text
abbrev pub or_empty : Result SysfsError String → String
or_empty (ok s) = s
or_empty (err e) = ""

-- `format!("{POWER_SUPPLY_ROOT}/{node}")`
abbrev pub node_path : String → String
node_path node = power_supply_root ++ ("/" ++ node)

module _ {ℓ} {H : Type ℓ} (sysfs : SysfsIo H) where
  abbrev pub is_kind : String → String → H → Bool
  is_kind kind base h = trim (or_empty (sysfs.read_string (base ++ "/type") h)) == kind

  -- `map` and `filter` over the names of the directory.
  unfoldable pub nodes_of_type : String → List String → H → List String
  nodes_of_type kind List.[] h = List.[]
  nodes_of_type kind (List.◌∷◌ node nodes) h =
      let rest = nodes_of_type kind nodes h in
      if is_kind kind (node_path node) h then List.◌∷◌ (node_path node) rest else rest

  unfoldable pub find_nodes_by_type : String → H → List String
  find_nodes_by_type kind h = nodes_of_type kind (sysfs.read_dir_names power_supply_root h) h

  abbrev pub first : List String → Option String
  first List.[] = none
  first (List.◌∷◌ node nodes) = some node

  abbrev pub find_node_by_type : String → H → Option String
  find_node_by_type kind h = first (find_nodes_by_type kind h)
