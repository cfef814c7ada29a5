-- ===== src/Asus/AcConnected.antt =====
-- hpd-backend-asus/src/charge.rs: whether the charger is connected, and the backend of charging.
use Prim.Native.String.{◌++◌}
use hpd_handheld_power_daemo.Prelude.{Bool, ok, String, ◌==◌, nat_eq, string_eq, any}
use hpd_handheld_power_daemo.Text.{trim}
use hpd_handheld_power_daemo.Error.{Fallible}
use hpd_handheld_power_daemo.Sysfs.{SysfsIo}
use hpd_handheld_power_daemo.Capability.Backend.{ChargeControl}
use hpd_handheld_power_daemo.Asus.Charge.{get_end_threshold, set_end_threshold}
use hpd_handheld_power_daemo.Asus.PowerSupply.{or_empty, find_nodes_by_type}

module _ {ℓ} {H : Type ℓ} (sysfs : SysfsIo H) where
  abbrev pub is_online : String → H → Bool
  is_online base h = trim (or_empty (sysfs.read_string (base ++ "/online") h)) == "1"

  unfoldable pub is_ac_connected : H → Fallible Bool
  is_ac_connected h = ok (any (λ base. is_online base h) (find_nodes_by_type sysfs "Mains" h))

  abbrev pub asus_charge : ChargeControl H
  asus_charge = record {
    is_ac_connected = is_ac_connected;
    set_end_threshold = set_end_threshold sysfs;
    get_end_threshold = get_end_threshold sysfs;
  }
