-- ===== src/Netlink/SameSource.antt =====
-- The two readings of the power source: hpd-netlink/src/lib.rs reads the files itself, and
-- hpd-backend-asus/src/charge.rs reads them through hpd-sysfs/src/real.rs.
use Prim.Native.String.{◌++◌}
use hpd_handheld_power_daemo.Prelude.{
  refl, sym, ap, ◌∙◌, true, false, ◌||◌, Bool, ◌≡◌, Option, none, some, ok, err, Result, arith,
  String, ◌==◌, nat_eq, string_eq, if◌then◌else◌, any, List,
}
use hpd_handheld_power_daemo.Text.{trim, trim-trim}
use hpd_handheld_power_daemo.Sysfs.Real.{
  FileSystem, ErrorKind, from_io_result, trimmed, names_or_none, real_sysfs,
}
use hpd_handheld_power_daemo.Asus.PowerSupply.{
  or_empty, node_path, is_kind, nodes_of_type, find_nodes_by_type,
}
use hpd_handheld_power_daemo.Asus.AcConnected.{is_online, is_ac_connected}
use hpd_handheld_power_daemo.Netlink.{
  power_supply_root, or_default, Mains, then_some, is_mains, is_node_online, look_at_all,
  mains_among, read_mains_online_at,
}

trimmed-or_default :
    (path : String) (r : Result ErrorKind String)
    → trim (or_empty (from_io_result path (trimmed r))) ≡ trim (or_default r)
trimmed-or_default path (ok s) = trim-trim s
trimmed-or_default path (err e) = refl

-- What a reading says where no mains node counts as not connected.
abbrev pub is_plugged : Option Bool → Bool
is_plugged none = false
is_plugged (some b) = b

-- What has been found is online only where it is found.
abbrev IsSound : Mains → Type 0
IsSound m = m.any_online ≡ true → m.found_mains ≡ true

-- A round of the loop, on a node that is a mains node or not (k) and online or not (o).
any_round :
    (go : Mains → Mains) (online : String → Bool) (path : String) (rest : List String) (k o : Bool)
    → online path ≡ o
    → (m : Mains) → IsSound m
    → ((m' : Mains)
        → IsSound m'
        → is_plugged (then_some (go m')) ≡ (m'.any_online || any online rest))
    → is_plugged (
        then_some (
          go (
            if k
            then record { found_mains = true; any_online = if o then true else m.any_online }
            else m)))
      ≡ (m.any_online || any online (if k then List.◌∷◌ path rest else rest))
any_round go online path rest false o e m sound ih = ih m sound
any_round go online path rest true true e m sound ih =
    ih (record { found_mains = true; any_online = true }) (λ _. refl) ∙ ground (arith, e)
any_round go online path rest true false e m sound ih =
    ih (record { found_mains = true; any_online = m.any_online }) (λ _. refl) ∙ ground (arith, e)

module _ {ℓ} {H : Type ℓ} (fs : FileSystem H) (h : H) where
  is_kind-is_mains : (node : String) → is_kind (real_sysfs fs) "Mains" node h ≡ is_mains fs node h
  is_kind-is_mains node =
      ap (λ s. s == "Mains") (trimmed-or_default _ (fs.read_to_string (node ++ "/type") h))

  is_online-is_node_online :
      (node : String) → is_online (real_sysfs fs) node h ≡ is_node_online fs node h
  is_online-is_node_online node =
      ap (λ s. s == "1") (trimmed-or_default _ (fs.read_to_string (node ++ "/online") h))

  -- Whether a mains node of the rest is online, or one before was.
  abbrev any_mains : List String → Bool
  any_mains nodes =
      any (λ base. is_online (real_sysfs fs) base h) (nodes_of_type (real_sysfs fs) "Mains" nodes h)

  look_at_all-any :
      (nodes : List String) (m : Mains)
      → IsSound m
      → is_plugged (then_some (look_at_all fs power_supply_root nodes h m))
        ≡ (m.any_online || any_mains nodes)
  unfolding look_at_all nodes_of_type
  look_at_all-any List.[] m found = ground arith
  look_at_all-any (List.◌∷◌ node nodes) m found =
      let path = node_path node in
      rw (is_kind-is_mains path) (
        any_round (λ m'. look_at_all fs power_supply_root nodes h m')
          (λ base. is_online (real_sysfs fs) base h) path _ (is_mains fs path h)
          (is_node_online fs path h) (is_online-is_node_online path) m found
          (look_at_all-any nodes))

  plugged_among :
      (names : Option (List String))
      → is_plugged (mains_among fs power_supply_root names h) ≡ any_mains (names_or_none names)
  unfolding nodes_of_type
  plugged_among none = refl
  plugged_among (some nodes) =
      look_at_all-any nodes (record { found_mains = false; any_online = false }) (λ e. cc)

  -- On the same file system, the monitor and the backend read the same power source: what the backend
  -- answers is what the monitor reads, where no readable mains node counts as not connected.
  pub is_ac_connected-read_mains_online_at :
      is_ac_connected (real_sysfs fs) h
      ≡ ok (is_plugged (read_mains_online_at fs power_supply_root h))
  unfolding is_ac_connected read_mains_online_at find_nodes_by_type
  is_ac_connected-read_mains_online_at =
      ap ok (sym (plugged_among (fs.read_dir power_supply_root h)))
