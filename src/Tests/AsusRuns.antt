-- ===== src/Tests/AsusRuns.antt =====
-- Runs of the ASUS backend (hpd-backend-asus/src) on a file system that keeps what is written.
use hpd_handheld_power_daemo.Sysfs.Real.{FileSystem, real_sysfs}
use hpd_handheld_power_daemo.Sysfs.Real.Store.{KeepsFiles, real_sysfs-IsStore}
use hpd_handheld_power_daemo.Asus.Charge.Threshold.{get_end_threshold-set_end_threshold}
use hpd_handheld_power_daemo.Asus.Power.ReadBack.{get_target-set_target}
use hpd_handheld_power_daemo.Prelude.{
  none, err, ◌<◌, ◌⊎◌, ◌≤◌, ap, true, ◌≡◌, refl, String, ok, some, ◌==◌, string_eq, arith,
  if◌then◌else◌,
}
use hpd_handheld_power_daemo.Error.{charge_out_of_range, HpdError}
use hpd_handheld_power_daemo.Sysfs.{IsStore, SysfsIo}
use hpd_handheld_power_daemo.Asus.Charge.{get_end_threshold, set_end_threshold}
use hpd_handheld_power_daemo.Asus.Power.{get_target, set_target}
use hpd_handheld_power_daemo.Tests.Data.{target_15w}

-- Files in memory, and `RealSysfs` over them.
abbrev memory : FileSystem (String → String)
memory = record {
  read_to_string = λ p h. ok (h p);
  write = λ p v h. (ok tt, λ q. if p == q then v else h q);
  exists = λ p h. true;
  read_dir = λ p h. none;
}

memory-KeepsFiles : KeepsFiles memory
memory-KeepsFiles = record {
  written = λ p v h. refl;
  read_back = λ p v h. ap ok (rw ((string_eq.beq_iff p p).1 refl) refl);
  others = λ p q v h n. ap ok (rw n refl);
}

abbrev pub files : SysfsIo (String → String)
files = real_sysfs memory

pub files-IsStore : IsStore files
files-IsStore = real_sysfs-IsStore memory memory-KeepsFiles

abbrev pub empty_files : String → String
empty_files _ = ""

get_target-set_target_example :
    ((set_target files target_15w empty_files).0 ≡ ok tt)
    × (get_target files (set_target files target_15w empty_files).1
        ≡ ok (record { spl = 15000; sppt = 17000; fppt = some 19000 }))
get_target-set_target_example =
    get_target-set_target files files-IsStore target_15w 19000 empty_files refl (omega arith)
      (omega arith) (omega arith)

get_end_threshold-set_end_threshold_example :
    ((20 ≤ 60)
      × (60 ≤ 100)
      × ((set_end_threshold files 60 empty_files).0 ≡ ok tt)
      × (get_end_threshold files (set_end_threshold files 60 empty_files).1 ≡ ok 60))
    ⊎ (((60 < 20) ⊎ (100 < 60))
        × (set_end_threshold files 60 empty_files
            ≡ (err (HpdError.invariant_violation (charge_out_of_range 20 100 60)), empty_files)))
get_end_threshold-set_end_threshold_example =
    get_end_threshold-set_end_threshold files files-IsStore 60 empty_files
