-- ===== src/Sysfs/Real.antt =====
-- hpd-sysfs/src/real.rs: `RealSysfs`, over the operations of `std::fs` that it calls, and
-- `SysfsError::from_io` of hpd-error/src/lib.rs.
pub mod Store
use hpd_handheld_power_daemo.Prelude.{
  Bool, Option, none, some, ok, err, Result, String, nat_eq, string_eq, List, [],
}
use hpd_handheld_power_daemo.Text.{trim}
use hpd_handheld_power_daemo.Error.{SysfsError}
use hpd_handheld_power_daemo.Sysfs.{SysfsIo}

-- The kinds of `io::Error` that are told apart.
pub data ErrorKind : Type 0 where
  not_found permission_denied other : ErrorKind

-- What is called of `std::fs`, on the state of the file system: `read_to_string`, `write`,
-- `Path::exists`, and `read_dir` with the names of its readable entries, which is none where the
-- directory cannot be read.
pub record FileSystem {ℓ} (H : Type ℓ) : Type ℓ where
  pub read_to_string : String → H → Result ErrorKind String
  pub write : String → String → H → Result ErrorKind (Unit {0}) × H
  pub exists : String → H → Bool
  pub read_dir : String → H → Option (List String)

abbrev pub from_io : String → ErrorKind → SysfsError
from_io path ErrorKind.not_found = SysfsError.not_found path
from_io path ErrorKind.permission_denied = SysfsError.permission_denied path
from_io path ErrorKind.other = SysfsError.io path

-- `map_err(|e| SysfsError::from_io(path, e))`
abbrev pub from_io_result : {A : Type 0} → String → Result ErrorKind A → Result SysfsError A
from_io_result path (ok a) = ok a
from_io_result path (err e) = err (from_io path e)

-- `map(|s| s.trim().to_string())`
abbrev pub trimmed : Result ErrorKind String → Result ErrorKind String
trimmed (ok s) = ok (trim s)
trimmed (err e) = err e

abbrev pub names_or_none : Option (List String) → List String
names_or_none none = []
names_or_none (some names) = names

module _ {ℓ} {H : Type ℓ} (fs : FileSystem H) where
  abbrev pub real_sysfs : SysfsIo H
  real_sysfs = record {
    read_string = λ path h. from_io_result path (trimmed (fs.read_to_string path h));
    write_string = λ path v h. let (r, h') = fs.write path v h in (from_io_result path r, h');
    exists = fs.exists;
    read_dir_names = λ path h. names_or_none (fs.read_dir path h);
  }
