-- ===== src/Core/Persistence.antt =====
-- hpd-core/src/persistence.rs: the state file. `save` is the list of operations that it carries out
-- on the files, given how each call of the file system ends; a crash cuts that list short.
pub mod Crash
use Prim.Native.String.{◌++◌}
use hpd_handheld_power_daemo.Prelude.{
  refl, sym, ap, ◌∙◌, true, false, not, ◌&&◌, ◌||◌, ltb, leb, Bool, Bool-cases, inl, inr, ℕ, zero,
  suc, ◌+◌, ◌-◌, ◌*◌, ◌/◌, ◌%◌, ◌^◌, ◌≤◌, ◌<◌, ◌≡◌, ◌⊎◌, ◌↔◌, Option, none, some, ok, err, Result,
  ◌>>=◌, ◌>>◌, arith, String, Equality, ◌==◌, ◌!=◌, nat_eq, string_eq, if◌then◌else◌, All, any, all,
  length, is_empty, List, [], ◌∷◌,
}
use hpd_handheld_power_daemo.Core.State.{ProfileState}

-- The files by their path, and whether what they hold is on stable storage.
pub record Files : Type 0 where
  pub content : String → Option String
  pub synced : String → Bool

pub data FileOp : Type 0 where
  create : String → FileOp
  append_to : String → String → FileOp
  sync_all : String → FileOp
  rename : String → String → FileOp

abbrev pub set_at {ℓ} : {A : Type ℓ} → (String → A) → String → A → String → A
set_at f p a q = if p == q then a else f q

abbrev pub appended : Option String → String → Option String
appended none text = none
appended (some s) text = some (s ++ text)

-- What an operation does: a file is created empty, what is written to it is not on stable storage
-- before `sync_all`, and a rename replaces the file at the new path.
unfoldable pub run_op : FileOp → Files → Files
run_op (create p) f = record {
  content = set_at f.content p (some "");
  synced = set_at f.synced p false;
}
run_op (append_to p text) f = record {
  content = set_at f.content p (appended (f.content p) text);
  synced = set_at f.synced p false;
}
run_op (sync_all p) f = record f { synced = set_at f.synced p true }
run_op (rename p q) f = record {
  content = set_at (set_at f.content p none) q (f.content p);
  synced = set_at (set_at f.synced p true) q (f.synced p);
}

unfoldable pub run_ops : List FileOp → Files → Files
run_ops List.[] f = f
run_ops (List.◌∷◌ op ops) f = run_ops ops (run_op op f)

-- How the calls of a save end: whether the file is created, what is written where `write_all` fails,
-- and whether `sync_all` and `rename` succeed.
pub record Calls : Type 0 where
  pub created : Bool
  pub cut_short : Option String
  pub synced : Bool
  pub renamed : Bool

module _ (path tmp_path : String) where
  abbrev pub commit : Bool → List FileOp
  commit renamed = if renamed then List.◌∷◌ (rename tmp_path path) List.[] else List.[]

  abbrev pub sync_and_commit : Calls → List FileOp
  sync_and_commit calls =
      if calls.synced then List.◌∷◌ (sync_all tmp_path) (commit calls.renamed) else List.[]

  abbrev pub write_and_commit : Calls → Option String → String → List FileOp
  write_and_commit calls (some part) text = List.◌∷◌ (append_to tmp_path part) List.[]
  write_and_commit calls none text = List.◌∷◌ (append_to tmp_path text) (sync_and_commit calls)

  -- `save` on the text that the state is written as, where it can be written at all.
  unfoldable pub save : Calls → Option String → List FileOp
  save calls none = List.[]
  save calls (some text) =
      if calls.created
      then List.◌∷◌ (create tmp_path) (write_and_commit calls calls.cut_short text)
      else List.[]

abbrev pub parsed : (String → Option ProfileState) → Bool → String → Option ProfileState
parsed from_str readable text = if readable then from_str text else none

abbrev pub load_content :
    (String → Option ProfileState) → Bool → Option String → Option ProfileState
load_content from_str readable none = none
load_content from_str readable (some text) = parsed from_str readable text

-- `load`, with what the toml crate reads a text as, and whether the file can be read.
unfoldable pub load : (String → Option ProfileState) → Bool → String → Files → Option ProfileState
load from_str readable path f = load_content from_str readable (f.content path)

-- A power cut leaves anything in a file that is not on stable storage.
unfoldable pub power_cut : (String → Option String) → Files → Files
power_cut remains f = record {
  content = λ p. if f.synced p then f.content p else remains p;
  synced = λ p. true;
}
