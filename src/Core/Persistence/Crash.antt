-- ===== src/Core/Persistence/Crash.antt =====
-- What a crash in the middle of a save of hpd-core/src/persistence.rs leaves in the state file.
use hpd_handheld_power_daemo.Prelude.{
  refl, ap, ◌∙◌, true, false, Bool, Bool-cases, inl, inr, ℕ, zero, suc, ◌≡◌, ◌⊎◌, Option, none,
  some, String, ◌==◌, nat_eq, string_eq, if◌then◌else◌, List,
}
use text.Mathlib.TextLemmas.{nil-append}
use hpd_handheld_power_daemo.Core.State.{ProfileState}
use hpd_handheld_power_daemo.Core.Persistence.{
  Files, create, append_to, sync_all, rename, set_at, appended, run_op, run_ops, Calls, commit,
  sync_and_commit, write_and_commit, save, load, load_content, power_cut,
}

-- The first n items of a list.
abbrev pub take {ℓ} : {A : Type ℓ} → ℕ → List A → List A
take zero xs = List.[]
take (suc n) List.[] = List.[]
take (suc n) (List.◌∷◌ x xs) = List.◌∷◌ x (take n xs)

module _ (path tmp_path : String) (n_path : (tmp_path == path) ≡ false) where
  -- The state file is on stable storage and holds what it held before.
  abbrev IsOld : Files → Files → Type 0
  IsOld before f = (f.content path ≡ before.content path) × (f.synced path ≡ true)

  -- The state file is on stable storage and holds the text.
  abbrev IsNew : String → Files → Type 0
  IsNew text f = (f.content path ≡ some text) × (f.synced path ≡ true)

  -- What the saves below have left, on the way to the text.
  abbrev Outcome : String → Files → Files → Type 0
  Outcome text before f = IsOld before f ⊎ IsNew text f

  take-nil : (n : ℕ) (f : Files) → run_ops (take n List.[]) f ≡ f
  unfolding run_ops
  take-nil zero f = refl
  take-nil (suc n) f = refl

  -- An operation on the temporary file alone leaves the state file as it was.
  other_content : {A : Type 0} (g : String → A) (a : A) → set_at g tmp_path a path ≡ g path
  other_content g a = rw n_path refl

  at_tmp : {A : Type 0} (g : String → A) (a : A) → set_at g tmp_path a tmp_path ≡ a
  at_tmp g a = rw ((string_eq.beq_iff tmp_path tmp_path).1 refl) refl

  at_path : {A : Type 0} (g : String → A) (a : A) → set_at g path a path ≡ a
  at_path g a = rw ((string_eq.beq_iff path path).1 refl) refl

  commit-Outcome :
      (renamed : Bool) (text : String) (n : ℕ) (before f : Files)
      → IsOld before f
      → f.content tmp_path ≡ some text
      → f.synced tmp_path ≡ true
      → Outcome text before (run_ops (take n (commit path tmp_path renamed)) f)
  unfolding run_ops run_op
  commit-Outcome renamed text zero before f old c s = inl old
  commit-Outcome false text (suc n) before f old c s = inl old
  commit-Outcome true text (suc n) before f old c s =
      let g = run_op (rename tmp_path path) f in
      let new : IsNew text g = (
        at_path (set_at f.content tmp_path none) (f.content tmp_path) ∙ c,
        at_path (set_at f.synced tmp_path true) (f.synced tmp_path) ∙ s,
      ) in
      inr (rw (take-nil n g) new)

  sync-Outcome :
      (calls : Calls) (text : String) (n : ℕ) (before f : Files)
      → IsOld before f
      → f.content tmp_path ≡ some text
      → Outcome text before (run_ops (take n (sync_and_commit path tmp_path calls)) f)
  unfolding run_ops
  sync-Outcome calls text zero before f old c = inl old
  sync-Outcome calls text (suc n) before f old c = elim (Bool-cases calls.synced) [
    | inr failed ↦ rw failed (inl old)
    | inl done ↦ rw done (
        commit-Outcome calls.renamed text n before (run_op (sync_all tmp_path) f)
          (unfold run_op in (old.0, other_content f.synced true ∙ old.1)) (unfold run_op in c)
          (unfold run_op in at_tmp f.synced true))
  ]

  append-IsOld :
      (before f : Files) (part : String)
      → IsOld before f
      → IsOld before (run_op (append_to tmp_path part) f)
  unfolding run_op
  append-IsOld before f part old =
      (other_content f.content _ ∙ old.0, other_content f.synced false ∙ old.1)

  write-Outcome :
      (calls : Calls) (cut : Option String) (text : String) (n : ℕ) (before f : Files)
      → IsOld before f
      → f.content tmp_path ≡ some ""
      → Outcome text before (run_ops (take n (write_and_commit path tmp_path calls cut text)) f)
  unfolding run_ops
  write-Outcome calls cut text zero before f old c = inl old
  write-Outcome calls (some part) text (suc n) before f old c =
      let g = run_op (append_to tmp_path part) f in
      inl (rw (take-nil n g) (append-IsOld before f part old))
  write-Outcome calls none text (suc n) before f old c =
      sync-Outcome calls text n before (run_op (append_to tmp_path text) f)
        (append-IsOld before f text old)
        (unfold run_op in
          at_tmp f.content _ ∙ ap (λ o. appended o text) c ∙ ap some (nil-append text))

  create-Outcome :
      (created : Bool) (calls : Calls) (text : String) (n : ℕ) (f : Files)
      → f.synced path ≡ true
      → let rest = write_and_commit path tmp_path calls calls.cut_short text in
        Outcome text f
          (run_ops (take n (if created then List.◌∷◌ (create tmp_path) rest else List.[])) f)
  unfolding run_ops
  create-Outcome created calls text zero f s = inl (refl, s)
  create-Outcome false calls text (suc n) f s = inl (refl, s)
  create-Outcome true calls text (suc n) f s =
      write-Outcome calls calls.cut_short text n f (run_op (create tmp_path) f)
        (unfold run_op in (other_content f.content (some ""), other_content f.synced false ∙ s))
        (unfold run_op in at_tmp f.content (some ""))

  -- However the calls of a save end, after any number of its operations the state file is old or new.
  save-Outcome :
      (calls : Calls) (text : String) (n : ℕ) (f : Files)
      → f.synced path ≡ true
      → Outcome text f (run_ops (take n (save path tmp_path calls (some text))) f)
  unfolding save
  save-Outcome calls text n f s = create-Outcome calls.created calls text n f s

  power_cut-content :
      (remains : String → Option String) (f : Files)
      → f.synced path ≡ true
      → (power_cut remains f).content path ≡ f.content path
  unfolding power_cut
  power_cut-content remains f s = rw s refl

  -- With a temporary file beside a state file that is on stable storage: when the power is cut after
  -- any number of the operations of a save, however its calls end and whatever the cut leaves in files
  -- that are not on stable storage, loading then gives what loading gave before the save, or what the
  -- whole text of the saved state is read as.
  pub load-power_cut :
      (from_str : String → Option ProfileState) (readable : Bool) (remains : String → Option String)
      (calls : Calls) (text : String) (n : ℕ) (f : Files)
      → f.synced path ≡ true
      → let cut = power_cut remains (run_ops (take n (save path tmp_path calls (some text))) f) in
        (load from_str readable path cut ≡ load from_str readable path f)
        ⊎ (load from_str readable path cut ≡ load_content from_str readable (some text))
  unfolding load
  load-power_cut from_str readable remains calls text n f s = elim (save-Outcome calls text n f s) [
    | inl (c, s') ↦ inl (ap (load_content from_str readable) (power_cut-content remains _ s' ∙ c))
    | inr (c, s') ↦ inr (ap (load_content from_str readable) (power_cut-content remains _ s' ∙ c))
  ]
