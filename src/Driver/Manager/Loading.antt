-- ===== src/Driver/Manager/Loading.antt =====
-- One file of the loop in `init` of be/runtime/jdbc_driver_manager.cpp: what loading it comes to
-- where it returns.
use mathlib.Core.Path.{subst}
use sr_scanner_demo.Base.{
  ℕ, true, false, none, some, ◌≡◌, ◌⊎◌, sym, ◌∙◌, inl, inr, Bytes, done, fault, null_pointer,
  dangling, done-injective, >>=-eq-done, get_elem?, if◌then◌else◌, Bool-cases, Option-cases,
}
use sr_scanner_demo.Base.Int.{ℤ, ltb_ℤ}
use sr_scanner_demo.Base.Dict
use sr_scanner_demo.Fs.{Fs, delete_file}
use sr_scanner_demo.Fs.Laws.{delete_file_never}
use sr_scanner_demo.Fs.Suffix.{ends_with}
use sr_scanner_demo.Fs.Listing.{path_in}
use sr_scanner_demo.Driver.FileName.{parse_from_file_name, jar_file_suffix, tmp_file_suffix}
use sr_scanner_demo.Driver.Manager.{
  Entry, Manager, entry_at, set_entry, add_entry, loaded_entry, mark_for_deletion, remove_target,
  load_driver, load_file,
}
use sr_scanner_demo.Driver.Manager.Location.{entry_at_here}

-- The names that `init` looks at.
abbrev pub IsDriverFile : Bytes → Type 0
IsDriverFile file =
    (ends_with file tmp_file_suffix ≡ true) ⊎ (ends_with file jar_file_suffix ≡ true)

-- The manager after a newer file has replaced the entry `old` at `id`.
abbrev pub replaced_by : Bytes → Bytes → ℤ → Bytes → ℕ → Entry → Manager → Manager
replaced_by name checksum ts target id old m =
    add_entry name (loaded_entry name checksum ts target) (set_entry id (mark_for_deletion old) m)

-- What loading a file makes of a manager and a file system.
pub data Loads (file : Bytes) (m : Manager) (fs : Fs) : Manager → Fs → Type 0 where
  skipped :
      ends_with file tmp_file_suffix ≡ false
      → ends_with file jar_file_suffix ≡ false
      → Loads file m fs m fs
  replaced :
      (name checksum : Bytes) (ts : ℤ) (id : ℕ) (old : Entry)
      → ends_with file tmp_file_suffix ≡ false
      → parse_from_file_name file ≡ some (name, checksum, ts)
      → Dict.lookup name m.entry_map ≡ some id
      → get_elem? m.heap id ≡ some old
      → ltb_ℤ old.first_access_ts ts ≡ true
      → Loads file m fs (replaced_by name checksum ts (path_in m.driver_dir file) id old m) fs

transport_Loads :
    (file : Bytes) (m : Manager) (fs : Fs) (p q : Manager × Fs)
    → p ≡ q
    → Loads file m fs p.0 p.1
    → Loads file m fs q.0 q.1
transport_Loads file m fs p q e l = subst (λ r. Loads file m fs r.0 r.1) e l

-- A file to be deleted ends the program.
remove_target_never :
    (target : Bytes) (m m' : Manager) (fs fs' : Fs) → ¬ (remove_target target m fs ≡ done (m', fs'))
remove_target_never target m m' fs fs' h =
    let (fs₁, e, p) = >>=-eq-done (delete_file target fs) _ h in delete_file_never target fs fs₁ e

load_driver_found :
    (target name checksum : Bytes) (ts : ℤ) (m : Manager) (fs : Fs) (id : ℕ) (old : Entry)
    → Dict.lookup name m.entry_map ≡ some id
    → get_elem? m.heap id ≡ some old
    → load_driver target name checksum ts m fs ≡ (
        if ltb_ℤ old.first_access_ts ts
        then done (replaced_by name checksum ts target id old m, fs)
        else remove_target target m fs)
unfolding load_driver
load_driver_found target name checksum ts m fs id old e here =
    rw (e, load_driver) (rw (entry_at_here id old m here))

pub load_driver_unknown :
    (target name checksum : Bytes) (ts : ℤ) (m : Manager) (fs : Fs)
    → Dict.lookup name m.entry_map ≡ none
    → load_driver target name checksum ts m fs ≡ fault null_pointer
unfolding load_driver
load_driver_unknown target name checksum ts m fs e = rw (e, load_driver)

load_driver_dangling :
    (target name checksum : Bytes) (ts : ℤ) (m : Manager) (fs : Fs) (id : ℕ)
    → Dict.lookup name m.entry_map ≡ some id
    → get_elem? m.heap id ≡ none
    → load_driver target name checksum ts m fs ≡ fault dangling
unfolding load_driver
load_driver_dangling target name checksum ts m fs id e gone =
    rw (e, load_driver) (rw (gone, entry_at))

-- `load_file` on each kind of name.
module _ (file : Bytes) (m : Manager) (fs : Fs) where
  pub load_tmp :
      ends_with file tmp_file_suffix ≡ true
      → load_file file m fs ≡ remove_target (path_in m.driver_dir file) m fs
  unfolding load_file
  load_tmp t = rw (t, load_file)

  pub load_other :
      ends_with file tmp_file_suffix ≡ false
      → ends_with file jar_file_suffix ≡ false
      → load_file file m fs ≡ done (m, fs)
  unfolding load_file
  load_other t j = rw (t, load_file) (rw j)

  pub load_bad_jar :
      ends_with file tmp_file_suffix ≡ false
      → ends_with file jar_file_suffix ≡ true
      → parse_from_file_name file ≡ none
      → load_file file m fs ≡ remove_target (path_in m.driver_dir file) m fs
  unfolding load_file
  load_bad_jar t j p = rw (t, load_file) (rw j (rw p))

pub load_jar :
    (file name checksum : Bytes) (ts : ℤ) (m : Manager) (fs : Fs)
    → ends_with file tmp_file_suffix ≡ false
    → ends_with file jar_file_suffix ≡ true
    → parse_from_file_name file ≡ some (name, checksum, ts)
    → load_file file m fs ≡ load_driver (path_in m.driver_dir file) name checksum ts m fs
unfolding load_file
load_jar file name checksum ts m fs t j p = rw (t, load_file) (rw j (rw p))

load_driver-Loads :
    (file name checksum : Bytes) (ts : ℤ) (m m' : Manager) (fs fs' : Fs)
    → ends_with file tmp_file_suffix ≡ false
    → ends_with file jar_file_suffix ≡ true
    → parse_from_file_name file ≡ some (name, checksum, ts)
    → load_driver (path_in m.driver_dir file) name checksum ts m fs ≡ done (m', fs')
    → Loads file m fs m' fs'
load_driver-Loads file name checksum ts m m' fs fs' t j parsed h =
    let target = path_in m.driver_dir file in
    elim (Option-cases (Dict.lookup name m.entry_map)) [
      | inl e ↦ absurd (cc (sym (load_driver_unknown target name checksum ts m fs e) ∙ h))
      | inr (id, e) ↦ elim (Option-cases (get_elem? m.heap id)) [
        | inl gone ↦
            absurd (cc (sym (load_driver_dangling target name checksum ts m fs id e gone) ∙ h))
        | inr (old, here) ↦
            let found = sym (load_driver_found target name checksum ts m fs id old e here) ∙ h in
            elim (Bool-cases (ltb_ℤ old.first_access_ts ts)) [
              | inl newer ↦
                  transport_Loads file m fs (replaced_by name checksum ts target id old m, fs)
                    (m', fs') (done-injective _ _ (rw newer at found))
                    (replaced name checksum ts id old t parsed e here newer)
              | inr older ↦ absurd (remove_target_never target m m' fs fs' (rw older at found))
            ]
      ]
    ]

-- A file whose loading returns has come to one of the two.
pub load_file-Loads :
    (file : Bytes) (m m' : Manager) (fs fs' : Fs)
    → load_file file m fs ≡ done (m', fs')
    → Loads file m fs m' fs'
load_file-Loads file m m' fs fs' h = elim (Bool-cases (ends_with file tmp_file_suffix)) [
  | inl tmp ↦ absurd (remove_target_never _ m m' fs fs' (sym (load_tmp file m fs tmp) ∙ h))
  | inr t ↦ elim (Bool-cases (ends_with file jar_file_suffix)) [
    | inr j ↦
        transport_Loads file m fs (m, fs) (m', fs')
          (done-injective _ _ (sym (load_other file m fs t j) ∙ h)) (skipped t j)
    | inl jar ↦ elim (Option-cases (parse_from_file_name file)) [
      | inl bad ↦
          absurd (remove_target_never _ m m' fs fs' (sym (load_bad_jar file m fs t jar bad) ∙ h))
      | inr ((name, checksum, ts), parsed) ↦
          load_driver-Loads file name checksum ts m m' fs fs' t jar parsed
            (sym (load_jar file name checksum ts m fs t jar parsed) ∙ h)
    ]
  ]
]
