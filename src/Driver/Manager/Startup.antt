-- ===== src/Driver/Manager/Startup.antt =====
-- The loop of `init` of be/runtime/jdbc_driver_manager.cpp over the files of the driver directory.
use mathlib.Core.Path.{subst}
use sr_scanner_demo.Base.{
  ℕ, true, false, none, some, List, [], ◌∷◌, ◌≡◌, ◌≢◌, refl, sym, ap, ◌∙◌, inl, inr, arith, Bytes,
  done, ◌>>=◌, >>=-eq-done, done-injective, bytes_eq, bytes_eq_iff, bytes_eq_refl, contains,
  Bool-cases,
}
use sr_scanner_demo.Base.Int.{ℤ}
use sr_scanner_demo.Base.Dict
use sr_scanner_demo.Base.Dict.{lookup-insert}
use sr_scanner_demo.Fs.{Fs}
use sr_scanner_demo.Fs.Suffix.{ends_with}
use sr_scanner_demo.Fs.Listing.{path_in}
use sr_scanner_demo.Driver.FileName.{parse_from_file_name, jar_file_suffix, tmp_file_suffix}
use sr_scanner_demo.Driver.Manager.{Manager, load_file, load_files, mark_for_deletion, loaded_entry}
use sr_scanner_demo.Driver.Manager.Invariant.{IsValid, set_entry-IsValid, add_entry-IsValid}
use sr_scanner_demo.Driver.Manager.Loading.{
  IsDriverFile, Loads, skipped, replaced, load_file-Loads, load_other,
}

-- What loading files never does: move the manager, change a file, learn a new name, break the manager.
pub record Keeps (m : Manager) (fs : Fs) (m' : Manager) (fs' : Fs) : Type 0 where
  pub dir : m'.driver_dir ≡ m.driver_dir
  pub files : fs' ≡ fs
  pub no_name :
      (name : Bytes) → Dict.lookup name m.entry_map ≡ none → Dict.lookup name m'.entry_map ≡ none
  pub valid : IsValid m → IsValid m'

Keeps-refl : (m : Manager) (fs : Fs) → Keeps m fs m fs
Keeps-refl m fs = record { dir = refl; files = refl; no_name = λ n h. h; valid = λ v. v }

Keeps-trans :
    {m m₁ m₂ : Manager} {fs fs₁ fs₂ : Fs}
    → Keeps m fs m₁ fs₁
    → Keeps m₁ fs₁ m₂ fs₂
    → Keeps m fs m₂ fs₂
Keeps-trans k l = record {
  dir = l.dir ∙ k.dir;
  files = l.files ∙ k.files;
  no_name = λ n h. l.no_name n (k.no_name n h);
  valid = λ v. l.valid (k.valid v);
}

-- A new entry for a known name makes no other name known.
other_name :
    (name n : Bytes) {id : ℕ} (k : ℕ) (m : Manager)
    → Dict.lookup name m.entry_map ≡ some id
    → Dict.lookup n m.entry_map ≡ none
    → Dict.lookup n (Dict.insert name k m.entry_map) ≡ none
other_name name n k m e h =
    lookup-insert name n k m.entry_map
    ∙ ground
        (arith, bytes_eq_iff name n, e, h, ap (λ j. Dict.lookup j m.entry_map) {x = name} {y = n})

Loads-Keeps :
    (file : Bytes) {m m' : Manager} {fs fs' : Fs} → Loads file m fs m' fs' → Keeps m fs m' fs'
Loads-Keeps file {m} {fs} (skipped t j) = Keeps-refl m fs
Loads-Keeps file {m} {fs} (replaced name checksum ts id old t parsed e here newer) = record {
  dir = refl;
  files = refl;
  no_name = λ n h. other_name name n _ m e h;
  valid = λ v.
      add_entry-IsValid (loaded_entry name checksum ts (path_in m.driver_dir file)) _
        (set_entry-IsValid id old (mark_for_deletion old) m v here refl (v.downloaded id old here))
        refl;
}

pub load_files-cons :
    (file : Bytes) (files : List Bytes) (m : Manager) (fs : Fs)
    → load_files (file ∷ files) m fs ≡ (load_file file m fs >>= λ r. load_files files r.0 r.1)
unfolding load_files
load_files-cons file files m fs = ground arith

-- A step of the loop that returns, in front of the rest of it.
pub load_files-step :
    (file : Bytes) (files : List Bytes) (m m₂ : Manager) (fs fs₂ : Fs)
    → load_files (file ∷ files) m fs ≡ done (m₂, fs₂)
    → (m₁ : Manager) × (fs₁ : Fs) × (load_file file m fs ≡ done (m₁, fs₁))
      × (load_files files m₁ fs₁ ≡ done (m₂, fs₂))
load_files-step file files m m₂ fs fs₂ h =
    let ((m₁, fs₁), e, rest) =
      >>=-eq-done (load_file file m fs) (λ r. load_files files r.0 r.1)
        (sym (load_files-cons file files m fs) ∙ h) in
    (m₁, fs₁, e, rest)

pub load_files-nil :
    (m m' : Manager) (fs fs' : Fs)
    → load_files [] m fs ≡ done (m', fs')
    → ◌≡◌ {A = Manager × Fs} (m, fs) (m', fs')
unfolding load_files
load_files-nil m m' fs fs' h = done-injective (m, fs) (m', fs') h

pub load_files-Keeps :
    (files : List Bytes) (m m' : Manager) (fs fs' : Fs)
    → load_files files m fs ≡ done (m', fs')
    → Keeps m fs m' fs'
load_files-Keeps [] m m' fs fs' h =
    subst (λ q. Keeps m fs q.0 q.1) (load_files-nil m m' fs fs' h) (Keeps-refl m fs)
load_files-Keeps (file ∷ files) m m' fs fs' h =
    let (m₁, fs₁, e, rest) = load_files-step file files m m' fs fs' h in
    Keeps-trans (Loads-Keeps file (load_file-Loads file m m₁ fs fs₁ e))
      (load_files-Keeps files m₁ m' fs₁ fs' rest)

-- The name is that of a driver that the manager knows.
abbrev pub IsKnown : Manager → Bytes → Type 0
IsKnown m file =
    (ends_with file tmp_file_suffix ≡ false)
    × ((name : Bytes) × (checksum : Bytes) × (ts : ℤ) × (parse_from_file_name file
          ≡ some (name, checksum, ts))
        × (Dict.lookup name m.entry_map ≢ none))

Loads-IsKnown :
    (file : Bytes) {m m' : Manager} {fs fs' : Fs}
    → Loads file m fs m' fs'
    → IsDriverFile file
    → IsKnown m file
Loads-IsKnown file (skipped t j) (inl tmp) = cc
Loads-IsKnown file (skipped t j) (inr jar) = cc
Loads-IsKnown file (replaced name checksum ts id old t parsed e here newer) d =
    (t, (name, checksum, ts, parsed, λ q. cc (q, e)))

-- A loop that returns has met no temporary file, and of the jar files only ones of known drivers.
pub load_files-IsKnown :
    (file : Bytes) (files : List Bytes) (m m' : Manager) (fs fs' : Fs)
    → load_files files m fs ≡ done (m', fs')
    → contains file files ≡ true
    → IsDriverFile file
    → IsKnown m file
unfolding contains
load_files-IsKnown file [] m m' fs fs' h c d = cc
load_files-IsKnown file (g ∷ files) m m' fs fs' h c d =
    let (m₁, fs₁, e, rest) = load_files-step g files m m' fs fs' h in
    let loads = load_file-Loads g m m₁ fs fs₁ e in
    elim (Bool-cases (bytes_eq g file)) [
      | inl same ↦
          let q = (bytes_eq_iff g file).0 same in
          Loads-IsKnown file (subst (λ f. Loads f m fs m₁ fs₁) q loads) d
      | inr other ↦
          let (t, (name, checksum, ts, parsed, known)) =
            load_files-IsKnown file files m₁ m' fs₁ fs' rest (rw other at c) d in
          (t, (name, checksum, ts, parsed, λ q. known ((Loads-Keeps g loads).no_name name q)))
    ]

-- A loop over names that are no driver's changes nothing.
pub load_files_other :
    (files : List Bytes) (m : Manager) (fs : Fs)
    → ((file : Bytes) → contains file files ≡ true → ¬ (IsDriverFile file))
    → load_files files m fs ≡ done (m, fs)
unfolding load_files contains
load_files_other [] m fs none_met = refl
load_files_other (file ∷ files) m fs none_met =
    let plain = none_met file (rw (bytes_eq_refl file) refl) in
    let step : load_file file m fs ≡ done (m, fs) =
      elim (Bool-cases (ends_with file tmp_file_suffix)) [
        | inl tmp ↦ absurd (plain (inl tmp))
        | inr t ↦ elim (Bool-cases (ends_with file jar_file_suffix)) [
          | inl jar ↦ absurd (plain (inr jar))
          | inr j ↦ load_other file m fs t j
        ]
      ] in
    rw (step, load_files) (load_files_other files m fs (λ g c. none_met g (ground (arith, c))))
