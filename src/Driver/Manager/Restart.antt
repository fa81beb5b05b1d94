-- ===== src/Driver/Manager/Restart.antt =====
-- `init` of be/runtime/jdbc_driver_manager.cpp as a whole: what it leaves in the driver directory and
-- in the map of entries, and when it cannot return.
use sr_scanner_demo.Base.{
  sym, ap, ◌∙◌, true, none, refl, List, ◌∷◌, ◌++◌, ◌≡◌, ◌≢◌, inl, inr, arith, Bytes, Lacks, done,
  >>=-eq-done, done-injective, if◌then◌else◌, Bool-cases, append_assoc, Outcome,
}
use sr_scanner_demo.Base.Int.{ℤ, InInt64}
use sr_scanner_demo.Base.Dict
use sr_scanner_demo.Base.Decimal.{to_string}
use sr_scanner_demo.Fs.{
  Fs, is_entry_name, entries, directory_exists, create_directory, list_directory,
}
use sr_scanner_demo.Fs.Suffix.{ends_with_iff}
use sr_scanner_demo.Fs.Listing.{path_in, contains-entries}
use sr_scanner_demo.Driver.FileName.{driver_file_name, generate_driver_location, jar_file_suffix}
use sr_scanner_demo.Driver.FileName.RoundTrip.{parse-driver_file_name}
use sr_scanner_demo.Driver.Manager.{Manager, load_files, init}
use sr_scanner_demo.Driver.Manager.Loading.{IsDriverFile}
use sr_scanner_demo.Driver.Manager.Invariant.{IsValid}
use sr_scanner_demo.Driver.Manager.Startup.{IsKnown, load_files-Keeps, load_files-IsKnown}

-- The file system whose directory `init` lists.
pub prepared : Bytes → Fs → Outcome Fs
prepared dir fs = if directory_exists dir fs then done fs else create_directory dir fs

list_directory-entries :
    (dir : Bytes) (fs : Fs) {files : List Bytes}
    → list_directory dir fs ≡ done files
    → entries dir fs ≡ files
unfolding list_directory
list_directory-entries dir fs h = elim (Bool-cases (directory_exists dir fs)) [
  | inl e ↦ done-injective (entries dir fs) _ (rw (e, list_directory) at h)
  | inr e ↦ absurd (ground (arith, e))
]

-- An `init` that returns has loaded the entries of the directory.
pub init-loads :
    (dir : Bytes) (m m' : Manager) (fs fs' : Fs)
    → init dir m fs ≡ done (m', fs')
    → (fs₁ : Fs) × (prepared dir fs ≡ done fs₁)
      × (load_files (entries dir fs₁) (record m { driver_dir = dir }) fs₁ ≡ done (m', fs'))
unfolding init prepared
init-loads dir m m' fs fs' h =
    let (fs₁, made, rest) = >>=-eq-done (prepared dir fs) _ h in
    let (files, listed, loaded) = >>=-eq-done (list_directory dir fs₁) _ rest in
    (fs₁, made, rw (list_directory-entries dir fs₁ listed) loaded)

-- On a directory that is there `init` is its loop over the names in it.
pub init_there :
    (dir : Bytes) (m : Manager) (fs : Fs)
    → directory_exists dir fs ≡ true
    → init dir m fs ≡ load_files (entries dir fs) (record m { driver_dir = dir }) fs
unfolding init list_directory
init_there dir m fs exists = rw exists (rw (exists, list_directory) refl)

-- After `init` has returned, the manager works in the given directory; it knows no name that it did
-- not know before, and is valid if it was.
pub init-IsValid :
    (dir : Bytes) (m m' : Manager) (fs fs' : Fs)
    → init dir m fs ≡ done (m', fs')
    → (m'.driver_dir ≡ dir)
      × ((name : Bytes)
          → Dict.lookup name m.entry_map ≡ none
          → Dict.lookup name m'.entry_map ≡ none)
      × (IsValid m → IsValid m')
init-IsValid dir m m' fs fs' h =
    let (fs₁, made, loaded) = init-loads dir m m' fs fs' h in
    let k = load_files-Keeps (entries dir fs₁) (record m { driver_dir = dir }) m' fs₁ fs' loaded in
    (k.dir, k.no_name, λ v. k.valid (record { bound = v.bound; downloaded = v.downloaded }))

-- The file name of a driver ends in `.jar`, and is no temporary file's.
pub driver_file_name-jar :
    (name checksum : Bytes) (ts : ℤ)
    → (p : Bytes) × (driver_file_name name checksum ts ≡ p ++ jar_file_suffix)
driver_file_name-jar name checksum ts =
    (name ++ b'_' ∷ (checksum ++ b'_' ∷ to_string ts), simp append_assoc)

-- Where the directory is there, an `init` that returns has left every file as it was, and each name in
-- the directory that ends in `.tmp` or `.jar` is a jar file's, can be parsed, and has the name of a driver
-- that the manager knew before.
pub init-IsKnown :
    (dir : Bytes) (m m' : Manager) (fs fs' : Fs)
    → directory_exists dir fs ≡ true
    → init dir m fs ≡ done (m', fs')
    → (fs' ≡ fs)
      × ((file : Bytes)
          → is_entry_name file ≡ true
          → Dict.lookup (path_in dir file) fs ≢ none
          → IsDriverFile file
          → IsKnown m file)
init-IsKnown dir m m' fs fs' exists h =
    let start : Manager = record m { driver_dir = dir } in
    let loaded = sym (init_there dir m fs exists) ∙ h in
    (
      (load_files-Keeps (entries dir fs) start m' fs fs' loaded).files,
      λ file n there d.
          load_files-IsKnown file (entries dir fs) start m' fs fs' loaded
            ((contains-entries dir file fs n).1 there) d,
    )

-- A driver whose name has an underscore stops the restart: where its checksum has none, its time is
-- an int64_t and its file name has no slash, `init` of a manager that does not know the name never
-- returns from a directory with its file.
pub init_stops_at_driver :
    (dir name checksum : Bytes) (ts : ℤ) (m m' : Manager) (fs fs' : Fs)
    → ¬ (Lacks b'_' name)
    → Lacks b'_' checksum
    → InInt64 ts
    → is_entry_name (driver_file_name name checksum ts) ≡ true
    → directory_exists dir fs ≡ true
    → Dict.lookup (generate_driver_location dir name checksum ts) fs ≢ none
    → Dict.lookup name m.entry_map ≡ none
    → ¬ (init dir m fs ≡ done (m', fs'))
init_stops_at_driver dir name checksum ts m m' fs fs' has lacks range n exists there unknown h =
    let (p, e) = driver_file_name-jar name checksum ts in
    let (_, each) = init-IsKnown dir m m' fs fs' exists h in
    let (_, (name', _, _, parsed, known)) =
      each (driver_file_name name checksum ts) n there (inr ((ends_with_iff _ _).1 (p, e))) in
    let q = sym (parse-driver_file_name name checksum ts has lacks range) ∙ parsed in
    let same : name ≡ name' = cc q in
    known (ap (λ k. Dict.lookup k m.entry_map) (sym same) ∙ unknown)
