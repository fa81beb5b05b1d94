-- ===== src/Driver/Swept.antt =====
-- The start of the driver manager of be/runtime/jdbc_driver_manager.cpp on a directory that is there: when
-- the first `init` returns.
use sr_scanner_demo.Base.{true, none, ◌≡◌, ◌↔◌, inl, inr, refl, ◌∙◌, Bytes, done, Option-cases}
use sr_scanner_demo.Base.Dict
use sr_scanner_demo.Fs.{Fs, is_entry_name, entries, directory_exists}
use sr_scanner_demo.Fs.Listing.{path_in, contains-entries, entries_named}
use sr_scanner_demo.Driver.Manager.{Manager, init}
use sr_scanner_demo.Driver.Manager.Loading.{IsDriverFile}
use sr_scanner_demo.Driver.Manager.Startup.{load_files_other}
use sr_scanner_demo.Driver.Manager.Restart.{init_there, init-IsKnown}
use sr_scanner_demo.Driver.Started.{new_manager}

abbrev at_work : Bytes → Manager
at_work dir = record new_manager { driver_dir = dir }

-- Where the directory is there, `init` of a new manager returns exactly if no name in the directory ends in
-- `.tmp` or `.jar`.
pub init_new_iff :
    (dir : Bytes) (fs : Fs)
    → directory_exists dir fs ≡ true
    → ((m : Manager) × (fs' : Fs) × (init dir new_manager fs ≡ done (m, fs'))) ↔ (
        (file : Bytes)
        → is_entry_name file ≡ true
        → IsDriverFile file
        → Dict.lookup (path_in dir file) fs ≡ none)
unfolding Dict.lookup
init_new_iff dir fs exists = (
  λ (m, fs', h) file n d. elim (Option-cases (Dict.lookup (path_in dir file) fs)) [
    | inl missing ↦ missing
    | inr (node, there) ↦
        let (_, each) = init-IsKnown dir new_manager m fs fs' exists h in
        let (_, (_, _, _, _, known)) = each file n (λ q. cc (q, there)) d in absurd (known refl)
  ],
  λ missing. (
    at_work dir,
    fs,
    init_there dir new_manager fs exists
        ∙ load_files_other (entries dir fs) (at_work dir) fs (λ file c d.
          let n = entries_named dir file fs c in
          (contains-entries dir file fs n).0 c (missing file n d)),
  ),
)
