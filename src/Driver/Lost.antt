-- ===== src/Driver/Lost.antt =====
-- Two runs of the driver manager of be/runtime/jdbc_driver_manager.cpp in one directory: what the second
-- start makes of the files of the first run.
use mathlib.Core.Path.{subst}
use sr_scanner_demo.Base.{
  ℕ, true, none, ◌≢◌, List, [], ◌∷◌, ◌++◌, All, All-map, ◌≡◌, refl, sym, ◌∙◌, arith, inr, Bytes,
  Lacks, done, done-injective,
}
use sr_scanner_demo.Base.Int.{ℤ}
use sr_scanner_demo.Base.Dict
use sr_scanner_demo.Base.Decimal.{to_string, to_string-Lacks_slash}
use sr_scanner_demo.Base.Find.{find_last_of-none}
use sr_scanner_demo.Status.{Status}
use sr_scanner_demo.Fs.{Fs, is_entry_name, directory_exists}
use sr_scanner_demo.Fs.Suffix.{ends_with_iff}
use sr_scanner_demo.Driver.FileName.{driver_file_name, jar_file_suffix, generate_driver_location}
use sr_scanner_demo.Driver.Manager.{Manager, init}
use sr_scanner_demo.Driver.Manager.Invariant.{IsValid}
use sr_scanner_demo.Driver.Manager.Restart.{driver_file_name-jar}
use sr_scanner_demo.Driver.Swept.{init_new_iff}
use sr_scanner_demo.Driver.Manager.Registry.{Call, view}
use sr_scanner_demo.Driver.Manager.Registry.Refinement.{get_all, get_all_refines}
use sr_scanner_demo.Driver.Manager.Registry.Locations.{locate_all-Everywhere}
use sr_scanner_demo.Driver.Started.{new_manager, init_new}

-- A call whose name and checksum have no slash, so that its file stands in the directory itself.
abbrev pub IsFileCall : Call → Type 0
IsFileCall c = Lacks b'/' c.name × Lacks b'/' c.checksum

-- A path at which nothing may stand where an `init` of a new manager returns.
abbrev Stops : Bytes → Bytes → Type 0
Stops dir p =
    (m : Manager) (fs fs' : Fs)
    → directory_exists dir fs ≡ true
    → Dict.lookup p fs ≢ none
    → ¬ (init dir new_manager fs ≡ done (m, fs'))

Lacks-append : (b : ℕ) (s t : Bytes) → Lacks b s → Lacks b t → Lacks b (s ++ t)
Lacks-append b [] t h k = k
Lacks-append b (c ∷ s) t (h, hs) k = (h, Lacks-append b s t hs k)

plain-is_entry_name :
    (s : Bytes) (c : ℕ) (t : Bytes) → Lacks b'/' (s ++ c ∷ t) → is_entry_name (s ++ c ∷ t) ≡ true
unfolding is_entry_name
plain-is_entry_name [] c t h = rw (find_last_of-none b'/' (c ∷ t) h, is_entry_name) refl
plain-is_entry_name (d ∷ s) c t h =
    rw (find_last_of-none b'/' (d ∷ (s ++ c ∷ t)) h, is_entry_name) refl

driver_file_name-is_entry_name :
    (name checksum : Bytes) (ts : ℤ)
    → Lacks b'/' name
    → Lacks b'/' checksum
    → is_entry_name (driver_file_name name checksum ts) ≡ true
driver_file_name-is_entry_name name checksum ts n k =
    let time =
      Lacks-append b'/' (to_string ts) jar_file_suffix (to_string-Lacks_slash ts) (omega arith) in
    let rest =
      Lacks-append b'/' checksum (b'_' ∷ (to_string ts ++ jar_file_suffix)) k (omega arith, time) in
    plain-is_entry_name name b'_' _ (Lacks-append b'/' name _ n (omega arith, rest))

driver-Stops :
    (dir : Bytes) (c : Call)
    → IsFileCall c
    → Stops dir (generate_driver_location dir c.name c.checksum c.now)
driver-Stops dir c (n, k) m fs fs' exists there h =
    let (p, e) = driver_file_name-jar c.name c.checksum c.now in
    there (
      (init_new_iff dir fs exists).0 (m, fs', h) (driver_file_name c.name c.checksum c.now)
        (driver_file_name-is_entry_name c.name c.checksum c.now n k)
        (inr ((ends_with_iff _ _).1 (p, e))))

-- A stored driver stops the next start. Whatever the downloads of the first run do, and whatever is on the
-- disk: where a first `init` returns, and calls of `get_driver_location` for names and checksums without a
-- slash return locations, then with a file at any of these locations, and the directory there, no `init` of
-- the next run returns.
pub get_all_stops :
    (download : Bytes → Bytes → Bytes → Bytes → Fs → Status × Fs) (dir : Bytes) (cs : List Call)
    (locations : List Bytes) (m m₁ m₂ : Manager) (fs fs₁ fs₂ fs₃ : Fs)
    → All IsFileCall cs
    → init dir new_manager fs ≡ done (m, fs₁)
    → get_all download cs m fs₁ ≡ done (locations, m₁, fs₂)
    → directory_exists dir fs₂ ≡ true
    → All
        (λ location.
          Dict.lookup location fs₂ ≢ none → ¬ (init dir new_manager fs₂ ≡ done (m₂, fs₃)))
        locations
unfolding Dict.lookup
get_all_stops download dir cs locations m m₁ m₂ fs fs₁ fs₂ fs₃ plain started ran exists =
    let start : Manager = record new_manager { driver_dir = dir } in
    let valid : IsValid start = record { bound = λ name id h. cc; downloaded = λ id e h. cc } in
    let ran' = rw (init_new dir m fs fs₁ started) at ran in
    let (n, w, run, _, _) = get_all_refines download cs start fs₁ valid in
    let stops =
      locate_all-Everywhere (Stops dir) dir cs (view start) (All-map cs (driver-Stops dir) plain)
        (λ name c l h. cc) in
    let each = All-map _ (λ l s there. s m₂ fs₂ fs₃ exists there) stops in
    subst
      (λ r. All (λ l. Dict.lookup l fs₂ ≢ none → ¬ (init dir new_manager fs₂ ≡ done (m₂, fs₃))) r.0)
      (done-injective _ (locations, m₁, fs₂) (sym run ∙ ran')) each
