-- ===== src/Driver/Manager/Interleaving/Soundness.antt =====
-- What holds between the steps of interleaved calls of `get_driver_location` of
-- be/runtime/jdbc_driver_manager.cpp.
use mathlib.Core.Path.{subst}
use mathlib.Core.Option.{some-injective}
use sr_scanner_demo.Base.{
  ℕ, false, some, List, ◌∷◌, All, All-map, All-set, All-get_elem?, ◌≡◌, refl, sym, ap, ◌∙◌, Bytes,
  get_elem?, set, done, done-injective, Bool-cases, inl, inr, ==_iff, ◌==◌,
}
use sr_scanner_demo.Base.Int.{ℤ}
use sr_scanner_demo.Status.{ok_status}
use sr_scanner_demo.Driver.Manager.{
  Entry, Manager, set_entry, reserve, Reserved, ready, pending, mark_downloaded, download_driver,
  finish,
}
use sr_scanner_demo.Driver.Manager.Invariant.{set_entry-IsValid, get_elem?-set}
use sr_scanner_demo.Driver.Manager.Entries.{Keeps, Keeps-refl, reserve-Keeps, downloaded-Keeps}
use sr_scanner_demo.Driver.Manager.Location.{reserve_lem, Reserves, entry_at_here}
use sr_scanner_demo.Driver.Manager.Interleaving.{
  Thread, asking, holding, answered, Running, note, behind, Step, reserves, finishes, Steps, stay,
  step, Holds, IsLogged, IsSound,
}

keep-Holds :
    (m m' : Manager) (threads : List Thread)
    → Keeps m m'
    → All (Holds m) threads
    → All (Holds m') threads
keep-Holds m m' threads k = All-map threads kept
  where
    kept : (t : Thread) → Holds m t → Holds m' t
    kept (asking c) h = tt
    kept (holding url id) (e, h) = let (e', h', _, _) = k id e h in (e', h')
    kept (answered location) h = tt

keep-IsLogged :
    (m m' : Manager) (ids : List ℕ) → Keeps m m' → All (IsLogged m) ids → All (IsLogged m') ids
keep-IsLogged m m' ids k =
    All-map ids (λ id (e, h, d). let (e', h', _, same) = k id e h in (e', h', same d))

-- What a step under `_lock` leaves to the calls that run.
reserve-IsSound :
    (name checksum : Bytes) (now : ℤ) (m m' : Manager) (r : Reserved) (threads : List Thread)
    (log : List ℕ)
    → reserve name checksum now m ≡ done (m', r)
    → IsSound (record { manager = m; threads = threads; log = log })
    → Reserves name checksum r m' × IsSound (record { manager = m'; threads = threads; log = log })
reserve-IsSound name checksum now m m' r threads log h s =
    let (m₁, r₁, reserved, kept) = reserve_lem name checksum now m s.valid in
    let kept' : Reserves name checksum r m' =
      subst (λ p. Reserves name checksum p.1 p.0)
        (done-injective (m₁, r₁) (m', r) (sym reserved ∙ h)) kept in
    let k = reserve-Keeps name checksum now m m' h in
    (
      kept',
      record {
        valid = kept'.0;
        held = keep-Holds m m' threads k s.held;
        logged = keep-IsLogged m m' log k s.logged;
        once = s.once;
      },
    )

-- An entry whose download was run is downloaded, so no other entry is new to the log.
not_logged :
    (m : Manager) (id : ℕ) (e : Entry) (log : List ℕ)
    → get_elem? m.heap id ≡ some e
    → e.is_downloaded ≡ false
    → All (IsLogged m) log
    → All (λ j. (j == id) ≡ false) log
not_logged m id e log here new = All-map log (λ j (f, there, d). elim (Bool-cases (j == id)) [
  | inl same ↦ absurd (
      let q : some f ≡ some e = sym there ∙ ap (get_elem? m.heap) ((==_iff j id).0 same) ∙ here in
      let same_flag = ap (λ x. x.is_downloaded) (some-injective f e q) in cc (same_flag, d, new))
  | inr other ↦ other
])

download_driver-IsSound :
    (url : Bytes) (id : ℕ) (e : Entry) (m m' : Manager) (threads : List Thread) (log log' : List ℕ)
    → get_elem? m.heap id ≡ some e
    → download_driver (note id) url id m log ≡ done (m', log')
    → IsSound (record { manager = m; threads = threads; log = log })
    → IsSound (record { manager = m'; threads = threads; log = log' })
unfolding download_driver
download_driver-IsSound url id e m m' threads log log' here h s =
    let Sound =
      λ (p : Manager × List ℕ). IsSound (record { manager = p.0; threads = threads; log = p.1 }) in
    let h' = rw (entry_at_here id e m here, download_driver) at h in
    elim (Bool-cases e.is_downloaded) [
      | inl d ↦ subst Sound (done-injective (m, log) (m', log') (rw d at h')) s
      | inr d ↦
          let n = set_entry id (mark_downloaded e) m in
          let k = downloaded-Keeps id e m here in
          subst Sound (done-injective (n, id ∷ log) (m', log') (rw d at h')) (record {
            valid = set_entry-IsValid id e (mark_downloaded e) m s.valid here refl refl;
            held = keep-Holds m n threads k s.held;
            logged = (
              (
                mark_downloaded e,
                get_elem?-set m.heap id id (mark_downloaded e) e here ∙ rw ((==_iff id id).1 refl),
                refl,
              ),
              keep-IsLogged m n log k s.logged,
            );
            once = (not_logged m id e log here d s.logged, s.once);
          })
    ]

-- Once the download step is done, `finish` only reads the entry's location.
pub finish_behind :
    (id : ℕ) (url location : Bytes) (e : Entry) (m n m' : Manager) (log log₁ log' : List ℕ)
    → download_driver (note id) url id m log ≡ done (n, log₁)
    → get_elem? n.heap id ≡ some e
    → finish (note id) url (pending id) m log ≡ done (ok_status, location, m', log')
    → ◌≡◌ {A = Bytes × Manager × List ℕ} (e.location, n, log₁) (location, m', log')
unfolding finish
finish_behind id url location e m n m' log log₁ log' downloaded here h =
    ap (λ r. (r.1, r.2, r.3))
      (done-injective (ok_status, e.location, n, log₁) (ok_status, location, m', log')
        (rw (entry_at_here id e n here) at (rw (downloaded, finish) at h)))

-- A call's last step is a download step, and its answer is the location of the entry.
pub finish_lem :
    (id : ℕ) (url location : Bytes) (e : Entry) (m m' : Manager) (log log' : List ℕ)
    → get_elem? m.heap id ≡ some e
    → finish (note id) url (pending id) m log ≡ done (ok_status, location, m', log')
    → (download_driver (note id) url id m log ≡ done (m', log'))
      × Keeps m m'
      × (location ≡ e.location)
unfolding download_driver
finish_lem id url location e m m' log log' here h =
    let Left = λ (p : Bytes × Manager × List ℕ).
      (download_driver (note id) url id m log ≡ done (p.1, p.2))
      × Keeps m p.1
      × (p.0 ≡ e.location) in
    let at_entry = entry_at_here id e m here in
    elim (Bool-cases e.is_downloaded) [
      | inl d ↦
          let downloaded : download_driver (note id) url id m log ≡ done (m, log) =
            rw (at_entry, download_driver) (rw d refl) in
          subst Left (finish_behind id url location e m m m' log log log' downloaded here h)
            (downloaded, Keeps-refl m, refl)
      | inr d ↦
          let n = set_entry id (mark_downloaded e) m in
          let downloaded : download_driver (note id) url id m log ≡ done (n, id ∷ log) =
            rw (at_entry, download_driver) (rw d refl) in
          let there =
            get_elem?-set m.heap id id (mark_downloaded e) e here
            ∙ rw ((==_iff id id).1 refl) refl in
          subst Left
            (finish_behind id url location (mark_downloaded e) m n m' log (id ∷ log) log' downloaded
              there h)
            (downloaded, downloaded-Keeps id e m here, refl)
    ]

behind-Holds :
    (name checksum url : Bytes) (r : Reserved) (m : Manager)
    → Reserves name checksum r m
    → Holds m (behind url r)
behind-Holds name checksum url (ready location) m kept = tt
behind-Holds name checksum url (pending id) m (valid, (e, current)) = (e, current.here)

set_thread :
    (i : ℕ) (t : Thread) (s : Running)
    → Holds s.manager t
    → IsSound s
    → IsSound (record s { threads = set s.threads i t })
set_thread i t s h sound = record {
  valid = sound.valid;
  held = All-set (Holds s.manager) s.threads i t h sound.held;
  logged = sound.logged;
  once = sound.once;
}

pub Step-IsSound : (s t : Running) → Step s t → IsSound s → IsSound t
Step-IsSound _ _ (reserves i c r m m' threads log at_i h) s =
    let (kept, sound) = reserve-IsSound c.name c.checksum c.now m m' r threads log h s in
    set_thread i (behind c.url r) (record { manager = m'; threads = threads; log = log })
      (behind-Holds c.name c.checksum c.url r m' kept) sound
Step-IsSound _ _ (finishes i id url location m m' threads log log' at_i h) s =
    let (e, here) = All-get_elem? (Holds m) threads i (holding url id) s.held at_i in
    let (downloaded, _, _) = finish_lem id url location e m m' log log' here h in
    set_thread i (answered location) (record { manager = m'; threads = threads; log = log' }) tt
      (download_driver-IsSound url id e m m' threads log log' here downloaded s)

-- However calls interleave, from a sound state every state that is reached is sound: the manager is
-- valid, every call behind the block under `_lock` has its entry, each entry in the log is downloaded,
-- and none is in the log twice.
pub Steps-IsSound : (s t : Running) → Steps s t → IsSound s → IsSound t
Steps-IsSound _ _ (stay s) h = h
Steps-IsSound _ _ (step s t u one more) h = Steps-IsSound t u more (Step-IsSound s t one h)
