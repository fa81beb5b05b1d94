-- ===== src/Driver/Manager/Interleaving/Files.antt =====
-- Which entries of be/runtime/jdbc_driver_manager.cpp have one file, however calls interleave.
use mathlib.Core.Path.{subst}
use sr_scanner_demo.Base.{
  ℕ, some, List, ◌∷◌, All, All-get_elem?, All-set, ◌≡◌, refl, sym, ◌∙◌, Bytes, Lacks, get_elem?,
  done, done-injective, Bool-cases, inl, inr,
}
use sr_scanner_demo.Base.Int.{InInt64}
use sr_scanner_demo.Driver.FileName.{generate_driver_location}
use sr_scanner_demo.Driver.FileName.Injective.{generate_driver_location-injective}
use sr_scanner_demo.Driver.Manager.{
  Entry, Manager, set_entry, fresh_entry, Reserved, ready, pending, mark_downloaded,
  mark_for_deletion, download_driver,
}
use sr_scanner_demo.Driver.Manager.Location.{entry_at_here}
use sr_scanner_demo.Driver.Manager.Every.{Every, set_entry-Every, reserve-Every}
use sr_scanner_demo.Driver.Manager.Registry.{Call}
use sr_scanner_demo.Driver.Manager.Interleaving.{
  Thread, asking, holding, answered, Running, note, behind, Step, reserves, finishes, Steps, stay,
  step, Holds, IsSound,
}
use sr_scanner_demo.Driver.Manager.Interleaving.Soundness.{finish_lem, Step-IsSound}

-- An entry whose location is the one that `get_driver_location` generates.
pub record IsPlaced (dir : Bytes) (e : Entry) : Type 0 where
  pub located : e.location ≡ generate_driver_location dir e.name e.checksum e.first_access_ts
  pub plain : Lacks b'_' e.checksum
  pub timed : InInt64 e.first_access_ts

-- A call with a checksum that has no underscore, at a time that is an int64_t.
abbrev pub IsPlainCall : Call → Type 0
IsPlainCall c = Lacks b'_' c.checksum × InInt64 c.now

abbrev pub IsPlain : Thread → Type 0
IsPlain (asking c) = IsPlainCall c
IsPlain (holding url id) = Unit
IsPlain (answered location) = Unit

-- What every step keeps.
pub record ArePlaced (dir : Bytes) (s : Running) : Type 0 where
  pub every : Every (IsPlaced dir) s.manager
  pub here : s.manager.driver_dir ≡ dir
  pub calls : All IsPlain s.threads

pub mark-IsPlaced : (dir : Bytes) (e : Entry) → IsPlaced dir e → IsPlaced dir (mark_for_deletion e)
mark-IsPlaced dir e p = record { located = p.located; plain = p.plain; timed = p.timed }

pub downloaded-IsPlaced :
    (dir : Bytes) (e : Entry) → IsPlaced dir e → IsPlaced dir (mark_downloaded e)
downloaded-IsPlaced dir e p = record { located = p.located; plain = p.plain; timed = p.timed }

behind-IsPlain : (url : Bytes) (r : Reserved) → IsPlain (behind url r)
behind-IsPlain url (ready location) = tt
behind-IsPlain url (pending id) = tt

download_driver-Every :
    (dir url : Bytes) (id : ℕ) (e : Entry) (m m' : Manager) (log log' : List ℕ)
    → get_elem? m.heap id ≡ some e
    → download_driver (note id) url id m log ≡ done (m', log')
    → Every (IsPlaced dir) m
    → Every (IsPlaced dir) m' × (m'.driver_dir ≡ m.driver_dir)
unfolding download_driver
download_driver-Every dir url id e m m' log log' here h every =
    let Kept =
      λ (p : Manager × List ℕ). Every (IsPlaced dir) p.0 × (p.0.driver_dir ≡ m.driver_dir) in
    let h' = rw (entry_at_here id e m here, download_driver) at h in
    elim (Bool-cases e.is_downloaded) [
      | inl d ↦ subst Kept (done-injective (m, log) (m', log') (rw d at h')) (every, refl)
      | inr d ↦
          subst Kept
            (done-injective (set_entry id (mark_downloaded e) m, id ∷ log) (m', log') (rw d at h'))
            (
              set_entry-Every (IsPlaced dir) id e (mark_downloaded e) m here
                  (downloaded-IsPlaced dir e (every id e here)) every,
              refl,
            )
    ]

Step-ArePlaced :
    (dir : Bytes) (s t : Running) → Step s t → IsSound s → ArePlaced dir s → ArePlaced dir t
Step-ArePlaced dir _ _ (reserves i c r m m' threads log at_i h) s p =
    let (plain, timed) = All-get_elem? IsPlain threads i (asking c) p.calls at_i in
    let fresh : IsPlaced dir (fresh_entry dir c.name c.checksum c.now) = record {
      located = refl;
      plain = plain;
      timed = timed;
    } in
    let (every, here) =
      reserve-Every (IsPlaced dir) dir c.name c.checksum c.now fresh (mark-IsPlaced dir) m m' r h
        p.every p.here in
    record {
      every = every;
      here = here;
      calls = All-set IsPlain threads i (behind c.url r) (behind-IsPlain c.url r) p.calls;
    }
Step-ArePlaced dir _ _ (finishes i id url location m m' threads log log' at_i h) s p =
    let (e, here) = All-get_elem? (Holds m) threads i (holding url id) s.held at_i in
    let (downloaded, _, _) = finish_lem id url location e m m' log log' here h in
    let (every, same) = download_driver-Every dir url id e m m' log log' here downloaded p.every in
    record {
      every = every;
      here = same ∙ p.here;
      calls = All-set IsPlain threads i (answered location) tt p.calls;
    }

pub Steps-ArePlaced :
    (dir : Bytes) (s t : Running) → Steps s t → IsSound s → ArePlaced dir s → ArePlaced dir t
Steps-ArePlaced dir _ _ (stay s) sound p = p
Steps-ArePlaced dir _ _ (step s t u one more) sound p =
    Steps-ArePlaced dir t u more (Step-IsSound s t one sound) (Step-ArePlaced dir s t one sound p)

-- Two entries have one location only if they are of one driver, with one checksum, of one time.
abbrev pub AreApart : Manager → Type 0
AreApart m =
    (i j : ℕ) (e f : Entry)
    → get_elem? m.heap i ≡ some e
    → get_elem? m.heap j ≡ some f
    → e.location ≡ f.location
    → (e.name ≡ f.name) × (e.checksum ≡ f.checksum) × (e.first_access_ts ≡ f.first_access_ts)

-- However calls interleave that come with checksums without an underscore, at times that are int64_t: from
-- a sound state whose entries have generated locations of such checksums and times, every state that is
-- reached has one location for two entries only if they are of one name, one checksum and one time.
pub Steps-AreApart :
    (dir : Bytes) (s t : Running) → Steps s t → IsSound s → ArePlaced dir s → AreApart t.manager
Steps-AreApart dir s t run sound p i j e f at_i at_j same =
    let placed = Steps-ArePlaced dir s t run sound p in
    let pe = placed.every i e at_i in
    let pf = placed.every j f at_j in
    generate_driver_location-injective dir e.name f.name e.checksum f.checksum e.first_access_ts
      f.first_access_ts pe.plain pf.plain pe.timed pf.timed (sym pe.located ∙ same ∙ pf.located)
