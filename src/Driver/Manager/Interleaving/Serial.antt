-- ===== src/Driver/Manager/Interleaving/Serial.antt =====
-- Interleaved calls of `get_driver_location` of be/runtime/jdbc_driver_manager.cpp as calls of the registry of
-- drivers that are atomic: a call acts in its block under `_lock`.
use mathlib.Core.Path.{subst}
use sr_scanner_demo.Base.{
  ℕ, zero, suc, Option, none, some, List, [], ◌∷◌, All, All-get_elem?, ◌≡◌, refl, sym, ap, ◌∙◌,
  Bytes, get_elem?, set, done, done-injective, Bool-cases, inl, inr,
}
use sr_scanner_demo.Driver.Manager.{
  Entry, Manager, set_entry, reserve, Reserved, ready, pending, mark_downloaded, download_driver,
}
use sr_scanner_demo.Driver.Manager.Location.{entry_at_here}
use sr_scanner_demo.Driver.Manager.Entries.{Keeps, reserve-Keeps}
use sr_scanner_demo.Driver.Manager.Registry.{
  Registry, Call, locate, Located, Matches, view, set_entry-view,
}
use sr_scanner_demo.Driver.Manager.Registry.Reserving.{reserve-Refines}
use sr_scanner_demo.Driver.Manager.Interleaving.{
  Thread, asking, holding, answered, Running, note, behind, Step, reserves, finishes, Steps, stay,
  step, Holds, IsSound,
}
use sr_scanner_demo.Driver.Manager.Interleaving.Soundness.{finish_lem, Step-IsSound}

-- A call as the one who makes it sees it.
pub data Client : Type 0 where
  asks : Call → Client
  got : Bytes → Client

pub record Served : Type 0 where
  pub registry : Registry
  pub clients : List Client

-- A call of the registry: it is made and answered in one.
pub data Atomic (dir : Bytes) : Served → Served → Type 0 where
  serves :
      (i : ℕ) (c : Call) (reg : Registry) (clients : List Client)
      → get_elem? clients i ≡ some (asks c)
      → Atomic dir
          (record { registry = reg; clients = clients })
          (record {
            registry = (locate dir c.name c.checksum c.now reg).1;
            clients = set clients i (got (locate dir c.name c.checksum c.now reg).0);
          })

pub data Atomics (dir : Bytes) : Served → Served → Type 0 where
  none_more : (s : Served) → Atomics dir s s
  one_more : (s t u : Served) → Atomic dir s t → Atomics dir t u → Atomics dir s u

abbrev location_of : Option Entry → Bytes
location_of none = []
location_of (some e) = e.location

-- Behind the block under `_lock` the answer of a call is fixed.
abbrev pub seen : Manager → Thread → Client
seen m (asking c) = asks c
seen m (holding url id) = got (location_of (get_elem? m.heap id))
seen m (answered location) = got location

abbrev pub all_seen : Manager → List Thread → List Client
all_seen m [] = []
all_seen m (t ∷ ts) = seen m t ∷ all_seen m ts

abbrev pub served : Running → Served
served s = record { registry = view s.manager; clients = all_seen s.manager s.threads }

all_seen-set :
    (m : Manager) (ts : List Thread) (i : ℕ) (t : Thread)
    → all_seen m (set ts i t) ≡ set (all_seen m ts) i (seen m t)
all_seen-set m [] i t = refl
all_seen-set m (u ∷ ts) zero t = refl
all_seen-set m (u ∷ ts) (suc i) t = ap (λ r. seen m u ∷ r) (all_seen-set m ts i t)

get_elem?-all_seen :
    (m : Manager) (ts : List Thread) (i : ℕ) (t : Thread)
    → get_elem? ts i ≡ some t
    → get_elem? (all_seen m ts) i ≡ some (seen m t)
get_elem?-all_seen m [] i t h = cc
get_elem?-all_seen m (u ∷ ts) zero t h = cc h
get_elem?-all_seen m (u ∷ ts) (suc i) t h = get_elem?-all_seen m ts i t h

set_same : (cs : List Client) (i : ℕ) (c : Client) → get_elem? cs i ≡ some c → set cs i c ≡ cs
set_same [] i c h = refl
set_same (d ∷ cs) zero c h = cc h
set_same (d ∷ cs) (suc i) c h = ap (λ r. d ∷ r) (set_same cs i c h)

seen-Keeps : (m m' : Manager) (t : Thread) → Keeps m m' → Holds m t → seen m' t ≡ seen m t
seen-Keeps m m' (asking c) k h = refl
seen-Keeps m m' (holding url id) k (e, here) =
    let (e', here', same, _) = k id e here in ap got (rw (here', here) same)
seen-Keeps m m' (answered location) k h = refl

all_seen-Keeps :
    (m m' : Manager) (ts : List Thread)
    → Keeps m m'
    → All (Holds m) ts
    → all_seen m' ts ≡ all_seen m ts
all_seen-Keeps m m' [] k h = refl
all_seen-Keeps m m' (t ∷ ts) k (h, hs) =
    λ j. seen-Keeps m m' t k h j ∷ all_seen-Keeps m m' ts k hs j

Atomics-trans : (dir : Bytes) (s t u : Served) → Atomics dir s t → Atomics dir t u → Atomics dir s u
Atomics-trans dir _ _ u (none_more s) more = more
Atomics-trans dir _ _ u (one_more s t v one rest) more =
    one_more s t u one (Atomics-trans dir t v u rest more)

-- A download is not seen.
download_driver-served :
    (url : Bytes) (id : ℕ) (e : Entry) (m m' : Manager) (log log' : List ℕ)
    → get_elem? m.heap id ≡ some e
    → download_driver (note id) url id m log ≡ done (m', log')
    → (view m' ≡ view m) × (m'.driver_dir ≡ m.driver_dir)
unfolding download_driver
download_driver-served url id e m m' log log' here h =
    let Same = λ (p : Manager × List ℕ). (view p.0 ≡ view m) × (p.0.driver_dir ≡ m.driver_dir) in
    let h' = rw (entry_at_here id e m here, download_driver) at h in
    elim (Bool-cases e.is_downloaded) [
      | inl d ↦ subst Same (done-injective (m, log) (m', log') (rw d at h')) (refl, refl)
      | inr d ↦
          subst Same
            (done-injective (set_entry id (mark_downloaded e) m, id ∷ log) (m', log') (rw d at h'))
            (set_entry-view id e (mark_downloaded e) m here refl refl, refl)
    ]

-- What a step does, as it is seen.
abbrev Acts : Running → Running → Type 0
Acts s t =
    Atomics s.manager.driver_dir (served s) (served t)
    × (t.manager.driver_dir ≡ s.manager.driver_dir)

seen-behind :
    (url : Bytes) (r : Reserved) (m : Manager) (l : Bytes)
    → Located r m l
    → seen m (behind url r) ≡ got l
seen-behind url (ready location) m l h = ap got h
seen-behind url (pending id) m l (e, here, at) = ap got (rw here at)

reserves-Acts :
    (i : ℕ) (c : Call) (r : Reserved) (m m' : Manager) (threads : List Thread) (log : List ℕ)
    → get_elem? threads i ≡ some (asking c)
    → reserve c.name c.checksum c.now m ≡ done (m', r)
    → IsSound (record { manager = m; threads = threads; log = log })
    → Acts
        (record { manager = m; threads = threads; log = log })
        (record { manager = m'; threads = set threads i (behind c.url r); log = log })
reserves-Acts i c r m m' threads log at_i h s =
    let p = locate m.driver_dir c.name c.checksum c.now (view m) in
    let (m₁, r₁, reserved, matches) = reserve-Refines c.name c.checksum c.now m s.valid in
    let here : Matches m r m' p =
      subst (λ x. Matches m x.1 x.0 p) (done-injective (m₁, r₁) (m', r) (sym reserved ∙ h))
        matches in
    let kept = all_seen-Keeps m m' threads (reserve-Keeps c.name c.checksum c.now m m' h) s.held in
    let clients : set (all_seen m threads) i (got p.0)
        ≡ all_seen m' (set threads i (behind c.url r)) =
      (λ j. set (sym kept j) i (sym (seen-behind c.url r m' p.0 here.0) j))
      ∙ sym (all_seen-set m' threads i (behind c.url r)) in
    (
      subst (Atomics m.driver_dir (record { registry = view m; clients = all_seen m threads }))
          (λ j. record { registry = sym here.1 j; clients = clients j })
          (one_more _ _ _
            (serves i c (view m) (all_seen m threads)
              (get_elem?-all_seen m threads i (asking c) at_i))
            (none_more _)),
      here.2,
    )

finishes-Acts :
    (i id : ℕ) (url location : Bytes) (e : Entry) (m m' : Manager) (threads : List Thread)
    (log log' : List ℕ)
    → get_elem? threads i ≡ some (holding url id)
    → get_elem? m.heap id ≡ some e
    → download_driver (note id) url id m log ≡ done (m', log')
    → Keeps m m'
    → location ≡ e.location
    → All (Holds m) threads
    → Acts
        (record { manager = m; threads = threads; log = log })
        (record { manager = m'; threads = set threads i (answered location); log = log' })
finishes-Acts i id url location e m m' threads log log' at_i here downloaded k same held =
    let (registry, dir) = download_driver-served url id e m m' log log' here downloaded in
    let there : get_elem? (all_seen m threads) i ≡ some (got location) =
      get_elem?-all_seen m threads i (holding url id) at_i
      ∙ ap (λ l. some (got l)) (rw here (sym same)) in
    let clients : all_seen m' (set threads i (answered location)) ≡ all_seen m threads =
      all_seen-set m' threads i (answered location)
      ∙ ap (λ cs. set cs i (got location)) (all_seen-Keeps m m' threads k held)
      ∙ set_same (all_seen m threads) i (got location) there in
    (
      subst (Atomics m.driver_dir (record { registry = view m; clients = all_seen m threads }))
          (λ j. record { registry = sym registry j; clients = sym clients j }) (none_more _),
      dir,
    )

Step-Acts : (s t : Running) → Step s t → IsSound s → Acts s t
Step-Acts _ _ (reserves i c r m m' threads log at_i h) s =
    reserves-Acts i c r m m' threads log at_i h s
Step-Acts _ _ (finishes i id url location m m' threads log log' at_i h) s =
    let (e, here) = All-get_elem? (Holds m) threads i (holding url id) s.held at_i in
    let (downloaded, k, same) = finish_lem id url location e m m' log log' here h in
    finishes-Acts i id url location e m m' threads log log' at_i here downloaded k same s.held

Steps-Acts : (s t : Running) → Steps s t → IsSound s → Acts s t
Steps-Acts _ _ (stay s) sound = (none_more (served s), refl)
Steps-Acts _ _ (step s t u one more) sound =
    let (acts, dir) = Step-Acts s t one sound in
    let (acts', dir') = Steps-Acts t u more (Step-IsSound s t one sound) in
    (
      Atomics-trans s.manager.driver_dir (served s) (served t) (served u) acts
          (subst (λ d. Atomics d (served t) (served u)) dir acts'),
      dir' ∙ dir,
    )

-- However calls interleave, from a sound state the registry and the answers of the state that is reached
-- are those of a run of atomic calls of the registry: a call that has returned has its answer from its
-- call of the registry, and a call behind the block under `_lock` will have the answer of its own.
pub Steps-Atomics :
    (s t : Running) → Steps s t → IsSound s → Atomics s.manager.driver_dir (served s) (served t)
Steps-Atomics s t run sound = (Steps-Acts s t run sound).0
