-- ===== src/Driver/Started.antt =====
-- The driver manager of be/runtime/jdbc_driver_manager.cpp from its start: `init`, then calls of
-- `get_driver_location` that run at the same time.
use mathlib.Core.Path.{subst}
use sr_scanner_demo.Base.{
  Option, none, some, List, [], ◌∷◌, All, ◌≡◌, refl, sym, ap, ◌∙◌, Bytes, get_elem?, done,
}
use sr_scanner_demo.Base.Dict
use sr_scanner_demo.Fs.{Fs, entries}
use sr_scanner_demo.Driver.Manager.{Manager, init, load_files}
use sr_scanner_demo.Driver.Manager.Loading.{Loads, skipped, replaced, load_file-Loads}
use sr_scanner_demo.Driver.Manager.Startup.{load_files-step, load_files-nil}
use sr_scanner_demo.Driver.Manager.Restart.{init-loads}
use sr_scanner_demo.Driver.Manager.Registry.{Call, Registry}
use sr_scanner_demo.Driver.Manager.Interleaving.{Thread, asking, Running, Steps, Holds, IsSound}
use sr_scanner_demo.Driver.Manager.Interleaving.Soundness.{Steps-IsSound}
use sr_scanner_demo.Driver.Manager.Interleaving.Serial.{
  Client, asks, Atomics, all_seen, served, Steps-Atomics,
}
use sr_scanner_demo.Driver.Manager.Interleaving.Files.{
  IsPlain, IsPlainCall, ArePlaced, AreApart, Steps-AreApart,
}

-- `JDBCDriverManager()`
abbrev pub new_manager : Manager
new_manager = record { driver_dir = []; entry_map = []; heap = [] }

-- `getInstance`, of the static pointer, which is null at first: the manager, and the pointer.
abbrev pub get_instance : Option Manager → Manager × Option Manager
get_instance none = (new_manager, some new_manager)
get_instance (some m) = (m, some m)

-- `~JDBCDriverManager()`
abbrev pub destroy_manager : Manager → Manager
destroy_manager m = record m { entry_map = [] }

Loads_empty :
    (file : Bytes) (m m' : Manager) (fs fs' : Fs) → m.heap ≡ [] → Loads file m fs m' fs' → m' ≡ m
Loads_empty file m _ fs _ h (skipped t j) = refl
Loads_empty file m _ fs _ h (replaced name checksum ts id old t parsed e here newer) =
    absurd (let q = sym here ∙ ap (λ l. get_elem? l id) h in cc q)

load_files_empty :
    (files : List Bytes) (m m' : Manager) (fs fs' : Fs)
    → m.heap ≡ []
    → load_files files m fs ≡ done (m', fs')
    → m' ≡ m
load_files_empty [] m m' fs fs' empty h = sym (ap (λ p. p.0) (load_files-nil m m' fs fs' h))
load_files_empty (file ∷ files) m m' fs fs' empty h =
    let (m₁, fs₁, e, rest) = load_files-step file files m m' fs fs' h in
    let same = Loads_empty file m m₁ fs fs₁ empty (load_file-Loads file m m₁ fs fs₁ e) in
    load_files_empty files m₁ m' fs₁ fs' (ap (λ x. x.heap) same ∙ empty) rest ∙ same

-- From the start `init` makes no entry, whatever is in the directory.
pub init_new :
    (dir : Bytes) (m : Manager) (fs fs' : Fs)
    → init dir new_manager fs ≡ done (m, fs')
    → m ≡ record new_manager { driver_dir = dir }
init_new dir m fs fs' h =
    let (fs₁, _, loaded) = init-loads dir new_manager m fs fs' h in
    load_files_empty (entries dir fs₁) (record new_manager { driver_dir = dir }) m fs₁ fs' refl
      loaded

abbrev pub ask_all : List Call → List Thread
ask_all [] = []
ask_all (c ∷ cs) = asking c ∷ ask_all cs

abbrev pub asks_all : List Call → List Client
asks_all [] = []
asks_all (c ∷ cs) = asks c ∷ asks_all cs

ask_all-seen : (m : Manager) (cs : List Call) → all_seen m (ask_all cs) ≡ asks_all cs
ask_all-seen m [] = refl
ask_all-seen m (c ∷ cs) = ap (λ r. asks c ∷ r) (ask_all-seen m cs)

ask_all-Holds : (m : Manager) (cs : List Call) → All (Holds m) (ask_all cs)
ask_all-Holds m [] = tt
ask_all-Holds m (c ∷ cs) = (tt, ask_all-Holds m cs)

ask_all-IsPlain : (cs : List Call) → All IsPlainCall cs → All IsPlain (ask_all cs)
ask_all-IsPlain [] h = tt
ask_all-IsPlain (c ∷ cs) (h, hs) = (h, ask_all-IsPlain cs hs)

-- The calls before their first step.
abbrev pub begin : Manager → List Call → Running
begin m cs = record { manager = m; threads = ask_all cs; log = [] }

abbrev pub no_drivers : Registry
no_drivers name = none

module _ (dir : Bytes) (cs : List Call) where
  abbrev empty : Manager
  empty = record new_manager { driver_dir = dir }

  empty-IsSound : IsSound (begin empty cs)
  unfolding Dict.lookup
  empty-IsSound = record {
    valid = record { bound = λ name id h. cc; downloaded = λ id e h. cc };
    held = ask_all-Holds empty cs;
    logged = tt;
    once = tt;
  }

  empty-ArePlaced : All IsPlainCall cs → ArePlaced dir (begin empty cs)
  empty-ArePlaced plain = record {
    every = λ id e h. cc;
    here = refl;
    calls = ask_all-IsPlain cs plain;
  }

  empty-Atomics :
      (t : Running)
      → Steps (begin empty cs) t
      → Atomics dir (record { registry = no_drivers; clients = asks_all cs }) (served t)
  unfolding Dict.lookup
  empty-Atomics t run =
      subst
        (λ clients. Atomics dir (record { registry = no_drivers; clients = clients }) (served t))
        (ask_all-seen empty cs) (Steps-Atomics (begin empty cs) t run empty-IsSound)

-- After an `init` of a new manager that returns, whatever is on the disk: however calls interleave, each
-- entry is downloaded at most once and the state is sound; the answers are those of atomic calls of
-- a registry that knows no driver at first; and if checksums have no underscore and times are int64_t,
-- two entries have one location only if they are of one name, one checksum and one time.
pub init_then_calls :
    (dir : Bytes) (m : Manager) (fs fs' : Fs) (cs : List Call) (t : Running)
    → init dir new_manager fs ≡ done (m, fs')
    → Steps (begin m cs) t
    → IsSound t
      × Atomics dir (record { registry = no_drivers; clients = asks_all cs }) (served t)
      × (All IsPlainCall cs → AreApart t.manager)
init_then_calls dir m fs fs' cs t h run =
    let run' = subst (λ x. Steps (begin x cs) t) (init_new dir m fs fs' h) run in
    (
      Steps-IsSound (begin (empty dir cs) cs) t run' (empty-IsSound dir cs),
      empty-Atomics dir cs t run',
      λ plain.
          Steps-AreApart dir (begin (empty dir cs) cs) t run' (empty-IsSound dir cs)
            (empty-ArePlaced dir cs plain),
    )
