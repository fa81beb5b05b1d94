-- ===== src/Driver/Manager/Registry.antt =====
-- What `get_driver_location` of be/runtime/jdbc_driver_manager.cpp promises: a registry of drivers, which
-- gives each name the location of the checksum that it was asked for last.
pub mod Refinement
pub mod Reserving
pub mod Locations
use mathlib.Core.Path.{fun_ext}
use sr_scanner_demo.Base.{
  ℕ, Option, none, some, List, [], ◌∷◌, ◌≡◌, refl, sym, ap, ◌∙◌, Bytes, length, get_elem?, set,
  bytes_eq, Bool-cases, Option-cases, inl, inr, ==_iff, ◌==◌, if◌then◌else◌,
}
use sr_scanner_demo.Base.Int.{ℤ}
use sr_scanner_demo.Base.Dict
use sr_scanner_demo.Base.Dict.{lookup-insert}
use sr_scanner_demo.Driver.FileName.{generate_driver_location}
use sr_scanner_demo.Driver.Manager.{Entry, Manager, set_entry, add_entry, Reserved, ready, pending}
use sr_scanner_demo.Driver.Manager.Invariant.{
  IsValid, get_elem?-set, get_elem?-last, get_elem?-init,
}

-- The checksum and the location of each name that is known.
abbrev pub Registry : Type 0
Registry = Bytes → Option (Bytes × Bytes)

abbrev pub register : Bytes → Bytes → Bytes → ℤ → Registry → Bytes × Registry
register dir name checksum now reg =
    let location = generate_driver_location dir name checksum now in
    (location, λ n. if bytes_eq name n then some (checksum, location) else reg n)

-- A name that is known with the checksum keeps its location; any other gets a new one.
abbrev pub locate : Bytes → Bytes → Bytes → ℤ → Registry → Bytes × Registry
locate dir name checksum now reg = elim (reg name) [
  | none ↦ register dir name checksum now reg
  | some (c, location) ↦
      if bytes_eq c checksum then (location, reg) else register dir name checksum now reg
]

-- A call of `get_driver_location`, and the time at which it comes.
pub record Call : Type 0 where
  pub name : Bytes
  pub url : Bytes
  pub checksum : Bytes
  pub now : ℤ

abbrev pub locate_all : Bytes → List Call → Registry → List Bytes × Registry
locate_all dir [] reg = ([], reg)
locate_all dir (c ∷ cs) reg =
    let (location, reg') = locate dir c.name c.checksum c.now reg in
    let (locations, reg'') = locate_all dir cs reg' in (location ∷ locations, reg'')

-- The registry that a manager stands for.
abbrev entry_view : Option Entry → Option (Bytes × Bytes)
entry_view none = none
entry_view (some e) = some (e.checksum, e.location)

abbrev id_view : Option ℕ → List Entry → Option (Bytes × Bytes)
id_view none heap = none
id_view (some id) heap = entry_view (get_elem? heap id)

abbrev pub view : Manager → Registry
view m name = id_view (Dict.lookup name m.entry_map) m.heap

pub set_entry-view :
    (id : ℕ) (old e : Entry) (m : Manager)
    → get_elem? m.heap id ≡ some old
    → e.checksum ≡ old.checksum
    → e.location ≡ old.location
    → view (set_entry id e m) ≡ view m
set_entry-view id old e m here c l = fun_ext λ name.
    elim (Option-cases (Dict.lookup name m.entry_map)) [
      | inl none_there ↦ rw none_there refl
      | inr (j, there) ↦ elim (Bool-cases (id == j)) [
        | inl same ↦
            let at_j = sym (ap (get_elem? m.heap) ((==_iff id j).0 same)) ∙ here in
            let now_e : get_elem? (set m.heap id e) j ≡ some e =
              get_elem?-set m.heap id j e old here ∙ rw same refl in
            rw there (rw (now_e, at_j) (rw (c, l) refl))
        | inr other ↦
            rw there (ap entry_view (get_elem?-set m.heap id j e old here ∙ rw other refl))
      ]
    ]

pub add_entry-view :
    (name : Bytes) (e : Entry) (m : Manager)
    → IsValid m
    → view (add_entry name e m)
      ≡ (λ n. if bytes_eq name n then some (e.checksum, e.location) else view m n)
add_entry-view name e m v = fun_ext λ n. elim (Bool-cases (bytes_eq name n)) [
  | inl same ↦
      rw (lookup-insert name n (length m.heap) m.entry_map, same, get_elem?-last m.heap e) refl
  | inr other ↦
      rw (lookup-insert name n (length m.heap) m.entry_map, other)
        (elim (Option-cases (Dict.lookup n m.entry_map)) [
          | inl none_there ↦ rw none_there refl
          | inr (j, there) ↦
              let (f, at_j, _) = v.bound n j there in
              rw there (rw (get_elem?-init m.heap e j f at_j, at_j) refl)
        ])
]

-- What the block under `_lock` leaves: the registry, and where the entry's location is read.
abbrev pub Located : Reserved → Manager → Bytes → Type 0
Located (ready l) m location = l ≡ location
Located (pending id) m location =
    (e : Entry) × (get_elem? m.heap id ≡ some e) × (e.location ≡ location)

abbrev pub Matches : Manager → Reserved → Manager → Bytes × Registry → Type 0
Matches m r m' p = Located r m' p.0 × (view m' ≡ p.1) × (m'.driver_dir ≡ m.driver_dir)
