-- ===== src/Driver/Manager/Registry/Reserving.antt =====
-- The block of `get_driver_location` of be/runtime/jdbc_driver_manager.cpp under `_lock` does to the registry
-- what a call does.
use mathlib.Core.Path.{subst}
use sr_scanner_demo.Base.{
  ℕ, Bool, true, false, none, some, ◌≡◌, refl, sym, ap, ◌∙◌, Bytes, done, length, bytes_eq,
  bytes_eq_iff, Bool-cases, Option-cases, inl, inr, if◌then◌else◌,
}
use sr_scanner_demo.Base.Int.{ℤ}
use sr_scanner_demo.Base.Dict
use sr_scanner_demo.Driver.Manager.{
  Entry, Manager, set_entry, add_entry, fresh_entry, find_or_create, reserve, Reserved, ready,
  pending, mark_for_deletion,
}
use sr_scanner_demo.Driver.Manager.Invariant.{IsValid, set_entry-IsValid, get_elem?-last}
use sr_scanner_demo.Driver.Manager.Location.{
  IsCurrent, add_entry-IsCurrent, check_available, check_waiting, check_mismatch,
}
use sr_scanner_demo.Driver.Manager.Registry.{
  Registry, register, locate, view, Matches, set_entry-view, add_entry-view,
}

-- The block under `_lock` does what the registry does.
abbrev Refines : Bytes → Bytes → ℤ → Manager → Type 0
Refines name checksum now m =
    (m' : Manager) × (r : Reserved) × (reserve name checksum now m ≡ done (m', r))
    × Matches m r m' (locate m.driver_dir name checksum now (view m))

pub locate_new :
    (dir name checksum : Bytes) (now : ℤ) (reg : Registry)
    → reg name ≡ none
    → locate dir name checksum now reg ≡ register dir name checksum now reg
locate_new dir name checksum now reg h = rw (h, locate) refl

pub locate_known :
    (dir name checksum : Bytes) (now : ℤ) (reg : Registry) (c l : Bytes) (b : Bool)
    → reg name ≡ some (c, l)
    → bytes_eq c checksum ≡ b
    → locate dir name checksum now reg
      ≡ (if b then (l, reg) else register dir name checksum now reg)
locate_known dir name checksum now reg c l b h e = rw (h, locate) (rw e refl)

reserve_new :
    (name checksum : Bytes) (now : ℤ) (m : Manager)
    → IsValid m
    → Dict.lookup name m.entry_map ≡ none
    → Refines name checksum now m
unfolding reserve find_or_create
reserve_new name checksum now m v new =
    let f = fresh_entry m.driver_dir name checksum now in
    let m' = add_entry name f m in
    (
      m',
      pending (length m.heap),
      rw (new, reserve, find_or_create)
          (check_waiting name checksum now (length m.heap) f m' (add_entry-IsCurrent f m) refl
            refl),
      subst (Matches m (pending (length m.heap)) m')
          (sym (locate_new m.driver_dir name checksum now (view m) (rw new refl)))
          ((f, get_elem?-last m.heap f, refl), add_entry-view name f m v, refl),
    )

view_current :
    (name : Bytes) (id : ℕ) (e : Entry) (m : Manager)
    → IsCurrent name e.checksum id e m
    → view m name ≡ some (e.checksum, e.location)
view_current name id e m c = rw c.found (rw c.here refl)

reserve_other :
    (name checksum : Bytes) (now : ℤ) (m : Manager) (id : ℕ) (e : Entry)
    → IsValid m
    → IsCurrent name e.checksum id e m
    → bytes_eq e.checksum checksum ≡ false
    → Refines name checksum now m
unfolding reserve find_or_create
reserve_other name checksum now m id e v c differ =
    let old = set_entry id (mark_for_deletion e) m in
    let f = fresh_entry m.driver_dir name checksum now in
    let m' = add_entry name f old in
    let r = pending (length old.heap) in
    let v' =
      set_entry-IsValid id e (mark_for_deletion e) m v c.here refl (v.downloaded id e c.here) in
    let same = set_entry-view id e (mark_for_deletion e) m c.here refl refl in
    (
      m',
      r,
      rw (c.found, reserve, find_or_create) (check_mismatch name checksum now id e m c differ),
      subst (Matches m r m')
          (sym (
            locate_known m.driver_dir name checksum now (view m) e.checksum e.location false
              (view_current name id e m c) differ))
          (
            (f, get_elem?-last old.heap f, refl),
            add_entry-view name f old v'
                ∙ ap (λ reg n. if bytes_eq name n then some (checksum, f.location) else reg n) same,
            refl,
          ),
    )

reserve_known :
    (name checksum : Bytes) (now : ℤ) (m : Manager) (id : ℕ) (e : Entry)
    → IsValid m
    → IsCurrent name e.checksum id e m
    → bytes_eq e.checksum checksum ≡ true
    → Refines name checksum now m
unfolding reserve find_or_create
reserve_known name checksum now m id e v c eq =
    let same = (bytes_eq_iff e.checksum checksum).0 eq in
    let spec = sym (
      locate_known m.driver_dir name checksum now (view m) e.checksum e.location true
        (view_current name id e m c) eq) in
    elim (Bool-cases e.is_available) [
      | inl a ↦ (
        m,
        ready e.location,
        rw (c.found, reserve, find_or_create) (check_available name checksum now id e m c same a),
        subst (Matches m (ready e.location) m) spec (refl, refl, refl),
      )
      | inr a ↦ (
        m,
        pending id,
        rw (c.found, reserve, find_or_create) (check_waiting name checksum now id e m c same a),
        subst (Matches m (pending id) m) spec ((e, c.here, refl), refl, refl),
      )
    ]

pub reserve-Refines :
    (name checksum : Bytes) (now : ℤ) (m : Manager) → IsValid m → Refines name checksum now m
reserve-Refines name checksum now m v = elim (Option-cases (Dict.lookup name m.entry_map)) [
  | inl new ↦ reserve_new name checksum now m v new
  | inr (id, found) ↦
      let (e, here, named) = v.bound name id found in
      let c : IsCurrent name e.checksum id e m = record {
        found = found;
        here = here;
        named = named;
        checked = refl;
      } in
      elim (Bool-cases (bytes_eq e.checksum checksum)) [
        | inl eq ↦ reserve_known name checksum now m id e v c eq
        | inr differ ↦ reserve_other name checksum now m id e v c differ
      ]
]
