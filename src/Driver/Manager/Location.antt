-- ===== src/Driver/Manager/Location.antt =====
-- `get_driver_location` of be/runtime/jdbc_driver_manager.cpp: what it returns and what it leaves in
-- the manager, whatever the download does.
use sr_scanner_demo.Base.{
  ℕ, true, false, some, ◌≡◌, refl, ◌∙◌, Bytes, length, get_elem?, bytes_eq, bytes_eq_iff,
  bytes_eq_refl, done, Bool-cases, Option-cases, inl, inr, get_elem?,
}
use sr_scanner_demo.Base.Int.{ℤ}
use sr_scanner_demo.Base.Dict
use sr_scanner_demo.Base.Dict.{lookup-insert}
use sr_scanner_demo.Driver.Manager.{
  Entry, Manager, set_entry, add_entry, entry_at, is_expected, fresh_entry, find_or_create,
  check_expected, reserve, Reserved, ready, pending, mark_for_deletion,
}
use sr_scanner_demo.Driver.Manager.Invariant.{
  IsValid, set_entry-IsValid, add_entry-IsValid, get_elem?-last,
}

-- The map leads from the name to an entry of that name and checksum.
pub record IsCurrent (name checksum : Bytes) (id : ℕ) (e : Entry) (m : Manager) : Type 0 where
  pub found : Dict.lookup name m.entry_map ≡ some id
  pub here : get_elem? m.heap id ≡ some e
  pub named : e.name ≡ name
  pub checked : e.checksum ≡ checksum

pub add_entry-IsCurrent :
    (e : Entry) (m : Manager) → IsCurrent e.name e.checksum (length m.heap) e (add_entry e.name e m)
add_entry-IsCurrent e m = record {
  found = lookup-insert e.name e.name (length m.heap) m.entry_map ∙ rw (bytes_eq_refl e.name);
  here = get_elem?-last m.heap e;
  named = refl;
  checked = refl;
}

-- What the block under `_lock` hands on.
abbrev pub Serves : Bytes → Bytes → Reserved → Manager → Type 0
Serves name checksum (ready location) m =
    (id : ℕ) × (e : Entry) × IsCurrent name checksum id e m
    × (e.is_available ≡ true)
    × (location ≡ e.location)
Serves name checksum (pending id) m = (e : Entry) × IsCurrent name checksum id e m

find_or_create_lem :
    (name checksum : Bytes) (now : ℤ) (m : Manager)
    → IsValid m
    → (m' : Manager) × (id : ℕ) × (e : Entry) × (find_or_create name checksum now m ≡ (m', id))
      × IsValid m'
      × IsCurrent name e.checksum id e m'
unfolding find_or_create
find_or_create_lem name checksum now m v = elim (Option-cases (Dict.lookup name m.entry_map)) [
  | inl e ↦
      let f = fresh_entry m.driver_dir name checksum now in
      (
        add_entry name f m,
        length m.heap,
        f,
        rw (e, find_or_create),
        add_entry-IsValid f m v refl,
        add_entry-IsCurrent f m,
      )
  | inr (id, e) ↦
      let (f, there, named) = v.bound name id e in
      (
        m,
        id,
        f,
        rw (e, find_or_create),
        v,
        record { found = e; here = there; named = named; checked = refl },
      )
]

is_expected_named :
    (e : Entry) (name checksum : Bytes)
    → e.name ≡ name
    → is_expected e name checksum ≡ bytes_eq e.checksum checksum
unfolding is_expected
is_expected_named e name checksum h = rw (h, bytes_eq_refl name, is_expected)

pub entry_at_here :
    (id : ℕ) (e : Entry) (m : Manager) → get_elem? m.heap id ≡ some e → entry_at id m ≡ done e
entry_at_here id e m h = rw (h, entry_at)

-- `check_expected` at an entry of the right name, for each of its three returns.
module _ (name checksum : Bytes) (now : ℤ) (id : ℕ) (e : Entry) (m : Manager)
    (c : IsCurrent name e.checksum id e m) where
  pub check_available :
      e.checksum ≡ checksum
      → e.is_available ≡ true
      → check_expected name checksum now id m ≡ done (m, ready e.location)
  unfolding check_expected
  check_available same a =
      rw (entry_at_here id e m c.here, check_expected)
        (rw (is_expected_named e name checksum c.named, (bytes_eq_iff _ _).1 same, a))

  pub check_waiting :
      e.checksum ≡ checksum
      → e.is_available ≡ false
      → check_expected name checksum now id m ≡ done (m, pending id)
  unfolding check_expected
  check_waiting same a =
      rw (entry_at_here id e m c.here, check_expected)
        (rw (is_expected_named e name checksum c.named, (bytes_eq_iff _ _).1 same, a))

  pub check_mismatch :
      bytes_eq e.checksum checksum ≡ false
      → let old = set_entry id (mark_for_deletion e) m in
        check_expected name checksum now id m
        ≡ done (
          add_entry name (fresh_entry m.driver_dir name checksum now) old,
          pending (length old.heap),
        )
  unfolding check_expected
  check_mismatch differ =
      rw (entry_at_here id e m c.here, check_expected)
        (rw (is_expected_named e name checksum c.named, differ))

-- What a block under `_lock` that came to `m'` and `r` leaves.
abbrev pub Reserves : Bytes → Bytes → Reserved → Manager → Type 0
Reserves name checksum r m = IsValid m × Serves name checksum r m

check_expected_lem :
    (name checksum : Bytes) (now : ℤ) (id : ℕ) (e : Entry) (m : Manager)
    → IsValid m
    → IsCurrent name e.checksum id e m
    → (m' : Manager) × (r : Reserved) × (check_expected name checksum now id m ≡ done (m', r))
      × Reserves name checksum r m'
check_expected_lem name checksum now id e m v c = elim (Bool-cases (bytes_eq e.checksum checksum)) [
  | inl eq ↦
      let same = (bytes_eq_iff e.checksum checksum).0 eq in
      let c' : IsCurrent name checksum id e m = record {
        found = c.found;
        here = c.here;
        named = c.named;
        checked = same;
      } in
      elim (Bool-cases e.is_available) [
        | inl a ↦ (
          m,
          ready e.location,
          check_available name checksum now id e m c same a,
          (v, (id, e, c', a, refl)),
        )
        | inr a ↦ (m, pending id, check_waiting name checksum now id e m c same a, (v, (e, c')))
      ]
  | inr differ ↦
      let old = set_entry id (mark_for_deletion e) m in
      let f = fresh_entry m.driver_dir name checksum now in
      (
        add_entry name f old,
        pending (length old.heap),
        check_mismatch name checksum now id e m c differ,
        (
          add_entry-IsValid f old
              (set_entry-IsValid id e (mark_for_deletion e) m v c.here refl
                (v.downloaded id e c.here))
              refl,
          (f, add_entry-IsCurrent f old),
        ),
      )
]

-- The block under `_lock` never faults on a valid manager.
pub reserve_lem :
    (name checksum : Bytes) (now : ℤ) (m : Manager)
    → IsValid m
    → (m' : Manager) × (r : Reserved) × (reserve name checksum now m ≡ done (m', r))
      × Reserves name checksum r m'
unfolding reserve
reserve_lem name checksum now m v =
    let (m₁, id, e, created, v₁, c) = find_or_create_lem name checksum now m v in
    let (m₂, r, checked, kept) = check_expected_lem name checksum now id e m₁ v₁ c in
    (m₂, r, rw (created, reserve) checked, kept)
