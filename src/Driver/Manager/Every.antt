-- ===== src/Driver/Manager/Every.antt =====
-- A property of every entry in be/runtime/jdbc_driver_manager.cpp, and what keeps it.
use mathlib.Core.Path.{subst}
use mathlib.Core.Option.{some-injective}
use sr_scanner_demo.Base.{
  ℕ, some, ◌≡◌, sym, ap, ◌∙◌, Bytes, length, get_elem?, done, done-injective, Bool-cases,
  Option-cases, inl, inr, ◌==◌,
}
use sr_scanner_demo.Base.Int.{ℤ}
use sr_scanner_demo.Base.Dict
use sr_scanner_demo.Driver.Manager.{
  Entry, Manager, set_entry, add_entry, entry_at, is_expected, fresh_entry, find_or_create,
  check_expected, reserve, Reserved, mark_for_deletion,
}
use sr_scanner_demo.Driver.Manager.Invariant.{get_elem?-set, get_elem?-concat}
use sr_scanner_demo.Driver.Manager.Location.{entry_at_here}

abbrev pub Every : (Entry → Type 0) → Manager → Type 0
Every P m = (id : ℕ) (e : Entry) → get_elem? m.heap id ≡ some e → P e

module _ (P : Entry → Type 0) where
  pub set_entry-Every :
      (id : ℕ) (old e : Entry) (m : Manager)
      → get_elem? m.heap id ≡ some old
      → P e
      → Every P m
      → Every P (set_entry id e m)
  set_entry-Every id old e m here p every j f h = elim (Bool-cases (id == j)) [
    | inl same ↦
        subst P (some-injective e f (sym (rw same at (get_elem?-set m.heap id j e old here)) ∙ h)) p
    | inr other ↦ every j f (sym (rw other at (get_elem?-set m.heap id j e old here)) ∙ h)
  ]

  pub add_entry-Every :
      (name : Bytes) (e : Entry) (m : Manager) → P e → Every P m → Every P (add_entry name e m)
  add_entry-Every name e m p every j f h = elim (Bool-cases (length m.heap == j)) [
    | inl same ↦ subst P (some-injective e f (sym (rw same at (get_elem?-concat m.heap e j)) ∙ h)) p
    | inr other ↦ every j f (sym (rw other at (get_elem?-concat m.heap e j)) ∙ h)
  ]

  -- What a call may make of the entries, in the directory `dir`.
  module _ (dir name checksum : Bytes) (now : ℤ) (fresh : P (fresh_entry dir name checksum now))
      (marks : (e : Entry) → P e → P (mark_for_deletion e)) where
    abbrev KeepsEvery : Manager → Type 0
    KeepsEvery m = Every P m × (m.driver_dir ≡ dir)

    fresh_in : (m : Manager) → m.driver_dir ≡ dir → P (fresh_entry m.driver_dir name checksum now)
    fresh_in m d = subst (λ x. P (fresh_entry x name checksum now)) (sym d) fresh

    find_or_create-Every :
        (m : Manager) → KeepsEvery m → KeepsEvery (find_or_create name checksum now m).0
    unfolding find_or_create
    find_or_create-Every m (every, d) = elim (Option-cases (Dict.lookup name m.entry_map)) [
      | inl e ↦
          rw (e, find_or_create)
            (
              add_entry-Every name (fresh_entry m.driver_dir name checksum now) m (fresh_in m d)
                  every,
              d,
            )
      | inr (id, e) ↦ rw (e, find_or_create) (every, d)
    ]

    check_expected-Every :
        (id : ℕ) (m m' : Manager) (r : Reserved)
        → check_expected name checksum now id m ≡ done (m', r)
        → KeepsEvery m
        → KeepsEvery m'
    unfolding check_expected
    check_expected-Every id m m' r h (every, d) = elim (Option-cases (get_elem? m.heap id)) [
      | inl missing ↦ absurd (let q = rw (missing, entry_at, check_expected) at h in cc q)
      | inr (e, here) ↦
          let h' = rw (entry_at_here id e m here, check_expected) at h in
          elim (Bool-cases (is_expected e name checksum)) [
            | inl same ↦ elim (Bool-cases e.is_available) [
              | inl a ↦
                  subst KeepsEvery (ap (λ p. p.0) (done-injective _ (m', r) (rw (same, a) at h')))
                    (every, d)
              | inr a ↦
                  subst KeepsEvery (ap (λ p. p.0) (done-injective _ (m', r) (rw (same, a) at h')))
                    (every, d)
            ]
            | inr other ↦
                subst KeepsEvery (ap (λ p. p.0) (done-injective _ (m', r) (rw other at h'))) (
                  add_entry-Every name (fresh_entry m.driver_dir name checksum now)
                      (set_entry id (mark_for_deletion e) m) (fresh_in m d)
                      (set_entry-Every id e (mark_for_deletion e) m here (marks e (every id e here))
                        every),
                  d,
                )
          ]
    ]

    -- The block under `_lock`
    pub reserve-Every :
        (m m' : Manager) (r : Reserved)
        → reserve name checksum now m ≡ done (m', r)
        → Every P m
        → m.driver_dir ≡ dir
        → Every P m' × (m'.driver_dir ≡ dir)
    unfolding reserve
    reserve-Every m m' r h every d =
        let (n, id) = find_or_create name checksum now m in
        check_expected-Every id n m' r h (find_or_create-Every m (every, d))
