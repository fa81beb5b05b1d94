-- ===== src/Driver/Manager/Entries.antt =====
-- What the steps of be/runtime/jdbc_driver_manager.cpp leave of the entries: none goes, each keeps its
-- location, and none that is downloaded ceases to be.
use mathlib.Core.Path.{subst}
use mathlib.Core.Option.{some-injective}
use sr_scanner_demo.Base.{
  ℕ, true, some, ◌≡◌, refl, sym, ap, ◌∙◌, Bytes, get_elem?, done, done-injective, Bool-cases,
  Option-cases, inl, inr, ==_iff, ◌==◌,
}
use sr_scanner_demo.Base.Int.{ℤ}
use sr_scanner_demo.Base.Dict
use sr_scanner_demo.Driver.Manager.{
  Entry, Manager, set_entry, add_entry, entry_at, is_expected, fresh_entry, find_or_create,
  check_expected, reserve, Reserved, mark_for_deletion, mark_downloaded,
}
use sr_scanner_demo.Driver.Manager.Invariant.{get_elem?-set, get_elem?-init}
use sr_scanner_demo.Driver.Manager.Location.{entry_at_here}

-- Every entry is still there, at its location, and downloaded if it was.
abbrev pub Keeps : Manager → Manager → Type 0
Keeps m m' =
    (id : ℕ) (e : Entry)
    → get_elem? m.heap id ≡ some e
    → (e' : Entry) × (get_elem? m'.heap id ≡ some e')
      × (e'.location ≡ e.location)
      × (e.is_downloaded ≡ true → e'.is_downloaded ≡ true)

pub Keeps-refl : (m : Manager) → Keeps m m
Keeps-refl m id e h = (e, h, refl, λ d. d)

add_entry-Keeps : (name : Bytes) (f : Entry) (m : Manager) → Keeps m (add_entry name f m)
add_entry-Keeps name f m id e h = (e, get_elem?-init m.heap f id e h, refl, λ d. d)

same_entry :
    (j id : ℕ) (f e : Entry) (m : Manager)
    → (j == id) ≡ true
    → get_elem? m.heap j ≡ some f
    → get_elem? m.heap id ≡ some e
    → f ≡ e
same_entry j id f e m same here h =
    some-injective f e (sym here ∙ ap (get_elem? m.heap) ((==_iff j id).0 same) ∙ h)

mark-Keeps :
    (j : ℕ) (f : Entry) (m : Manager)
    → get_elem? m.heap j ≡ some f
    → Keeps m (set_entry j (mark_for_deletion f) m)
mark-Keeps j f m here id e h = elim (Bool-cases (j == id)) [
  | inl same ↦
      let q = same_entry j id f e m same here h in
      (
        mark_for_deletion f,
        get_elem?-set m.heap j id (mark_for_deletion f) f here ∙ rw same,
        ap (λ x. x.location) q,
        λ d. ap (λ x. x.is_downloaded) q ∙ d,
      )
  | inr other ↦
      (e, get_elem?-set m.heap j id (mark_for_deletion f) f here ∙ rw other h, refl, λ d. d)
]

pub Keeps-trans : (m₁ m₂ m₃ : Manager) → Keeps m₁ m₂ → Keeps m₂ m₃ → Keeps m₁ m₃
Keeps-trans m₁ m₂ m₃ k k' id e h =
    let (e', h', l, same) = k id e h in
    let (e'', h'', l', same') = k' id e' h' in (e'', h'', l' ∙ l, λ d. same' (same d))

find_or_create-Keeps :
    (name checksum : Bytes) (now : ℤ) (m : Manager) → Keeps m (find_or_create name checksum now m).0
unfolding find_or_create
find_or_create-Keeps name checksum now m = elim (Option-cases (Dict.lookup name m.entry_map)) [
  | inl e ↦
      rw (e, find_or_create) (add_entry-Keeps name (fresh_entry m.driver_dir name checksum now) m)
  | inr (id, e) ↦ rw (e, find_or_create) (Keeps-refl m)
]

check_expected-Keeps :
    (name checksum : Bytes) (now : ℤ) (id : ℕ) (m m' : Manager) {r : Reserved}
    → check_expected name checksum now id m ≡ done (m', r)
    → Keeps m m'
unfolding check_expected
check_expected-Keeps name checksum now id m m' h = elim (Option-cases (get_elem? m.heap id)) [
  | inl missing ↦ absurd (let q = rw (missing, entry_at, check_expected) at h in cc q)
  | inr (e, here) ↦ elim (Bool-cases (is_expected e name checksum)) [
    | inl same ↦ elim (Bool-cases e.is_available) [
      | inl a ↦
          subst (Keeps m)
            (ap (λ p. p.0)
              (done-injective _ _
                (rw (same, a) at (rw (entry_at_here id e m here, check_expected) at h))))
            (Keeps-refl m)
      | inr a ↦
          subst (Keeps m)
            (ap (λ p. p.0)
              (done-injective _ _
                (rw (same, a) at (rw (entry_at_here id e m here, check_expected) at h))))
            (Keeps-refl m)
    ]
    | inr other ↦
        let old = set_entry id (mark_for_deletion e) m in
        let f = fresh_entry m.driver_dir name checksum now in
        subst (Keeps m)
          (ap (λ p. p.0)
            (done-injective _ _
              (rw other at (rw (entry_at_here id e m here, check_expected) at h))))
          (Keeps-trans m old (add_entry name f old) (mark-Keeps id e m here)
            (add_entry-Keeps name f old))
  ]
]

pub reserve-Keeps :
    (name checksum : Bytes) (now : ℤ) (m m' : Manager) {r : Reserved}
    → reserve name checksum now m ≡ done (m', r)
    → Keeps m m'
unfolding reserve
reserve-Keeps name checksum now m m' h =
    let (n, id) = find_or_create name checksum now m in
    Keeps-trans m n m' (find_or_create-Keeps name checksum now m)
      (check_expected-Keeps name checksum now id n m' h)

pub downloaded-Keeps :
    (j : ℕ) (f : Entry) (m : Manager)
    → get_elem? m.heap j ≡ some f
    → Keeps m (set_entry j (mark_downloaded f) m)
downloaded-Keeps j f m here id e h = elim (Bool-cases (j == id)) [
  | inl same ↦ (
    mark_downloaded f,
    get_elem?-set m.heap j id (mark_downloaded f) f here ∙ rw same,
    ap (λ x. x.location) (same_entry j id f e m same here h),
    λ d. refl,
  )
  | inr other ↦ (e, get_elem?-set m.heap j id (mark_downloaded f) f here ∙ rw other h, refl, λ d. d)
]
