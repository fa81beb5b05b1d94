-- ===== src/Driver/Manager/Invariant.antt =====
-- What holds of a driver manager between the blocks under its locks.
use mathlib.Core.Option.{some-injective}
use sr_scanner_demo.Base.{
  ℕ, zero, suc, ◌≤◌, none, some, List, [], ◌∷◌, ◌++◌, ◌≡◌, refl, ap, sym, ◌∙◌, arith, Bytes, length,
  get_elem?, set, bytes_eq, bytes_eq_iff, if◌then◌else◌, Bool-cases, inl, inr, ==_iff, ◌==◌,
}
use sr_scanner_demo.Base.Dict
use sr_scanner_demo.Base.Dict.{lookup-insert}
use sr_scanner_demo.Driver.Manager.{Entry, Manager, set_entry, add_entry}

module _ {ℓ} {A : Type ℓ} where
  pub get_elem?-set :
      (xs : List A) (i j : ℕ) (v a : A)
      → get_elem? xs i ≡ some a
      → get_elem? (set xs i v) j ≡ (if i == j then some v else get_elem? xs j)
  get_elem?-set [] i j v a h = cc
  get_elem?-set (x ∷ xs) zero zero v a h = refl
  get_elem?-set (x ∷ xs) zero (suc j) v a h = ground arith
  get_elem?-set (x ∷ xs) (suc i) zero v a h = ground arith
  get_elem?-set (x ∷ xs) (suc i) (suc j) v a h = ground (arith, get_elem?-set xs i j v a h)

  pub get_elem?-concat :
      (xs : List A) (a : A) (j : ℕ)
      → get_elem? (xs ++ a ∷ []) j ≡ (if length xs == j then some a else get_elem? xs j)
  get_elem?-concat [] a zero = refl
  get_elem?-concat [] a (suc j) = ground arith
  get_elem?-concat (x ∷ xs) a zero = ground arith
  get_elem?-concat (x ∷ xs) a (suc j) = ground (arith, get_elem?-concat xs a j)

  pub get_elem?-length : (xs : List A) (j : ℕ) → length xs ≤ j → get_elem? xs j ≡ none
  get_elem?-length [] j h = refl
  get_elem?-length (x ∷ xs) zero h = absurd (omega arith)
  get_elem?-length (x ∷ xs) (suc j) h = get_elem?-length xs j (omega arith)

module _ {ℓ} {A : Type ℓ} where
  pub get_elem?-last : (xs : List A) (a : A) → get_elem? (xs ++ a ∷ []) (length xs) ≡ some a
  get_elem?-last [] a = refl
  get_elem?-last (x ∷ xs) a = get_elem?-last xs a

  pub get_elem?-init :
      (xs : List A) (a : A) (j : ℕ) (b : A)
      → get_elem? xs j ≡ some b
      → get_elem? (xs ++ a ∷ []) j ≡ some b
  get_elem?-init [] a j b h = cc
  get_elem?-init (x ∷ xs) a zero b h = h
  get_elem?-init (x ∷ xs) a (suc j) b h = get_elem?-init xs a j b h

-- Every name of the map is that of the entry that it leads to, and what is available has been
-- downloaded.
pub record IsValid (m : Manager) : Type 0 where
  pub bound :
      (name : Bytes) (id : ℕ)
      → Dict.lookup name m.entry_map ≡ some id
      → (e : Entry) × (get_elem? m.heap id ≡ some e) × (e.name ≡ name)
  pub downloaded :
      (id : ℕ) (e : Entry) → get_elem? m.heap id ≡ some e → e.is_available ≡ e.is_downloaded

-- An entry is written over with one of the same name.
pub set_entry-IsValid :
    (id : ℕ) (old e : Entry) (m : Manager)
    → IsValid m
    → get_elem? m.heap id ≡ some old
    → e.name ≡ old.name
    → e.is_available ≡ e.is_downloaded
    → IsValid (set_entry id e m)
set_entry-IsValid id old e m v here same flags = record {
  bound = λ name j h.
      let (f, there, named) = v.bound name j h in
      elim (Bool-cases (id == j)) [
        | inl eq ↦
            let q : old ≡ f =
              some-injective old f
                (sym here ∙ ap (get_elem? m.heap) ((==_iff id j).0 eq) ∙ there) in
            (
              e,
              get_elem?-set m.heap id j e old here ∙ rw eq,
              same ∙ ap (λ (o : Entry). o.name) q ∙ named,
            )
        | inr ne ↦ (f, get_elem?-set m.heap id j e old here ∙ rw ne there, named)
      ];
  downloaded = λ j f h. grind (arith, v.downloaded j f, get_elem?-set m.heap id j e old here);
}

pub add_entry-IsValid :
    (e : Entry) (m : Manager)
    → IsValid m
    → e.is_available ≡ e.is_downloaded
    → IsValid (add_entry e.name e m)
add_entry-IsValid e m v flags = record {
  bound = λ name j h. elim (Bool-cases (bytes_eq e.name name)) [
    | inl eq ↦
        let j_last : length m.heap ≡ j =
          some-injective _ _
            ((rw eq at (sym (lookup-insert e.name name (length m.heap) m.entry_map))) ∙ h) in
        (e, rw (← j_last) (get_elem?-last m.heap e), (bytes_eq_iff e.name name).0 eq)
    | inr ne ↦
        let old : Dict.lookup name m.entry_map ≡ some j =
          (rw ne at (sym (lookup-insert e.name name (length m.heap) m.entry_map))) ∙ h in
        let (f, there, named) = v.bound name j old in (f, get_elem?-init m.heap e j f there, named)
  ];
  downloaded = λ j f h. grind (arith, v.downloaded j f, get_elem?-concat m.heap e j);
}
