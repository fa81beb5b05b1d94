-- ===== src/Driver/Manager/Interleaving/Races.antt =====
-- What the locks of be/runtime/jdbc_driver_manager.cpp do not keep apart: `download_lock` is an entry's, the
-- temporary file that of a name and a checksum.
use sr_scanner_demo.Base.{
  ℕ, zero, suc, false, none, some, List, [], ◌∷◌, ◌≡◌, ◌≢◌, refl, sym, ◌∙◌, arith, Bytes, length,
  length-append, get_elem?, set, bytes_eq, bytes_eq_iff, done, Bool-cases, inl, inr, ==_iff,
}
use sr_scanner_demo.Base.Int.{ℤ}
use sr_scanner_demo.Base.Dict
use sr_scanner_demo.Driver.Manager.{
  Entry, Manager, set_entry, add_entry, fresh_entry, find_or_create, reserve, pending,
  mark_for_deletion, tmp_file_of,
}
use sr_scanner_demo.Driver.Manager.Invariant.{get_elem?-set, get_elem?-last, get_elem?-init}
use sr_scanner_demo.Driver.Manager.Location.{
  IsCurrent, add_entry-IsCurrent, check_waiting, check_mismatch,
}
use sr_scanner_demo.Driver.Manager.Registry.{Call}
use sr_scanner_demo.Driver.Manager.Interleaving.{asking, holding, reserves, Steps, stay, step}

differ : (a b : Bytes) → a ≢ b → bytes_eq a b ≡ false
differ a b h = elim (Bool-cases (bytes_eq a b)) [
  | inl e ↦ absurd (h ((bytes_eq_iff a b).0 e))
  | inr e ↦ e
]

length-set : (xs : List Entry) (i : ℕ) (e : Entry) → length (set xs i e) ≡ length xs
length-set [] i e = refl
length-set (x ∷ xs) zero e = refl
length-set (x ∷ xs) (suc i) e = omega (arith, length-set xs i e)

abbrev replaced : Bytes → Bytes → ℤ → ℕ → Entry → Manager → Manager
replaced name checksum now id e m =
    add_entry name (fresh_entry m.driver_dir name checksum now)
      (set_entry id (mark_for_deletion e) m)

reserve_unknown :
    (name checksum : Bytes) (now : ℤ) (m : Manager)
    → Dict.lookup name m.entry_map ≡ none
    → reserve name checksum now m
      ≡ done
          (add_entry name (fresh_entry m.driver_dir name checksum now) m, pending (length m.heap))
unfolding reserve find_or_create
reserve_unknown name checksum now m new =
    let f = fresh_entry m.driver_dir name checksum now in
    rw (new, reserve, find_or_create)
      (check_waiting name checksum now (length m.heap) f (add_entry name f m)
        (add_entry-IsCurrent f m) refl refl)

reserve_changed :
    (name old checksum : Bytes) (now : ℤ) (id : ℕ) (e : Entry) (m : Manager)
    → IsCurrent name old id e m
    → old ≢ checksum
    → reserve name checksum now m
      ≡ done (
        replaced name checksum now id e m,
        pending (length (set m.heap id (mark_for_deletion e))),
      )
unfolding reserve find_or_create
reserve_changed name old checksum now id e m c h =
    let c' : IsCurrent name e.checksum id e m = record {
      found = c.found;
      here = c.here;
      named = c.named;
      checked = refl;
    } in
    rw (c.found, reserve, find_or_create)
      (check_mismatch name checksum now id e m c'
        (differ e.checksum checksum (λ q. h (sym c.checked ∙ q))))

-- An entry that stays where it is, as another one is replaced.
stays :
    (name checksum : Bytes) (now : ℤ) (id j : ℕ) (e f : Entry) (m : Manager)
    → get_elem? m.heap id ≡ some e
    → get_elem? m.heap j ≡ some f
    → id ≢ j
    → get_elem? (replaced name checksum now id e m).heap j ≡ some f
stays name checksum now id j e f m here there other =
    get_elem?-init (set m.heap id (mark_for_deletion e))
      (fresh_entry m.driver_dir name checksum now) j f
      (get_elem?-set m.heap id j (mark_for_deletion e) e here
        ∙ ground (arith, ==_iff id j, there, other))

marked :
    (name checksum : Bytes) (now : ℤ) (id : ℕ) (e : Entry) (m : Manager)
    → get_elem? m.heap id ≡ some e
    → get_elem? (replaced name checksum now id e m).heap id ≡ some (mark_for_deletion e)
marked name checksum now id e m here =
    get_elem?-init (set m.heap id (mark_for_deletion e))
      (fresh_entry m.driver_dir name checksum now) id (mark_for_deletion e)
      (get_elem?-set m.heap id id (mark_for_deletion e) e here ∙ rw ((==_iff id id).1 refl) refl)

-- Both entries are not downloaded yet, and have one temporary file.
abbrev pub ShareTmpFile : Manager → ℕ → ℕ → Type 0
ShareTmpFile m i j =
    (i ≢ j)
    × (e : Entry) × (f : Entry) × (get_elem? m.heap i ≡ some e)
    × (get_elem? m.heap j ≡ some f)
    × (e.is_downloaded ≡ false)
    × (f.is_downloaded ≡ false)
    × (tmp_file_of m e ≡ tmp_file_of m f)

abbrev pub call : Bytes → Bytes → Bytes → ℤ → Call
call name url checksum now = record { name = name; url = url; checksum = checksum; now = now }

-- Whatever a manager knows of other names: of three calls for a new name, the second of which has another
-- checksum, the first and the last can be behind the block under `_lock` at once, each with an entry of
-- its own that is not downloaded, and both entries have one temporary file.
pub reserves-ShareTmpFile :
    (name url a b : Bytes) (t₁ t₂ t₃ : ℤ) (m : Manager)
    → Dict.lookup name m.entry_map ≡ none
    → a ≢ b
    → (m' : Manager) × (i : ℕ) × (k : ℕ) × (j : ℕ) × Steps
        (record {
          manager = m;
          threads =
              asking (call name url a t₁)
              ∷ asking (call name url b t₂)
              ∷ asking (call name url a t₃)
              ∷ [];
          log = [];
        })
        (record {
          manager = m';
          threads = holding url i ∷ holding url k ∷ holding url j ∷ [];
          log = [];
        })
      × ShareTmpFile m' i j
reserves-ShareTmpFile name url a b t₁ t₂ t₃ m new h =
    let n = length m.heap in
    let f₁ = fresh_entry m.driver_dir name a t₁ in
    let m₁ = add_entry name f₁ m in
    let f₂ = fresh_entry m.driver_dir name b t₂ in
    let m₂ = replaced name b t₂ n f₁ m₁ in
    let k = length (set m₁.heap n (mark_for_deletion f₁)) in
    let f₃ = fresh_entry m.driver_dir name a t₃ in
    let m₃ = replaced name a t₃ k f₂ m₂ in
    let j = length (set m₂.heap k (mark_for_deletion f₂)) in
    let c₁ = add_entry-IsCurrent f₁ m in
    let c₂ = add_entry-IsCurrent f₂ (set_entry n (mark_for_deletion f₁) m₁) in
    let n_k : k ≡ suc n =
      omega (arith, length-set m₁.heap n (mark_for_deletion f₁), length-append m.heap (f₁ ∷ [])) in
    let k_j : j ≡ suc k = omega (
      arith,
      length-set m₂.heap k (mark_for_deletion f₂),
      length-append (set m₁.heap n (mark_for_deletion f₁)) (f₂ ∷ []),
    ) in
    let ask = λ (c : Bytes) (t : ℤ). asking (call name url c t) in
    (
      m₃,
      n,
      k,
      j,
      step _ _ _
          (reserves 0 (call name url a t₁) (pending n) m m₁ (ask a t₁ ∷ ask b t₂ ∷ ask a t₃ ∷ []) []
            refl (reserve_unknown name a t₁ m new))
          (step _ _ _
            (reserves 1 (call name url b t₂) (pending k) m₁ m₂
              (holding url n ∷ ask b t₂ ∷ ask a t₃ ∷ []) [] refl
              (reserve_changed name a b t₂ n f₁ m₁ c₁ h))
            (step _ _ _
              (reserves 2 (call name url a t₃) (pending j) m₂ m₃
                (holding url n ∷ holding url k ∷ ask a t₃ ∷ []) [] refl
                (reserve_changed name b a t₃ k f₂ m₂ c₂ (λ e. h (sym e))))
              (stay _))),
      (
        (λ e. omega (arith, e, n_k, k_j)),
        mark_for_deletion f₁,
        f₃,
        stays name a t₃ k n f₂ (mark_for_deletion f₁) m₂ c₂.here (marked name b t₂ n f₁ m₁ c₁.here)
            (λ e. omega (arith, e, n_k)),
        get_elem?-last (set m₂.heap k (mark_for_deletion f₂)) f₃,
        refl,
        refl,
        refl,
      ),
    )
