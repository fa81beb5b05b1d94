-- ===== src/Fs/Listing.antt =====
-- `listDirectory` of be/fs/fs_util.h gives exactly the names that stand in the directory.
use sr_scanner_demo.Base.{
  true, false, none, some, [], ◌∷◌, ◌++◌, append_assoc, ◌≡◌, ◌≢◌, ◌↔◌, refl, sym, ap, ◌∙◌, arith,
  Bytes, bytes_eq, bytes_eq_iff, Bool-cases, Option-cases, inl, inr, contains,
}
use sr_scanner_demo.Base.Dict
use sr_scanner_demo.Fs.{Fs, strip_prefix, is_entry_name, entry_name, entries}

strip_prefix-append : (p s : Bytes) → strip_prefix p (p ++ s) ≡ some s
unfolding strip_prefix
strip_prefix-append [] s = refl
strip_prefix-append (c ∷ p) s = ground (arith, strip_prefix-append p s)

strip_prefix_sound : (p t s : Bytes) → strip_prefix p t ≡ some s → t ≡ p ++ s
unfolding strip_prefix
strip_prefix_sound [] t s h = ground (arith, h)
strip_prefix_sound (c ∷ p) [] s h = cc
strip_prefix_sound (c ∷ p) (d ∷ t) s h = ground (arith, strip_prefix_sound p t s)

abbrev pub path_in : Bytes → Bytes → Bytes
path_in dir name = dir ++ b'/' ∷ name

path_in_prefix : (dir name : Bytes) → path_in dir name ≡ (dir ++ b'/' ∷ []) ++ name
path_in_prefix dir name = simp append_assoc

entry_name-path_in :
    (dir name : Bytes) → is_entry_name name ≡ true → entry_name dir (path_in dir name) ≡ some name
unfolding entry_name
entry_name-path_in dir name h =
    rw (path_in_prefix dir name, strip_prefix-append (dir ++ b'/' ∷ []) name, entry_name, h)

entry_name_sound :
    (dir path name : Bytes)
    → entry_name dir path ≡ some name
    → (path ≡ path_in dir name) × (is_entry_name name ≡ true)
unfolding entry_name
entry_name_sound dir path name h = elim (Option-cases (strip_prefix (dir ++ b'/' ∷ []) path)) [
  | inl e ↦ absurd (ground (arith, e))
  | inr (s, e) ↦
      let same : s ≡ name = ground (arith, e) in
      (
        strip_prefix_sound (dir ++ b'/' ∷ []) path s e
            ∙ sym (path_in_prefix dir s)
            ∙ ap (path_in dir) same,
        ground (arith, e),
      )
]

-- The entry of a path is the name that was asked for exactly if the path is the name's.
entry_match :
    (dir path name m : Bytes)
    → is_entry_name name ≡ true
    → entry_name dir path ≡ some m
    → bytes_eq m name ≡ bytes_eq path (path_in dir name)
entry_match dir path name m h e =
    let (p, _) = entry_name_sound dir path m e in
    elim (Bool-cases (bytes_eq path (path_in dir name))) [
      | inl same ↦
          let q : some m ≡ some name =
            sym e
            ∙ ap (entry_name dir) ((bytes_eq_iff path _).0 same)
            ∙ entry_name-path_in dir name h in
          same_name (ground (arith, q)) same
      | inr other ↦ elim (Bool-cases (bytes_eq m name)) [
        | inl same ↦ absurd (
            let q : bytes_eq path (path_in dir name) ≡ true =
              (bytes_eq_iff _ _).1 (p ∙ ap (path_in dir) ((bytes_eq_iff m name).0 same)) in
            cc (q, other))
        | inr differ ↦ differ ∙ sym other
      ]
    ]
  where
    same_name :
        m ≡ name
        → bytes_eq path (path_in dir name) ≡ true
        → bytes_eq m name ≡ bytes_eq path (path_in dir name)
    same_name q same = (bytes_eq_iff m name).1 q ∙ sym same

entry_none :
    (dir path name : Bytes)
    → is_entry_name name ≡ true
    → entry_name dir path ≡ none
    → bytes_eq path (path_in dir name) ≡ false
entry_none dir path name h e = elim (Bool-cases (bytes_eq path (path_in dir name))) [
  | inl same ↦
      let q : none ≡ some name =
        sym e
        ∙ ap (entry_name dir) ((bytes_eq_iff path _).0 same)
        ∙ entry_name-path_in dir name h in
      cc q
  | inr other ↦ other
]

-- A name that is not empty and has no slash is listed exactly if something stands at its path.
pub contains-entries :
    (dir name : Bytes) (fs : Fs)
    → is_entry_name name ≡ true
    → (contains name (entries dir fs) ≡ true) ↔ (Dict.lookup (path_in dir name) fs ≢ none)
unfolding contains entries Dict.lookup
contains-entries dir name [] h = (λ e. cc, λ n. absurd (n refl))
contains-entries dir name ((path, n) ∷ fs) h =
    let ih = contains-entries dir name fs h in
    elim (Option-cases (entry_name dir path)) [
      | inl e ↦ rw (e, entry_none dir path name h e, entries, Dict.lookup) ih
      | inr (m, e) ↦ elim (Bool-cases (bytes_eq m name)) [
        | inl same ↦
            let path_same : bytes_eq path (path_in dir name) ≡ true =
              sym (entry_match dir path name m h e) ∙ same in
            rw (e, path_same, entries, Dict.lookup)
              (rw (same, contains) (λ _ none_some. cc, λ _. refl))
        | inr other ↦
            let path_other : bytes_eq path (path_in dir name) ≡ false =
              sym (entry_match dir path name m h e) ∙ other in
            rw (e, path_other, entries, Dict.lookup) (rw (other, contains) ih)
      ]
    ]

-- What is listed has the name of an entry.
pub entries_named :
    (dir name : Bytes) (fs : Fs) → contains name (entries dir fs) ≡ true → is_entry_name name ≡ true
unfolding contains entries
entries_named dir name [] h = cc
entries_named dir name ((path, n) ∷ fs) h = elim (Option-cases (entry_name dir path)) [
  | inl e ↦ entries_named dir name fs (rw (e, entries) at h)
  | inr (m, e) ↦ elim (Bool-cases (bytes_eq m name)) [
    | inl same ↦
        ap is_entry_name (sym ((bytes_eq_iff m name).0 same)) ∙ (entry_name_sound dir path m e).1
    | inr other ↦ entries_named dir name fs (rw (other, contains) at (rw (e, entries) at h))
  ]
]
