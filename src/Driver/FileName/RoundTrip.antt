-- ===== src/Driver/FileName/RoundTrip.antt =====
-- Which driver file names the parser takes, and what it reads from them.
use sr_scanner_demo.Base.{
  ℕ, none, some, ◌∷◌, ◌++◌, append_assoc, ◌≡◌, ap, ◌∙◌, ◌⊎◌, inl, inr, arith, Bytes, Lacks, length,
  Option-cases,
}
use sr_scanner_demo.Base.Int.{ℤ, InInt64}
use sr_scanner_demo.Base.Decimal.{to_string, stol, stol-to_string, to_string-Lacks}
use sr_scanner_demo.Base.Find.{
  find_last_of, remove_suffix, find_last_of-none, find_last_of-Lacks, find_last_of-append,
  find_last_of_split, drop-append_suc, remove_suffix-append, remove_suffix-append_suc,
}
use sr_scanner_demo.Driver.FileName.{
  ◌>>=◌, jar_file_suffix, driver_file_name, split_last_field, parse_from_file_name,
}

pub split_last_field-append :
    (xs ys : Bytes) → Lacks b'_' ys → split_last_field (xs ++ b'_' ∷ ys) ≡ some (xs, ys)
unfolding split_last_field
split_last_field-append xs ys h =
    rw (find_last_of-append b'_' xs ys h, drop-append_suc b'_' xs ys)
      (rw (remove_suffix-append_suc b'_' xs ys))

split_last_field-none : (s : Bytes) → Lacks b'_' s → split_last_field s ≡ none
unfolding split_last_field
split_last_field-none s h = rw (find_last_of-none b'_' s h)

-- Every text without an underscore is refused, and any other is cut at its last one.
pub split_last_field-cases :
    (s : Bytes)
    → (Lacks b'_' s × (split_last_field s ≡ none))
      ⊎ ((xs : Bytes) × (ys : Bytes) × (s ≡ xs ++ b'_' ∷ ys)
          × Lacks b'_' ys
          × (split_last_field s ≡ some (xs, ys)))
split_last_field-cases s = elim (Option-cases (find_last_of b'_' s)) [
  | inl e ↦ let lacks = find_last_of-Lacks b'_' s e in inl (lacks, split_last_field-none s lacks)
  | inr (i, e) ↦
      let (xs, ys, p, lacks, _) = find_last_of_split b'_' s e in
      inr (xs, ys, p, lacks, ap split_last_field p ∙ split_last_field-append xs ys lacks)
]

-- The file name without its suffix, bracketed as the parser takes it apart.
pub driver_file_name-fields :
    (name checksum : Bytes) (ts : ℤ)
    → driver_file_name name checksum ts
      ≡ ((name ++ b'_' ∷ checksum) ++ b'_' ∷ to_string ts) ++ jar_file_suffix
driver_file_name-fields name checksum ts = simp append_assoc

pub parse_fields :
    (name checksum str : Bytes)
    → Lacks b'_' checksum
    → Lacks b'_' str
    → parse_from_file_name (((name ++ b'_' ∷ checksum) ++ b'_' ∷ str) ++ jar_file_suffix)
      ≡ (stol str >>= λ ts. find_last_of b'_' name >>= λ pos. some (name, checksum, ts))
unfolding parse_from_file_name
parse_fields name checksum str hc hs =
    let s = (name ++ b'_' ∷ checksum) ++ b'_' ∷ str in
    let e : remove_suffix (length jar_file_suffix) (s ++ jar_file_suffix) ≡ s =
      remove_suffix-append s jar_file_suffix in
    rw (
      e,
      split_last_field-append (name ++ b'_' ∷ checksum) str hs,
      split_last_field-append name checksum hc,
    )

parse_printed :
    (name checksum : Bytes) (ts : ℤ)
    → Lacks b'_' checksum
    → InInt64 ts
    → parse_from_file_name (driver_file_name name checksum ts)
      ≡ (find_last_of b'_' name >>= λ pos. some (name, checksum, ts))
parse_printed name checksum ts lacks range = rw (
  driver_file_name-fields name checksum ts,
  parse_fields name checksum (to_string ts) lacks (to_string-Lacks ts),
  stol-to_string ts range,
)

-- A driver file name is read back where its name has an underscore, its checksum has none and its
-- time is an int64_t.
pub parse-driver_file_name :
    (name checksum : Bytes) (ts : ℤ)
    → ¬ (Lacks b'_' name)
    → Lacks b'_' checksum
    → InInt64 ts
    → parse_from_file_name (driver_file_name name checksum ts) ≡ some (name, checksum, ts)
parse-driver_file_name name checksum ts has lacks range =
    elim (Option-cases (find_last_of b'_' name)) [
      | inl e ↦ absurd (has (find_last_of-Lacks b'_' name e))
      | inr (i, e) ↦ parse_printed name checksum ts lacks range ∙ rw e
    ]

-- A name that has no underscore is refused, whatever its checksum and time stamp.
pub parse-driver_file_name_plain :
    (name checksum : Bytes) (ts : ℤ)
    → Lacks b'_' name
    → Lacks b'_' checksum
    → InInt64 ts
    → parse_from_file_name (driver_file_name name checksum ts) ≡ none
parse-driver_file_name_plain name checksum ts plain lacks range =
    parse_printed name checksum ts lacks range ∙ rw (find_last_of-none b'_' name plain)

has_underscore : (s : Bytes) (i : ℕ) → find_last_of b'_' s ≡ some i → ¬ (Lacks b'_' s)
has_underscore s i e lacks = cc (e, find_last_of-none b'_' s lacks)

-- The parts of an accepted text whose three fields are known.
accepted_fields :
    (name' checksum' str name checksum : Bytes) (ts : ℤ)
    → ◌>>=◌ {B = Bytes × Bytes × ℤ}
        (stol str)
        (λ ts. find_last_of b'_' name' >>= λ pos. some (name', checksum', ts))
      ≡ some (name, checksum, ts)
    → (name' ≡ name) × (checksum' ≡ checksum) × (stol str ≡ some ts) × ¬ (Lacks b'_' name')
accepted_fields name' checksum' str name checksum ts h =
    elim (Option-cases (find_last_of b'_' name')) [
      | inl e ↦ absurd (ground (arith, e))
      | inr (i, e) ↦
          (ground (arith, e), ground (arith, e), ground (arith, e), has_underscore name' i e)
    ]

-- What is accepted is a name with an underscore, a checksum without one and a text that std::stol
-- reads, joined by underscores in front of the suffix.
pub parse_sound :
    (s name checksum : Bytes) (ts : ℤ)
    → parse_from_file_name (s ++ jar_file_suffix) ≡ some (name, checksum, ts)
    → (str : Bytes) × (s ≡ (name ++ b'_' ∷ checksum) ++ b'_' ∷ str)
      × (stol str ≡ some ts)
      × Lacks b'_' checksum
      × ¬ (Lacks b'_' name)
unfolding parse_from_file_name
parse_sound s name checksum ts h =
    let e : remove_suffix (length jar_file_suffix) (s ++ jar_file_suffix) ≡ s =
      remove_suffix-append s jar_file_suffix in
    elim (split_last_field-cases s) [
      | inl (_, refused) ↦ absurd (ground (arith, e, refused))
      | inr (xs, str, p, _, q) ↦ elim (split_last_field-cases xs) [
        | inl (_, refused) ↦ absurd (ground (arith, e, q, refused))
        | inr (name', checksum', p', lacks, q') ↦
            let (a, b, c, d) =
              accepted_fields name' checksum' str name checksum ts (rw (e, q, q') at h) in
            (str, rw (p, p', a, b), c, rw b at lacks, rw a at d)
      ]
    ]
