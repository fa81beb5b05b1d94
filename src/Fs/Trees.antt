-- ===== src/Fs/Trees.antt =====
-- What the helpers of be/fs/fs_util.h on whole directories do: `deleteDirectory` and `getDirectorySize`.
use sr_scanner_demo.Base.{
  ℕ, ◌+◌, ◌%◌, ◌^◌, ◌<◌, true, none, some, [], ◌∷◌, ◌++◌, ◌≡◌, refl, sym, ap, ◌∙◌, arith, Bytes,
  done, done-injective, bytes_eq_iff, Bool-cases, Option-cases, inl, inr, if◌then◌else◌,
}
use sr_scanner_demo.Base.Dict
use sr_scanner_demo.Fs.{
  Fs, node_size, strip_prefix, is_under, remove_all, file_exists, directory_exists,
  delete_directory, add_sizes, get_directory_size,
}

lookup-remove_all :
    (dir path : Bytes) (fs : Fs)
    → Dict.lookup path (remove_all dir fs)
      ≡ (if is_under dir path then none else Dict.lookup path fs)
unfolding remove_all Dict.lookup
lookup-remove_all dir path [] = elim (Bool-cases (is_under dir path)) [
  | inl e ↦ rw e refl
  | inr e ↦ rw e refl
]
lookup-remove_all dir path ((q, n) ∷ fs) =
    let hyp = lookup-remove_all dir path fs in
    ground (arith, hyp, bytes_eq_iff q path, ap (is_under dir) {x = q} {y = path})

-- A deletion of a directory that returns has removed it and everything in it, at any depth, and
-- nothing else.
pub lookup-delete_directory :
    (dir path : Bytes) (fs fs' : Fs)
    → delete_directory dir fs ≡ done fs'
    → Dict.lookup path fs' ≡ (if is_under dir path then none else Dict.lookup path fs)
unfolding delete_directory
lookup-delete_directory dir path fs fs' h = elim (Bool-cases (file_exists dir fs)) [
  | inl e ↦
      ap (Dict.lookup path)
        (sym (done-injective (remove_all dir fs) fs' (rw (e, delete_directory) at h)))
      ∙ lookup-remove_all dir path fs
  | inr e ↦ absurd (let q = rw (e, delete_directory) at h in cc q)
]

-- The sum of the sizes, as a number.
abbrev pub total_size : Bytes → Fs → ℕ
total_size dir [] = 0
total_size dir ((path, n) ∷ fs) = elim (strip_prefix (dir ++ b'/' ∷ []) path) [
  | none ↦ total_size dir fs
  | some name ↦ node_size n + total_size dir fs
]

add_sizes_lem :
    (dir : Bytes) (size : ℕ) (fs : Fs)
    → size < 2 ^ 64
    → add_sizes dir size fs ≡ (size + total_size dir fs) % 2 ^ 64
unfolding add_sizes
add_sizes_lem dir size [] h = omega (arith, h)
add_sizes_lem dir size ((path, n) ∷ fs) h =
    elim (Option-cases (strip_prefix (dir ++ b'/' ∷ []) path)) [
      | inl e ↦ rw (e, add_sizes) (rw (e, total_size) (add_sizes_lem dir size fs h))
      | inr (name, e) ↦
          let hyp = add_sizes_lem dir ((size + node_size n) % 2 ^ 64) fs (omega arith) in
          rw (e, add_sizes) (rw (e, total_size) (omega (arith, hyp)))
    ]

-- The size of a directory is the sum of the sizes of the files in it, at any depth, as a uintmax_t: it
-- wraps around at 2 ^ 64.
pub get_directory_size_lem :
    (dir : Bytes) (fs : Fs)
    → directory_exists dir fs ≡ true
    → get_directory_size dir fs ≡ done (total_size dir fs % 2 ^ 64)
unfolding get_directory_size
get_directory_size_lem dir fs h =
    rw (h, get_directory_size) (ap done (omega (arith, add_sizes_lem dir 0 fs (omega arith))))
