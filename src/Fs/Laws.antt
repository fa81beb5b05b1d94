-- ===== src/Fs/Laws.antt =====
-- What the writes of be/fs/fs_util.h leave at each path.
use sr_scanner_demo.Base.{
  some, ◌++◌, ◌≡◌, ◌∙◌, arith, Bytes, done, bytes_eq_refl, Bool-cases, inl, inr,
}
use sr_scanner_demo.Base.Dict
use sr_scanner_demo.Base.Dict.{lookup-insert, lookup-erase}
use sr_scanner_demo.Fs.{
  Node, file, Fs, delete_file, can_write, read_file, write_file, append_to_file, content_of,
}

-- No call returns.
pub delete_file_never : (path : Bytes) (fs fs' : Fs) → ¬ (delete_file path fs ≡ done fs')
unfolding delete_file
delete_file_never path fs fs' h = ground (arith, h)

lookup-insert_self :
    (path : Bytes) (n : Node) (fs : Fs) → Dict.lookup path (Dict.insert path n fs) ≡ some n
lookup-insert_self path n fs = lookup-insert path path n fs ∙ rw (bytes_eq_refl path)

-- What a write that returns has written is read back.
pub read-write_file :
    (path content : Bytes) (fs fs' : Fs)
    → write_file path content fs ≡ done fs'
    → read_file path fs' ≡ done content
unfolding write_file read_file
read-write_file path content fs fs' h = elim (Bool-cases (can_write path fs)) [
  | inl e ↦
      let r : Dict.insert path (file content) fs ≡ fs' = ground (arith, e) in
      rw (← r) (rw (lookup-insert_self path (file content) fs, read_file))
  | inr e ↦ absurd (ground (arith, e))
]

-- What an append that returns has appended is read behind what was read there before.
pub read-append_to_file :
    (path old content : Bytes) (fs fs' : Fs)
    → read_file path fs ≡ done old
    → append_to_file path content fs ≡ done fs'
    → read_file path fs' ≡ done (old ++ content)
unfolding append_to_file read_file
read-append_to_file path old content fs fs' before h = elim (Bool-cases (can_write path fs)) [
  | inl e ↦
      let c = content_of (Dict.lookup path fs) in
      let r : Dict.insert path (file (c ++ content)) fs ≡ fs' = ground (arith, e) in
      let same : c ≡ old = ground (arith, before) in
      rw (← r)
        (rw (lookup-insert_self path (file (c ++ content)) fs, read_file) (ground (arith, same)))
  | inr e ↦ absurd (ground (arith, e))
]
