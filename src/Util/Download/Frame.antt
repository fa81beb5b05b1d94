-- ===== src/Util/Download/Frame.antt =====
-- What `DownloadUtil::download` of be/util/download_util.cpp leaves alone.
use sr_scanner_demo.Base.{
  Bool, some, ◌≡◌, ◌≢◌, refl, sym, ap, ◌∙◌, arith, Bytes, bytes_eq, bytes_eq_iff, Bool-cases,
  Option-cases, inl, inr,
}
use sr_scanner_demo.Base.Dict
use sr_scanner_demo.Base.Dict.{lookup-erase}
use sr_scanner_demo.Status.{is_ok}
use sr_scanner_demo.Fs.{file, Fs, can_write}
use sr_scanner_demo.Http.Curl.{Curl}
use sr_scanner_demo.Util.Md5.{Md5, hex}
use sr_scanner_demo.Util.Download.{Progress, rename, transfer, install, fetch, download}
use sr_scanner_demo.Util.Download.Laws.{lookup_other}

lookup_erased :
    (path j : Bytes) (fs : Fs) → j ≢ path → Dict.lookup j (Dict.erase path fs) ≡ Dict.lookup j fs
lookup_erased path j fs differ = elim (Bool-cases (bytes_eq path j)) [
  | inl e ↦ absurd (differ (sym ((bytes_eq_iff path j).0 e)))
  | inr e ↦ lookup-erase path j fs ∙ rw e refl
]

rename_frame :
    (from to j : Bytes) (fs fs' : Fs)
    → rename from to fs ≡ some fs'
    → j ≢ from
    → j ≢ to
    → Dict.lookup j fs' ≡ Dict.lookup j fs
unfolding rename
rename_frame from to j fs fs' h other other' = elim (Option-cases (Dict.lookup from fs)) [
  | inl e ↦ absurd (ground (arith, e))
  | inr (n, e) ↦ elim (Bool-cases (bytes_eq from to)) [
    | inl same ↦ let q : fs ≡ fs' = ground (arith, e, same) in ap (Dict.lookup j) (sym q)
    | inr differ ↦ elim (Bool-cases (can_write to fs)) [
      | inr refused ↦ absurd (ground (arith, e, differ, refused))
      | inl allowed ↦
          let q : Dict.insert to n (Dict.erase from fs) ≡ fs' =
            ground (arith, e, differ, allowed) in
          ap (Dict.lookup j) (sym q)
          ∙ lookup_other to j n (Dict.erase from fs) other'
          ∙ lookup_erased from j fs other
    ]
  ]
]

module _ (m : Md5) (c : Curl (Progress m)) (accepts : Bytes → Bytes → Bool)
    (iequals : Bytes → Bytes → Bool) (flushed : Bytes → Bytes) where
  install_frame :
      (checksum tmp target expected j : Bytes) (fs : Fs)
      → j ≢ tmp
      → j ≢ target
      → Dict.lookup j (install m c accepts iequals flushed checksum tmp target expected fs).1
        ≡ Dict.lookup j fs
  unfolding install
  install_frame checksum tmp target expected j fs other other' =
      elim (Bool-cases (iequals checksum expected)) [
        | inr differ ↦ rw (differ, install) refl
        | inl same ↦ elim (Option-cases (rename tmp target fs)) [
          | inl e ↦ rw (same, e, install) refl
          | inr (fs', e) ↦ rw (same, e, install) (rename_frame tmp target j fs fs' e other other')
        ]
      ]

  fetch_frame :
      (url tmp target expected j : Bytes) (fs : Fs)
      → j ≢ tmp
      → j ≢ target
      → Dict.lookup j (fetch m c accepts iequals flushed url tmp target expected fs).1
        ≡ Dict.lookup j fs
  fetch_frame url tmp target expected j fs other other' =
      let p = transfer m c accepts iequals flushed url in
      let fs' = Dict.insert tmp (file (flushed p.content)) fs in
      elim (Bool-cases (is_ok p.status)) [
        | inr bad ↦ rw (bad, fetch) (lookup_other tmp j (file (flushed p.content)) fs other)
        | inl good ↦
            rw (good, fetch)
              (install_frame (hex (Md5.md5_final m p.context)) tmp target expected j fs' other
                  other'
                ∙ lookup_other tmp j (file (flushed p.content)) fs other)
      ]

  -- Whatever a download returns, it has changed nothing but the temporary file and the target.
  pub download_frame :
      (url tmp target expected j : Bytes) (fs : Fs)
      → j ≢ tmp
      → j ≢ target
      → Dict.lookup j (download m c accepts iequals flushed url tmp target expected fs).1
        ≡ Dict.lookup j fs
  unfolding download
  download_frame url tmp target expected j fs other other' = elim (Bool-cases (can_write tmp fs)) [
    | inr closed ↦ rw (closed, download) refl
    | inl opened ↦ rw (opened, download) (fetch_frame url tmp target expected j fs other other')
  ]
