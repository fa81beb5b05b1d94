-- ===== src/Util/Download/Laws.antt =====
-- What `DownloadUtil::download` of be/util/download_util.cpp leaves on the disk.
use mathlib.Core.Path.{subst}
use sr_scanner_demo.Base.{
  join_all, Bool, true, false, some, List, [], ◌∷◌, ◌++◌, append_assoc, append-nil, ◌≡◌, ◌≢◌, refl,
  sym, ap, ◌∙◌, arith, Bytes, bytes_eq, bytes_eq_iff, bytes_eq_refl, ◌==◌, Bool-cases, Option-cases,
  inl, inr,
}
use sr_scanner_demo.Base.Dict
use sr_scanner_demo.Base.Dict.{lookup-insert}
use sr_scanner_demo.Status.{Status, ok_status, internal_error, is_ok}
use sr_scanner_demo.Fs.{Node, file, Fs, can_write, fwrite}
use sr_scanner_demo.Http.Curl.{Curl, IsLawful}
use sr_scanner_demo.Http.Client
use sr_scanner_demo.Http.Client.{new_client}
use sr_scanner_demo.Http.Client.Transfer.{execute_keeps}
use sr_scanner_demo.Util.Md5.{Md5, IsMd5, feed_all, hex}
use sr_scanner_demo.Util.Download.{
  Progress, rename, download_cb, start, transfer, install, download,
}

-- The file system with one path written.
lookup_same :
    (path : Bytes) (n : Node) (fs : Fs) → Dict.lookup path (Dict.insert path n fs) ≡ some n
lookup_same path n fs = lookup-insert path path n fs ∙ rw (bytes_eq_refl path)

pub lookup_other :
    (path j : Bytes) (n : Node) (fs : Fs)
    → j ≢ path
    → Dict.lookup j (Dict.insert path n fs) ≡ Dict.lookup j fs
lookup_other path j n fs differ = elim (Bool-cases (bytes_eq path j)) [
  | inl e ↦ absurd (differ (sym ((bytes_eq_iff path j).0 e)))
  | inr e ↦ lookup-insert path j n fs ∙ rw e
]

-- A rename that succeeds leaves at the new path what stood at the old one.
lookup-rename :
    (from to : Bytes) (fs fs' : Fs)
    → rename from to fs ≡ some fs'
    → Dict.lookup to fs' ≡ Dict.lookup from fs
unfolding rename
lookup-rename from to fs fs' h = elim (Option-cases (Dict.lookup from fs)) [
  | inl e ↦ absurd (ground (arith, e))
  | inr (n, e) ↦ elim (Bool-cases (bytes_eq from to)) [
    | inl same ↦
        let q : fs ≡ fs' = ground (arith, e, same) in
        rw (← q) (ap (λ p. Dict.lookup p fs) (sym ((bytes_eq_iff from to).0 same)))
    | inr other ↦ elim (Bool-cases (can_write to fs)) [
      | inr refused ↦ absurd (ground (arith, e, other, refused))
      | inl allowed ↦
          let q : Dict.insert to n (Dict.erase from fs) ≡ fs' = ground (arith, e, other, allowed) in
          rw (← q) (lookup_same to n (Dict.erase from fs) ∙ sym e)
    ]
  ]
]

feed_all-append {ℓ} :
    {C : Type ℓ} (update : C → Bytes → C) (c : C) (fed : List Bytes) (d : Bytes)
    → feed_all update c (fed ++ d ∷ []) ≡ update (feed_all update c fed) d
feed_all-append update c [] d = refl
feed_all-append update c (s ∷ fed) d = feed_all-append update (update c s) fed d

join_all-append : (fed : List Bytes) (d : Bytes) → join_all (fed ++ d ∷ []) ≡ join_all fed ++ d
join_all-append [] d = append-nil d
join_all-append (s ∷ fed) d = rw (join_all-append fed d) (sym (append_assoc s (join_all fed) d))

error_not_ok : (msg : Bytes) → ¬ (is_ok (internal_error msg) ≡ true)
unfolding is_ok internal_error
error_not_ok msg h = cc

module _ (m : Md5) (c : Curl (Progress m)) (accepts : Bytes → Bytes → Bool)
    (iequals : Bytes → Bytes → Bool) (flushed : Bytes → Bytes) where
  -- The digest has been fed what was written, as long as no write failed.
  abbrev Tracked : Progress m → Type 0
  Tracked p =
      (fed : List Bytes) × (p.context ≡ feed_all (Md5.md5_update m) (Md5.md5_init m) fed)
      × (is_ok p.status ≡ true → join_all fed ≡ p.content)

  download_cb-Tracked :
      (url d : Bytes) (p : Progress m)
      → Tracked p
      → Tracked (download_cb m c accepts iequals flushed url d p).1
  unfolding download_cb
  download_cb-Tracked url d p (fed, ctx, written) =
      let ctx' =
        ap (λ x. Md5.md5_update m x d) ctx
        ∙ sym (feed_all-append (Md5.md5_update m) (Md5.md5_init m) fed d) in
      elim (Bool-cases (fwrite accepts p.content d == 1)) [
        | inl ok ↦
            rw ok (fed ++ d ∷ [], ctx', λ s. join_all-append fed d ∙ ap (λ x. x ++ d) (written s))
        | inr bad ↦ rw bad (fed ++ d ∷ [], ctx', λ s. absurd (error_not_ok _ s))
      ]

  transfer-Tracked : (url : Bytes) → IsLawful c → Tracked (transfer m c accepts iequals flushed url)
  unfolding transfer
  transfer-Tracked url laws =
      execute_keeps c laws Tracked (download_cb m c accepts iequals flushed url)
        (Client.init c url (new_client c)).1 (start m c accepts iequals flushed)
        (download_cb-Tracked url) ([], refl, λ s. refl)

  -- `install` returns OK only for a checksum that is expected, and then has renamed the file.
  install_ok :
      (checksum tmp target expected : Bytes) (fs fs' : Fs) {s : Status}
      → install m c accepts iequals flushed checksum tmp target expected fs ≡ (s, fs')
      → is_ok s ≡ true
      → (iequals checksum expected ≡ true) × (rename tmp target fs ≡ some fs')
  unfolding install
  install_ok checksum tmp target expected fs fs' h ok =
      elim (Bool-cases (iequals checksum expected)) [
        | inr differ ↦ absurd (error_not_ok _ (ap (λ r. is_ok r.0) (rw differ at h) ∙ ok))
        | inl same ↦ elim (Option-cases (rename tmp target fs)) [
          | inl e ↦ absurd (error_not_ok _ (ap (λ r. is_ok r.0) (rw (same, e) at h) ∙ ok))
          | inr (fs₁, e) ↦ (same, e ∙ ap (λ r. some r.1) (rw (same, e) at h))
        ]
      ]

  -- The three ways of `download` in front of `install`.
  module _ (url tmp target expected : Bytes) (fs : Fs) where
    abbrev received : Progress m
    received = transfer m c accepts iequals flushed url

    abbrev written_fs : Fs
    written_fs = Dict.insert tmp (file (flushed received.content)) fs

    download_closed :
        can_write tmp fs ≡ false
        → (is_ok (download m c accepts iequals flushed url tmp target expected fs).0 ≡ false)
          × ((download m c accepts iequals flushed url tmp target expected fs).1 ≡ fs)
    unfolding download is_ok internal_error
    download_closed e = (rw (e, download), rw (e, download))

    download_failed :
        can_write tmp fs ≡ true
        → is_ok received.status ≡ false
        → download m c accepts iequals flushed url tmp target expected fs
          ≡ (received.status, written_fs)
    unfolding download
    download_failed e bad = rw (e, download) (rw bad)

    download_written :
        can_write tmp fs ≡ true
        → is_ok received.status ≡ true
        → download m c accepts iequals flushed url tmp target expected fs
          ≡ install m c accepts iequals flushed
              (hex (Md5.md5_final m received.context))
              tmp
              target
              expected
              written_fs
    unfolding download
    download_written e good = rw (e, download) (rw good)

  pub download_ok :
      (laws : IsLawful c) (digests : IsMd5 m) (url tmp target expected : Bytes) (fs fs' : Fs)
      {s : Status}
      → download m c accepts iequals flushed url tmp target expected fs ≡ (s, fs')
      → is_ok s ≡ true
      → (content : Bytes) × (Dict.lookup target fs' ≡ some (file (flushed content)))
        × (iequals (hex (digests.md5 content)) expected ≡ true)
  download_ok laws digests url tmp target expected fs fs' h ok =
      elim (Bool-cases (can_write tmp fs)) [
        | inr closed ↦
            let (bad, _) = download_closed url tmp target expected fs closed in
            absurd (cc (bad, ok, ap (λ r. is_ok r.0) h))
        | inl opened ↦ elim (Bool-cases (is_ok (received url tmp target expected fs).status)) [
          | inr bad ↦
              let e = sym (download_failed url tmp target expected fs opened bad) ∙ h in
              absurd (cc (bad, ok, ap (λ r. is_ok r.0) e))
          | inl good ↦
              let p = received url tmp target expected fs in
              let (fed, ctx, written) = transfer-Tracked url laws in
              let (same, moved) =
                install_ok (hex (Md5.md5_final m p.context)) tmp target expected
                  (written_fs url tmp target expected fs) fs'
                  (sym (download_written url tmp target expected fs opened good) ∙ h) ok in
              let digest : Md5.md5_final m p.context ≡ digests.md5 p.content =
                ap (Md5.md5_final m) ctx ∙ digests.final_fed fed ∙ ap digests.md5 (written good) in
              (
                p.content,
                lookup-rename tmp target (written_fs url tmp target expected fs) fs' moved
                    ∙ lookup_same tmp (file (flushed p.content)) fs,
                subst (λ d. iequals (hex d) expected ≡ true) digest same,
              )
        ]
      ]

  install_error :
      (checksum tmp target expected : Bytes) (fs fs' : Fs) {s : Status}
      → install m c accepts iequals flushed checksum tmp target expected fs ≡ (s, fs')
      → is_ok s ≡ false
      → fs' ≡ fs
  unfolding install
  install_error checksum tmp target expected fs fs' h bad =
      elim (Bool-cases (iequals checksum expected)) [
        | inr differ ↦ sym (ap (λ r. r.1) (rw differ at h))
        | inl same ↦ elim (Option-cases (rename tmp target fs)) [
          | inl e ↦ sym (ap (λ r. r.1) (rw (same, e) at h))
          | inr (fs₁, e) ↦
              let q : is_ok ok_status ≡ false = ap (λ r. is_ok r.0) (rw (same, e) at h) ∙ bad in
              absurd (unfold is_ok in cc q)
        ]
      ]

  -- A download that does not return OK has changed nothing but the temporary file: what stood at the
  -- target is still there.
  pub download_error :
      (url tmp target expected : Bytes) (fs fs' : Fs) {s : Status} (j : Bytes)
      → download m c accepts iequals flushed url tmp target expected fs ≡ (s, fs')
      → is_ok s ≡ false
      → j ≢ tmp
      → Dict.lookup j fs' ≡ Dict.lookup j fs
  download_error url tmp target expected fs fs' j h bad differ =
      elim (Bool-cases (can_write tmp fs)) [
        | inr closed ↦
            let (_, e) = download_closed url tmp target expected fs closed in
            ap (Dict.lookup j) (sym (ap (λ r. r.1) h) ∙ e)
        | inl opened ↦ elim (Bool-cases (is_ok (received url tmp target expected fs).status)) [
          | inr failed ↦
              let e = sym (download_failed url tmp target expected fs opened failed) ∙ h in
              ap (Dict.lookup j) (sym (ap (λ r. r.1) e)) ∙ lookup_other tmp j _ fs differ
          | inl good ↦
              let e = sym (download_written url tmp target expected fs opened good) ∙ h in
              ap (Dict.lookup j) (install_error _ tmp target expected _ fs' e bad)
              ∙ lookup_other tmp j _ fs differ
        ]
      ]
