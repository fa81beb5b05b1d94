-- ===== src/Driver/Manager/Kept.antt =====
-- What later calls of `get_driver_location` of be/runtime/jdbc_driver_manager.cpp, with their downloads, do to
-- the driver files that are there.
use mathlib.Core.Path.{subst}
use sr_scanner_demo.Base.{
  Bool, true, some, List, [], ◌∷◌, ◌++◌, All, ◌≡◌, ◌≢◌, inl, inr, refl, sym, ap, ◌∙◌, ◌+◌, ℕ, Bytes,
  append_assoc, get_elem?, bytes_eq, bytes_eq_iff, done, done-injective, >>=-eq-done, Bool-cases,
  ==_iff,
}
use sr_scanner_demo.Base.Dict
use sr_scanner_demo.Status.{Status, ok_status, is_ok}
use sr_scanner_demo.Fs.{file, Fs}
use sr_scanner_demo.Fs.Suffix.{ends_with_iff, ends_with_other}
use sr_scanner_demo.Http.Curl.{Curl, IsLawful}
use sr_scanner_demo.Util.Md5.{Md5, IsMd5, hex}
use sr_scanner_demo.Util.Download
use sr_scanner_demo.Util.Download.{Progress}
use sr_scanner_demo.Util.Download.Laws.{download_ok, download_error}
use sr_scanner_demo.Util.Download.Frame.{download_frame}
use sr_scanner_demo.Driver.FileName.{jar_file_suffix, tmp_file_suffix}
use sr_scanner_demo.Driver.FileName.Injective.{generate_driver_location-injective}
use sr_scanner_demo.Driver.Manager.{
  Entry, Manager, set_entry, fresh_entry, Reserved, ready, pending, mark_downloaded, tmp_file_of,
  download_driver, finish, get_driver_location,
}
use sr_scanner_demo.Driver.Manager.Invariant.{IsValid, get_elem?-set}
use sr_scanner_demo.Driver.Manager.Location.{entry_at_here, reserve_lem, Reserves}
use sr_scanner_demo.Driver.Manager.Answer.{get_driver_location_total}
use sr_scanner_demo.Driver.Manager.Restart.{driver_file_name-jar}
use sr_scanner_demo.Driver.Manager.Every.{Every, set_entry-Every, reserve-Every}
use sr_scanner_demo.Driver.Manager.Registry.{Call}
use sr_scanner_demo.Driver.Manager.Registry.Refinement.{get_all}
use sr_scanner_demo.Driver.Manager.Interleaving.Files.{
  IsPlaced, IsPlainCall, mark-IsPlaced, downloaded-IsPlaced,
}

jar_not_tmp_file : (s t : Bytes) → s ++ jar_file_suffix ≢ t ++ tmp_file_suffix
jar_not_tmp_file s t h =
    let q = (ends_with_iff (t ++ tmp_file_suffix) tmp_file_suffix).1 (t, refl) in
    cc (q, h, ends_with_other s)

-- The file of a driver is no driver's temporary file.
location_not_tmp_file :
    (dir : Bytes) (e f : Entry) (m : Manager) → IsPlaced dir e → e.location ≢ tmp_file_of m f
location_not_tmp_file dir e f m p h =
    let (s, q) = driver_file_name-jar e.name e.checksum e.first_access_ts in
    let jar : e.location ≡ (dir ++ b'/' ∷ s) ++ jar_file_suffix =
      p.located ∙ ap (λ t. dir ++ b'/' ∷ t) q ∙ sym (append_assoc dir (b'/' ∷ s) jar_file_suffix) in
    let tmp : tmp_file_of m f
        ≡ (m.driver_dir ++ b'/' ∷ (f.name ++ b'_' ∷ f.checksum)) ++ tmp_file_suffix =
      simp append_assoc in
    jar_not_tmp_file (dir ++ b'/' ∷ s) (m.driver_dir ++ b'/' ∷ (f.name ++ b'_' ∷ f.checksum))
      (sym jar ∙ h ∙ tmp)

-- The file system, and how many downloads were made.
abbrev World : Type 0
World = Fs × ℕ

-- Each download has a network, a disk and an `fclose` of its own.
module _ (md5 : Md5) (c : ℕ → Curl (Progress md5)) (accepts : ℕ → Bytes → Bytes → Bool)
    (iequals : Bytes → Bytes → Bool) (flushed : ℕ → Bytes → Bytes) (laws : (n : ℕ) → IsLawful (c n))
    (digests : IsMd5 md5) (dir : Bytes) where
  abbrev pub nth_download : ℕ → Bytes → Bytes → Bytes → Bytes → Fs → Status × Fs
  nth_download n = Download.download md5 (c n) (accepts n) iequals (flushed n)

  abbrev pub downloads : Bytes → Bytes → Bytes → Bytes → World → Status × World
  downloads url tmp_file target_file checksum w =
      let (status, fs) = nth_download w.1 url tmp_file target_file checksum w.0 in
      (status, (fs, w.1 + 1))

  -- At the entry's location stands a file with what the `fclose` of some download wrote out of bytes
  -- whose digest is the entry's checksum.
  abbrev pub IsStored : Entry → World → Type 0
  IsStored e w =
      (n : ℕ) × (content : Bytes) × (Dict.lookup e.location w.0 ≡ some (file (flushed n content)))
      × (iequals (hex (digests.md5 content)) e.checksum ≡ true)

  -- A download for an entry leaves the files of all.
  download-IsStored :
      (url : Bytes) (e f : Entry) (m : Manager) (w : World)
      → IsPlaced dir e
      → IsPlaced dir f
      → IsStored e w
      → IsStored e (downloads url (tmp_file_of m f) f.location f.checksum w).1
  download-IsStored url e f m (fs, k) pe pf (n, content, there, good) =
      let tmp = tmp_file_of m f in
      let r = nth_download k url tmp f.location f.checksum fs in
      let apart = location_not_tmp_file dir e f m pe in
      elim (Bool-cases (bytes_eq e.location f.location)) [
        | inl eq ↦
            let same = (bytes_eq_iff e.location f.location).0 eq in
            elim (Bool-cases (is_ok r.0)) [
              | inl ok ↦
                  let (content', there', good') =
                    download_ok md5 (c k) (accepts k) iequals (flushed k) (laws k) digests url tmp
                      f.location f.checksum fs r.1 refl ok in
                  let (_, checksums, _) =
                    generate_driver_location-injective dir e.name f.name e.checksum f.checksum
                      e.first_access_ts f.first_access_ts pe.plain pf.plain pe.timed pf.timed
                      (sym pe.located ∙ same ∙ pf.located) in
                  (
                    k,
                    content',
                    ap (λ p. Dict.lookup p r.1) same ∙ there',
                    ap (iequals (hex (digests.md5 content'))) checksums ∙ good',
                  )
              | inr bad ↦ (
                n,
                content,
                download_error md5 (c k) (accepts k) iequals (flushed k) url tmp f.location
                      f.checksum fs r.1 e.location refl bad apart
                    ∙ there,
                good,
              )
            ]
        | inr differ ↦ (
          n,
          content,
          download_frame md5 (c k) (accepts k) iequals (flushed k) url tmp f.location f.checksum
                e.location fs apart (λ q. cc (differ, (bytes_eq_iff e.location f.location).1 q))
              ∙ there,
          good,
        )
      ]

  -- A manager that works in the directory, with entries that have their generated locations.
  abbrev pub IsHome : Manager → Type 0
  IsHome m = Every (IsPlaced dir) m × (m.driver_dir ≡ dir)

  -- What a download step leaves.
  abbrev Leaves : Entry → World → Manager × World → Type 0
  Leaves e w p = IsHome p.0 × (IsStored e w → IsStored e p.1)

  -- `finish` behind a download step.
  finish_with :
      (url : Bytes) (id : ℕ) (e' : Entry) (m n : Manager) (w w' : World)
      → download_driver downloads url id m w ≡ done (n, w')
      → get_elem? n.heap id ≡ some e'
      → finish downloads url (pending id) m w ≡ done (ok_status, e'.location, n, w')
  unfolding finish
  finish_with url id e' m n w w' downloaded here =
      rw (downloaded, finish) (rw (entry_at_here id e' n here) refl)

  pending-Leaves :
      (url : Bytes) (id : ℕ) (f e : Entry) (m : Manager) (w : World)
      (r : Status × Bytes × Manager × World)
      → get_elem? m.heap id ≡ some f
      → IsHome m
      → IsPlaced dir e
      → finish downloads url (pending id) m w ≡ done r
      → Leaves e w (r.2, r.3)
  unfolding download_driver
  pending-Leaves url id f e m w r here (every, home) pe h =
      let at_entry = entry_at_here id f m here in
      elim (Bool-cases f.is_downloaded) [
        | inl d ↦
            let downloaded : download_driver downloads url id m w ≡ done (m, w) =
              rw (at_entry, download_driver) (rw d refl) in
            subst (λ q. Leaves e w (q.2, q.3))
              (done-injective _ r (sym (finish_with url id f m m w w downloaded here) ∙ h))
              ((every, home), λ s. s)
        | inr d ↦
            let n = set_entry id (mark_downloaded f) m in
            let w' = (downloads url (tmp_file_of m f) f.location f.checksum w).1 in
            let downloaded : download_driver downloads url id m w ≡ done (n, w') =
              rw (at_entry, download_driver) (rw d refl) in
            let there =
              get_elem?-set m.heap id id (mark_downloaded f) f here
              ∙ rw ((==_iff id id).1 refl) refl in
            let pf = every id f here in
            subst (λ q. Leaves e w (q.2, q.3))
              (done-injective _ r
                (sym (finish_with url id (mark_downloaded f) m n w w' downloaded there) ∙ h))
              (
                (
                  set_entry-Every (IsPlaced dir) id f (mark_downloaded f) m here
                      (downloaded-IsPlaced dir f pf) every,
                  home,
                ),
                download-IsStored url e f m w pe pf,
              )
      ]

  finish-Leaves :
      (name checksum url : Bytes) (r : Reserved) (e : Entry) (m : Manager) (w : World)
      (q : Status × Bytes × Manager × World)
      → Reserves name checksum r m
      → IsHome m
      → IsPlaced dir e
      → finish downloads url r m w ≡ done q
      → Leaves e w (q.2, q.3)
  unfolding finish
  finish-Leaves name checksum url (ready l) e m w q kept home pe h =
      subst (λ x. Leaves e w (x.2, x.3)) (done-injective (ok_status, l, m, w) q h) (home, λ s. s)
  finish-Leaves name checksum url (pending id) e m w q (valid, (f, current)) home pe h =
      pending-Leaves url id f e m w q current.here home pe h

  call-Leaves :
      (k : Call) (e : Entry) (m : Manager) (w : World) (q : Status × Bytes × Manager × World)
      → IsPlainCall k
      → IsValid m
      → IsHome m
      → IsPlaced dir e
      → get_driver_location downloads k.name k.url k.checksum k.now m w ≡ done q
      → Leaves e w (q.2, q.3) × IsValid q.2
  unfolding get_driver_location
  call-Leaves k e m w q (plain, timed) v (every, home) pe h =
      let (m₁, r, reserved, kept) = reserve_lem k.name k.checksum k.now m v in
      let fresh : IsPlaced dir (fresh_entry dir k.name k.checksum k.now) = record {
        located = refl;
        plain = plain;
        timed = timed;
      } in
      let home₁ =
        reserve-Every (IsPlaced dir) dir k.name k.checksum k.now fresh (mark-IsPlaced dir) m m₁ r
          reserved every home in
      let (l, n, u, whole, v', _) =
        get_driver_location_total downloads k.name k.url k.checksum k.now m w v in
      (
        finish-Leaves k.name k.checksum k.url r e m₁ w q kept home₁ pe
            (rw (reserved, get_driver_location) at h),
        subst (λ x. IsValid x.2) (done-injective _ q (sym whole ∙ h)) v',
      )

  -- Where libcurl and MD5 keep their laws, each download having a network, a disk and an `fclose` of its
  -- own: where the location of a driver whose checksum has no underscore holds what an `fclose` wrote out of
  -- bytes with that checksum for their digest, it does so after any sequence of calls, of the same driver or
  -- of others, on a valid manager whose entries have their generated locations, if the checksums of the calls
  -- have no underscore and all times are int64_t.
  pub get_all-IsStored :
      (ks : List Call) (e : Entry) (m m' : Manager) (w w' : World) (locations : List Bytes)
      → All IsPlainCall ks
      → IsValid m
      → IsHome m
      → IsPlaced dir e
      → get_all downloads ks m w ≡ done (locations, m', w')
      → IsStored e w
      → IsStored e w'
  get_all-IsStored [] e m m' w w' locations plain v home pe h s =
      subst (IsStored e) (ap (λ p. p.2) (done-injective ([], m, w) (locations, m', w') h)) s
  get_all-IsStored (k ∷ ks) e m m' w w' locations (plain, plains) v home pe h s =
      let (q, first, rest) =
        >>=-eq-done (get_driver_location downloads k.name k.url k.checksum k.now m w) _ h in
      let (p, others, last) = >>=-eq-done (get_all downloads ks q.2 q.3) _ rest in
      let ((home', kept), v') = call-Leaves k e m w q plain v home pe first in
      let same = ap (λ x. x.2) (done-injective _ (locations, m', w') last) in
      subst (IsStored e) same
        (get_all-IsStored ks e q.2 p.1 q.3 p.2 p.0 plains v' home' pe others (kept s))
