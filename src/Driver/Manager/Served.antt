-- ===== src/Driver/Manager/Served.antt =====
-- `get_driver_location` of be/runtime/jdbc_driver_manager.cpp together with `DownloadUtil::download` of
-- be/util/download_util.cpp: what stands on the disk at the location that is returned.
use sr_scanner_demo.Base.{
  true, false, none, some, ◌++◌, ◌∷◌, append_assoc, Bool, ◌≡◌, ◌≢◌, ◌⊎◌, inl, inr, refl, sym, ap,
  ◌∙◌, Bytes, length, done, Bool-cases,
}
use sr_scanner_demo.Base.Int.{ℤ}
use sr_scanner_demo.Base.Dict
use sr_scanner_demo.Status.{Status, ok_status, is_ok}
use sr_scanner_demo.Fs.{file, Fs}
use sr_scanner_demo.Fs.Suffix.{ends_with_iff, ends_with_other}
use sr_scanner_demo.Http.Curl.{Curl, IsLawful}
use sr_scanner_demo.Util.Md5.{Md5, IsMd5, hex}
use sr_scanner_demo.Util.Download
use sr_scanner_demo.Util.Download.{Progress}
use sr_scanner_demo.Util.Download.Laws.{download_ok, download_error}
use sr_scanner_demo.Driver.FileName.{generate_driver_location, jar_file_suffix, tmp_file_suffix}
use sr_scanner_demo.Driver.Manager.{
  Entry, Manager, set_entry, add_entry, fresh_entry, find_or_create, reserve, mark_downloaded,
  tmp_file_of, download_driver, finish, get_driver_location,
}
use sr_scanner_demo.Driver.Manager.Location.{entry_at_here, check_waiting, add_entry-IsCurrent}
use sr_scanner_demo.Driver.Manager.Answer.{rewrite-IsCurrent}
use sr_scanner_demo.Driver.Manager.Restart.{driver_file_name-jar}

module _ {W : Type 0} (download : Bytes → Bytes → Bytes → Bytes → W → Status × W)
    (name url checksum : Bytes) (now : ℤ) (m : Manager) (w : W) where
  abbrev fresh : Entry
  fresh = fresh_entry m.driver_dir name checksum now

  abbrev downloaded : W
  downloaded = (download url (tmp_file_of m fresh) fresh.location checksum w).1

  -- For a name that the manager does not know, the download is made, and its location returned.
  get_driver_location_new :
      Dict.lookup name m.entry_map ≡ none
      → get_driver_location download name url checksum now m w
        ≡ done (
          ok_status,
          fresh.location,
          set_entry (length m.heap) (mark_downloaded fresh) (add_entry name fresh m),
          downloaded,
        )
  unfolding get_driver_location reserve find_or_create finish download_driver
  get_driver_location_new e =
      let n = add_entry name fresh m in
      let id = length m.heap in
      let c = add_entry-IsCurrent fresh m in
      let c' = rewrite-IsCurrent name checksum id fresh n c in
      rw (e, get_driver_location, reserve, find_or_create)
        (rw (check_waiting name checksum now id fresh n c refl refl) (
          rw (entry_at_here id fresh n c.here) (
            rw (
              entry_at_here id (mark_downloaded fresh) (set_entry id (mark_downloaded fresh) n)
                c'.here))))

-- The temporary file of a driver is not its target.
location_not_tmp :
    (name checksum : Bytes) (now : ℤ) (m : Manager)
    → generate_driver_location m.driver_dir name checksum now
      ≢ tmp_file_of m (fresh_entry m.driver_dir name checksum now)
location_not_tmp name checksum now m h =
    let (p, e) = driver_file_name-jar name checksum now in
    let jar : generate_driver_location m.driver_dir name checksum now
        ≡ (m.driver_dir ++ b'/' ∷ p) ++ jar_file_suffix =
      ap (λ s. m.driver_dir ++ b'/' ∷ s) e
      ∙ sym (append_assoc m.driver_dir (b'/' ∷ p) jar_file_suffix) in
    let tmp : tmp_file_of m (fresh_entry m.driver_dir name checksum now)
        ≡ (m.driver_dir ++ b'/' ∷ (name ++ b'_' ∷ checksum)) ++ tmp_file_suffix =
      simp append_assoc in
    let q =
      (ends_with_iff (tmp_file_of m (fresh_entry m.driver_dir name checksum now)) tmp_file_suffix).1
        (_, tmp) in
    cc (q, h, jar, ends_with_other (m.driver_dir ++ b'/' ∷ p))

module _ (md5 : Md5) (c : Curl (Progress md5)) (accepts : Bytes → Bytes → Bool)
    (iequals : Bytes → Bytes → Bool) (flushed : Bytes → Bytes) where
  -- Where libcurl and MD5 keep their laws, a call for a name that the manager does not know returns
  -- OK. Either the download did, and a file stands at the location with what `fclose` wrote out of
  -- bytes whose digest is the checksum; or it failed, the status is OK all the same, and what stands at the location stood there before.
  pub get_driver_location_served :
      (laws : IsLawful c) (digests : IsMd5 md5) (name url checksum : Bytes) (now : ℤ) (m : Manager)
      (fs : Fs)
      → Dict.lookup name m.entry_map ≡ none
      → let location = generate_driver_location m.driver_dir name checksum now in
        let tmp_file = tmp_file_of m (fresh_entry m.driver_dir name checksum now) in
        (m' : Manager) × (fs' : Fs) × (get_driver_location
            (Download.download md5 c accepts iequals flushed)
            name
            url
            checksum
            now
            m
            fs
          ≡ done (ok_status, location, m', fs'))
        × (((is_ok
                  (Download.download md5 c accepts iequals flushed url tmp_file location checksum
                    fs).0
                ≡ true)
              × ((content : Bytes) × (Dict.lookup location fs' ≡ some (file (flushed content)))
                  × (iequals (hex (digests.md5 content)) checksum ≡ true)))
            ⊎ ((is_ok
                    (Download.download md5 c accepts iequals flushed url tmp_file location checksum
                      fs).0
                  ≡ false)
                × (Dict.lookup location fs' ≡ Dict.lookup location fs)))
  get_driver_location_served laws digests name url checksum now m fs unknown =
      let run = Download.download md5 c accepts iequals flushed in
      let location = generate_driver_location m.driver_dir name checksum now in
      let tmp_file = tmp_file_of m (fresh_entry m.driver_dir name checksum now) in
      let fs' = (run url tmp_file location checksum fs).1 in
      (
        _,
        _,
        get_driver_location_new run name url checksum now m fs unknown,
        elim (Bool-cases (is_ok (run url tmp_file location checksum fs).0)) [
          | inl good ↦ inl (
            good,
            download_ok md5 c accepts iequals flushed laws digests url tmp_file location checksum fs
                fs' refl good,
          )
          | inr bad ↦ inr (
            bad,
            download_error md5 c accepts iequals flushed url tmp_file location checksum fs fs'
                location refl bad (location_not_tmp name checksum now m),
          )
        ],
      )
