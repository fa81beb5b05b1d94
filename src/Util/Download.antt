-- ===== src/Util/Download.antt =====
-- be/util/download_util.{h,cpp}: `DownloadUtil::download`. libcurl, MD5, `boost::iequals`, the room
-- on the disk and what `fclose` writes out are parameters.
pub mod Laws
pub mod Frame
use sr_scanner_demo.Base.{
  ◌+◌, Bool, true, false, not, Option, none, some, [], ◌∷◌, ◌++◌, Bytes, codes, ◌==◌, bytes_eq,
  if◌then◌else◌,
}
use sr_scanner_demo.Base.Dict
use sr_scanner_demo.Status.{Status, ok_status, internal_error, is_ok}
use sr_scanner_demo.Fs.{file, Fs, can_write, fwrite}
use sr_scanner_demo.Http.Curl.{Curl}
use sr_scanner_demo.Http.Client
use sr_scanner_demo.Http.Client.{new_client}
use sr_scanner_demo.Util.Md5.{Md5, hex}

-- What the write callback changes: `status`, the digest's context, and the bytes behind `fp`.
pub record Progress (m : Md5) : Type 0 where
  pub status : Status
  pub context : Md5.Context m
  pub content : Bytes

-- `rename`: `none` is a result other than 0.
unfoldable pub rename : Bytes → Bytes → Fs → Option Fs
unfolding can_write
rename from to fs = elim (Dict.lookup from fs) [
  | none ↦ none
  | some n ↦
      if bytes_eq from to
      then some fs
      else if can_write to fs
      then some (Dict.insert to n (Dict.erase from fs))
      else none
]

abbrev pub not_opened : Status
not_opened = internal_error (codes "fail to open tmp file when downloading file from {}")

module _ (m : Md5) (c : Curl (Progress m)) (accepts : Bytes → Bytes → Bool)
    (iequals : Bytes → Bytes → Bool) (flushed : Bytes → Bytes) where
  -- `download_cb`
  unfoldable pub download_cb : Bytes → Bytes → Progress m → Bool × Progress m
  download_cb url d p =
      let q : Progress m = record p { context = Md5.md5_update m p.context d } in
      if fwrite accepts p.content d == 1 then (true, record q { content = p.content ++ d }) else (
        false,
        record q {
          status = internal_error (codes "file to write data when downloading file from " ++ url);
        },
      )

  abbrev pub start : Progress m
  start = record { status = ok_status; context = Md5.md5_init m; content = [] }

  -- `client.init(url); client.execute(download_cb);`, the status of neither being read.
  unfoldable pub transfer : Bytes → Progress m
  transfer url =
      let (_, client) = Client.init c url (new_client c) in
      (Client.execute c (some (download_cb url)) client start).2

  -- From `digest.digest()` on, with the temporary file written.
  unfoldable pub install : Bytes → Bytes → Bytes → Bytes → Fs → Status × Fs
  unfolding rename
  install checksum tmp_file target_file expected_checksum fs =
      if not (iequals checksum expected_checksum)
      then (internal_error (codes "Download file's checksum is not match"), fs)
      else elim (rename tmp_file target_file fs) [
        | some fs' ↦ (ok_status, fs')
        | none ↦ (
          internal_error
              (codes "fail to rename file from" ++ tmp_file ++ codes " to " ++ target_file),
          fs,
        )
      ]

  -- From `Md5Digest digest` on. The temporary file is made by `fopen`. `fclose` runs where the function
  -- returns, in the DeferOp, and its result is not read: `flushed` of what `fwrite` took is in the file
  -- then, also under its new name, which need not be all of it.
  abbrev pub fetch : Bytes → Bytes → Bytes → Bytes → Fs → Status × Fs
  fetch url tmp_file target_file expected_checksum fs =
      let p = transfer url in
      let fs' = Dict.insert tmp_file (file (flushed p.content)) fs in
      if not (is_ok p.status)
      then (p.status, fs')
      else install (hex (Md5.md5_final m p.context)) tmp_file target_file expected_checksum fs'

  -- `download`
  unfoldable pub download : Bytes → Bytes → Bytes → Bytes → Fs → Status × Fs
  download url tmp_file target_file expected_checksum fs =
      if not (can_write tmp_file fs)
      then (not_opened, fs)
      else fetch url tmp_file target_file expected_checksum fs
