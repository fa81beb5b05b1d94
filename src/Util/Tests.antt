-- ===== src/Util/Tests.antt =====
-- Runs of the digest and of a download, and their theorems at concrete data.
use sr_scanner_demo.Base.{
  Bool, true, false, [], ◌∷◌, ◌++◌, ◌≡◌, ◌≢◌, refl, Bytes, codes, bytes_eq, bytes_eq_iff,
}
use sr_scanner_demo.Base.Dict
use sr_scanner_demo.Base.Find.{find_last_of}
use sr_scanner_demo.Status.{Status, ok_status, internal_error, is_ok}
use sr_scanner_demo.Fs.{file, directory, Fs, can_write}
use sr_scanner_demo.Http.Curl.{Curl}
use sr_scanner_demo.Http.Client.{init, execute, on_response_data}
use sr_scanner_demo.Http.Curl.Sample.{two_pieces, perform_sent}
use sr_scanner_demo.Util.Md5.{hex}
use sr_scanner_demo.Util.Md5.Sample.{small}
use sr_scanner_demo.Util.Download.{Progress, download, transfer, install, rename, download_cb}
use sr_scanner_demo.Util.Download.Laws.{download_error}

hex_run : hex (171 ∷ 7 ∷ []) ≡ codes "ab07"
unfolding hex
hex_run = refl

abbrev curl : Curl (Progress small)
curl = two_pieces (Progress small)

abbrev accepts : Bytes → Bytes → Bool
accepts content d = true

-- `fclose` writes out all.
abbrev whole : Bytes → Bytes
whole content = content

abbrev disk : Fs
disk = (codes "lib", directory) ∷ (codes "lib/a.jar", file (codes "old")) ∷ []

get : Bytes → Fs → Status × Fs
unfolding download transfer install rename init execute on_response_data perform_sent can_write
    Dict.lookup Dict.insert Dict.erase find_last_of download_cb is_ok hex
get checksum fs =
    download small curl accepts bytes_eq whole (codes "u") (codes "lib/a.tmp") (codes "lib/a.jar")
      checksum fs

abbrev installed : Fs
installed = (codes "lib", directory) ∷ (codes "lib/a.jar", file (codes "abc")) ∷ []

abbrev left : Fs
left = disk ++ (codes "lib/a.tmp", file (codes "abc")) ∷ []

get_bad :
    download small curl accepts bytes_eq whole
      (codes "u")
      (codes "lib/a.tmp")
      (codes "lib/a.jar")
      (codes "27")
      disk
    ≡ (internal_error (codes "Download file's checksum is not match"), left)
unfolding get
get_bad = refl

-- The disk takes one byte of what `fclose` writes out.
abbrev short : Bytes → Bytes
short [] = []
short (b ∷ content) = b ∷ []

abbrev cut_short : Fs
cut_short = (codes "lib", directory) ∷ (codes "lib/a.jar", file (codes "a")) ∷ []

get_short :
    download small curl accepts bytes_eq short
      (codes "u")
      (codes "lib/a.tmp")
      (codes "lib/a.jar")
      (codes "26")
      disk
    ≡ (ok_status, cut_short)
unfolding download transfer install rename init execute on_response_data perform_sent can_write
    Dict.lookup Dict.insert Dict.erase find_last_of download_cb is_ok hex
get_short = refl

bad_is_bad : is_ok (internal_error (codes "Download file's checksum is not match")) ≡ false
unfolding is_ok internal_error
bad_is_bad = refl

differ : (a b : Bytes) → bytes_eq a b ≡ false → a ≢ b
differ a b h e = let q = (bytes_eq_iff a b).1 e in cc (q, h)

download_error_example : Dict.lookup (codes "lib/a.jar") left ≡ Dict.lookup (codes "lib/a.jar") disk
unfolding bytes_eq
download_error_example =
    download_error small curl accepts bytes_eq whole (codes "u") (codes "lib/a.tmp")
      (codes "lib/a.jar") (codes "27") disk left (codes "lib/a.jar") get_bad bad_is_bad
      (differ _ _ refl)
