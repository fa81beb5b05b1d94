-- ===== src/Driver/FileName.antt =====
-- be/runtime/jdbc_driver_manager.cpp: the names of driver files,
-- ${name}_${checksum}_${first_access_ts}.jar, written and parsed.
pub mod RoundTrip
pub mod Injective
use sr_scanner_demo.Base.{◌+◌, Option, none, some, ◌∷◌, ◌++◌, Bytes, codes, length, drop}
use sr_scanner_demo.Base.Int.{ℤ}
use sr_scanner_demo.Base.Decimal.{to_string, stol}
use sr_scanner_demo.Base.Find.{find_last_of, remove_suffix}

infixl 5 ◌>>=◌
abbrev ◌>>=◌ {ℓ κ} : {A : Type ℓ} {B : Type κ} → Option A → (A → Option B) → Option B
none >>= f = none
some a >>= f = f a

abbrev pub jar_file_suffix : Bytes
jar_file_suffix = codes ".jar"

abbrev pub tmp_file_suffix : Bytes
tmp_file_suffix = codes ".tmp"

-- `_generate_driver_location`, from behind the directory and its slash.
abbrev pub driver_file_name : Bytes → Bytes → ℤ → Bytes
driver_file_name name checksum first_access_ts =
    name ++ b'_' ∷ (checksum ++ b'_' ∷ (to_string first_access_ts ++ jar_file_suffix))

abbrev pub generate_driver_location : Bytes → Bytes → Bytes → ℤ → Bytes
generate_driver_location driver_dir name checksum first_access_ts =
    driver_dir ++ b'/' ∷ driver_file_name name checksum first_access_ts

-- What is left of a text, and the field behind its last underscore:
-- `pos = find_last_of('_')`, `str = substr(pos + 1)`, `remove_suffix(str.size() + 1)`.
unfoldable pub split_last_field : Bytes → Option (Bytes × Bytes)
split_last_field s = do
  pos ← find_last_of b'_' s
  let str = drop (pos + 1) s
  some (remove_suffix (length str + 1) s, str)

-- `none` is `return false`.
unfoldable pub parse_from_file_name : Bytes → Option (Bytes × Bytes × ℤ)
parse_from_file_name file_name = do
  (s, str) ← split_last_field (remove_suffix (length jar_file_suffix) file_name)
  first_access_ts ← stol str
  (name, checksum) ← split_last_field s
  pos ← find_last_of b'_' name
  some (name, checksum, first_access_ts)
