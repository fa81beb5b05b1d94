-- ===== src/Driver/FileName/Injective.antt =====
-- Driver files of be/runtime/jdbc_driver_manager.cpp for different drivers have different paths.
use mathlib.Core.Option.{some-injective}
use sr_scanner_demo.Base.{◌∷◌, ◌++◌, ◌≡◌, sym, ap, ◌∙◌, Bytes, Lacks, length, drop, ◌+◌}
use sr_scanner_demo.Base.Int.{ℤ, InInt64}
use sr_scanner_demo.Base.Decimal.{to_string, stol, stol-to_string, to_string-Lacks}
use sr_scanner_demo.Base.Find.{drop-append_suc, remove_suffix, remove_suffix-append}
use sr_scanner_demo.Driver.FileName.{
  jar_file_suffix, driver_file_name, generate_driver_location, split_last_field,
}
use sr_scanner_demo.Driver.FileName.RoundTrip.{split_last_field-append, driver_file_name-fields}

-- The parts of a text at an underscore behind which there is no other.
same_fields :
    (xs xs' ys ys' : Bytes)
    → Lacks b'_' ys
    → Lacks b'_' ys'
    → xs ++ b'_' ∷ ys ≡ xs' ++ b'_' ∷ ys'
    → (xs ≡ xs') × (ys ≡ ys')
same_fields xs xs' ys ys' l l' e =
    let p : (xs, ys) ≡ (xs', ys') = some-injective _ _ (
      sym (split_last_field-append xs ys l)
      ∙ ap split_last_field e
      ∙ split_last_field-append xs' ys' l') in
    (ap (λ q. q.0) p, ap (λ q. q.1) p)

-- In one directory, two drivers whose checksums have no underscore and whose times are int64_t have the
-- same location only if they have the same name, checksum and time, also where names have underscores.
pub generate_driver_location-injective :
    (dir name name' checksum checksum' : Bytes) (ts ts' : ℤ)
    → Lacks b'_' checksum
    → Lacks b'_' checksum'
    → InInt64 ts
    → InInt64 ts'
    → generate_driver_location dir name checksum ts
      ≡ generate_driver_location dir name' checksum' ts'
    → (name ≡ name') × (checksum ≡ checksum') × (ts ≡ ts')
generate_driver_location-injective dir name name' checksum checksum' ts ts' l l' r r' e =
    let file : driver_file_name name checksum ts ≡ driver_file_name name' checksum' ts' =
      sym (drop-append_suc b'/' dir (driver_file_name name checksum ts))
      ∙ ap (drop (length dir + 1)) e
      ∙ drop-append_suc b'/' dir (driver_file_name name' checksum' ts') in
    let fields = (name ++ b'_' ∷ checksum) ++ b'_' ∷ to_string ts in
    let fields' = (name' ++ b'_' ∷ checksum') ++ b'_' ∷ to_string ts' in
    let same : fields ≡ fields' =
      sym (remove_suffix-append fields jar_file_suffix)
      ∙ ap (remove_suffix (length jar_file_suffix)) (
          sym (driver_file_name-fields name checksum ts)
          ∙ file
          ∙ driver_file_name-fields name' checksum' ts')
      ∙ remove_suffix-append fields' jar_file_suffix in
    let (front, times) =
      same_fields (name ++ b'_' ∷ checksum) (name' ++ b'_' ∷ checksum') (to_string ts)
        (to_string ts') (to_string-Lacks ts) (to_string-Lacks ts') same in
    let (names, checksums) = same_fields name name' checksum checksum' l l' front in
    (
      names,
      checksums,
      some-injective ts ts' (sym (stol-to_string ts r) ∙ ap stol times ∙ stol-to_string ts' r'),
    )
