-- ===== src/Fs/Tests.antt =====
-- Runs of the file helpers, and their theorems at concrete data.
use sr_scanner_demo.Base.{[], ◌∷◌, ◌++◌, ◌≡◌, refl, codes, done, throws, fault, no_return}
use sr_scanner_demo.Base.Dict
use sr_scanner_demo.Base.Find.{find_last_of}
use sr_scanner_demo.Fs.{
  file, directory, Fs, delete_file, has_entries, can_write, create_directory, read_file, write_file,
  append_to_file, delete_directory, get_directory_size, add_sizes, directory_exists, file_exists,
  remove_all, is_under,
}

abbrev disk : Fs
disk = (codes "lib", directory) ∷ (codes "lib/a.jar", file (codes "jar")) ∷ []

abbrev emptied : Fs
emptied = (codes "lib", directory) ∷ []

abbrev grown : Fs
grown = (codes "lib", directory) ∷ (codes "lib/a.jar", file (codes "jar2")) ∷ []

deleted : delete_file (codes "lib/a.jar") disk ≡ fault no_return
unfolding delete_file Dict.lookup
deleted = refl

not_empty : delete_file (codes "lib") disk ≡ throws (codes "filesystem error")
unfolding delete_file has_entries Dict.lookup find_last_of
not_empty = refl

made :
    create_directory (codes "lib/b/c") disk
    ≡ done (disk ++ (codes "lib/b", directory) ∷ (codes "lib/b/c", directory) ∷ [])
unfolding create_directory Dict.lookup Dict.insert
made = refl

written : write_file (codes "lib/a.jar") (codes "jar2") disk ≡ done grown
unfolding write_file can_write Dict.lookup Dict.insert find_last_of
written = refl

read_back : read_file (codes "lib/a.jar") disk ≡ done (codes "jar")
unfolding read_file Dict.lookup
read_back = refl

appended : append_to_file (codes "lib/a.jar") (codes "2") disk ≡ done grown
unfolding append_to_file can_write Dict.lookup Dict.insert find_last_of
appended = refl

sized : get_directory_size (codes "lib") disk ≡ done 3
unfolding get_directory_size add_sizes directory_exists Dict.lookup
sized = refl

deleted_directory : delete_directory (codes "lib") disk ≡ done []
unfolding delete_directory file_exists remove_all is_under Dict.lookup
deleted_directory = refl
