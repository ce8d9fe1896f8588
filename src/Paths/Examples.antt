-- ===== src/Paths/Examples.antt =====
-- Witnesses and tests of the path functions.
use pentaract.Prelude.{[], ◌∷◌, ◌++◌, ◌≡◌, refl, bytes, false}
use pentaract.Paths.{
  slash, trim, join, archive_name, dir_prefix, split_dir_and_file, split_name_and_extension,
  trim_trailing_slash,
}
use pentaract.Paths.Split.{
  IsDirSplit, IsNameSplit, split_dir_and_file-IsDirSplit, split_name_and_extension-IsNameSplit,
  contains,
}
use pentaract.Paths.Trim.{
  IsTrimmed, IsPlainName, join-IsTrimmed, join_assoc, split_dir_and_file-join, dir_prefix_shape,
  archive_name-IsPlainName, ends_with_slash,
}

join_test : join (bytes "/a/b/") (bytes "c") ≡ bytes "a/b/c"
unfolding join
join_test = refl

archive_test : archive_name (bytes "/a/b/") ≡ bytes "b"
unfolding archive_name
archive_test = refl

split_dir_and_file-IsDirSplit_run :
    IsDirSplit (bytes "a/b.txt") (split_dir_and_file (bytes "a/b.txt"))
split_dir_and_file-IsDirSplit_run = split_dir_and_file-IsDirSplit (bytes "a/b.txt")

split_name_and_extension-IsNameSplit_run :
    IsNameSplit (bytes "b.txt") (split_name_and_extension (bytes "b.txt"))
split_name_and_extension-IsNameSplit_run = split_name_and_extension-IsNameSplit (bytes "b.txt")

join-IsTrimmed_run : IsTrimmed (join (bytes "/a/") (bytes "b/"))
join-IsTrimmed_run = join-IsTrimmed (bytes "/a/") (bytes "b/")

join_assoc_run :
    join (join (bytes "a") (bytes "/")) (bytes "c")
    ≡ join (bytes "a") (join (bytes "/") (bytes "c"))
join_assoc_run = join_assoc (bytes "a") (bytes "/") (bytes "c")

split_dir_and_file-join_run :
    split_dir_and_file (join (bytes "/a/") (bytes "b"))
    ≡ (trim (bytes "/a/") ++ slash ∷ [], trim (bytes "b"))
unfolding trim
split_dir_and_file-join_run =
    split_dir_and_file-join (bytes "/a/") (bytes "b") (λ e. cc) (λ e. cc) (unfold contains in refl)

dir_prefix_shape_run :
    (dir_prefix (bytes "a//") ≡ trim_trailing_slash (bytes "a//") ++ slash ∷ [])
    × (ends_with_slash (trim_trailing_slash (bytes "a//")) ≡ false)
    × (dir_prefix (dir_prefix (bytes "a//")) ≡ dir_prefix (bytes "a//"))
dir_prefix_shape_run = dir_prefix_shape b'a' (bytes "//")

archive_name-IsPlainName_run : IsPlainName (archive_name (bytes "/a/b/"))
archive_name-IsPlainName_run = archive_name-IsPlainName (bytes "/a/b/")
