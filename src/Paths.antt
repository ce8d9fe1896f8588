-- ===== src/Paths.antt =====
-- internal/pathutil/pathutil.go. A path is the list of its bytes. `strings.TrimRight`, `Trim` and
-- `LastIndex` at one-byte arguments are written out as the Go library documents them.
pub mod Trim
pub mod Split
mod Examples
use pentaract.Prelude.{
  ℕ, zero, suc, Bool, true, false, ◌&&◌, Option, none, some, List, [], ◌∷◌, ◌++◌, ◌==◌,
  if◌then◌else◌, bytes, take, drop,
}

abbrev pub slash : ℕ
slash = b'/'

abbrev pub dot : ℕ
dot = b'.'

abbrev pub is_empty {ℓ} : {A : Type ℓ} → List A → Bool
is_empty [] = true
is_empty (_ ∷ _) = false

-- strings.TrimLeft(s, "/")
pub trim_left : List ℕ → List ℕ
trim_left [] = []
trim_left (c ∷ s) = if c == slash then trim_left s else c ∷ s

-- strings.TrimRight(s, "/")
unfoldable pub trim_trailing_slash : List ℕ → List ℕ
trim_trailing_slash [] = []
trim_trailing_slash (c ∷ s) =
    let rest = trim_trailing_slash s in if is_empty rest && c == slash then [] else c ∷ rest

-- strings.Trim(s, "/")
unfoldable pub trim : List ℕ → List ℕ
unfolding trim_left trim_trailing_slash
trim s = trim_trailing_slash (trim_left s)

unfoldable pub dir_prefix : List ℕ → List ℕ
unfolding trim_trailing_slash
dir_prefix [] = []
dir_prefix (c ∷ s) = trim_trailing_slash (c ∷ s) ++ slash ∷ []

-- The switch of `Join`, over the trimmed segments.
join_trimmed : List ℕ → List ℕ → List ℕ
join_trimmed [] name = name
join_trimmed (b ∷ base) [] = b ∷ base
join_trimmed (b ∷ base) (n ∷ name) = (b ∷ base) ++ (slash ∷ n ∷ name)

unfoldable pub join : List ℕ → List ℕ → List ℕ
unfolding join_trimmed trim
join base name = join_trimmed (trim base) (trim name)

-- strings.LastIndex(s, c) for a one-byte c; `none` is -1.
unfoldable pub last_index : ℕ → List ℕ → Option ℕ
last_index c [] = none
last_index c (x ∷ s) = elim (last_index c s) [
  | some i ↦ some (suc i)
  | none ↦ if x == c then some 0 else none
]

-- What follows the last slash of the trimmed path, if it has one.
archive_base : List ℕ → Option ℕ → List ℕ
archive_base trimmed (some idx) = drop (suc idx) trimmed
archive_base trimmed none = trimmed

unfoldable pub archive_name : List ℕ → List ℕ
unfolding trim last_index archive_base
archive_name path =
    let trimmed = trim path in
    if is_empty trimmed then bytes "files" else archive_base trimmed (last_index slash trimmed)

unfoldable pub split_dir_and_file : List ℕ → List ℕ × List ℕ
unfolding last_index
split_dir_and_file path = elim (last_index slash path) [
  | some idx ↦ (take (suc idx) path, drop (suc idx) path)
  | none ↦ ([], path)
]

-- A leading dot (index 0) starts no extension.
unfoldable pub split_name_and_extension : List ℕ → List ℕ × List ℕ
unfolding last_index
split_name_and_extension filename = elim (last_index dot filename) [
  | some (suc i) ↦ (take (suc i) filename, drop (suc i) filename)
  | some zero ↦ (filename, [])
  | none ↦ (filename, [])
]
