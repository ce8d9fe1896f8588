-- ===== src/Files/Naming.antt =====
-- `CreateFileAnyway` of internal/repository/files.go: a free name for a new file. `\d` is an ASCII digit.
use pentaract.Prelude.{
  ℕ, zero, suc, ◌+◌, ◌/◌, ◌%◌, Bool, true, false, ◌&&◌, ◌||◌, none, some, List, [], ◌∷◌, ◌++◌, ◌==◌,
  if◌then◌else◌, ltb, leb, bytes, bytes_eq, length,
}
use pentaract.Domain.{File}
use pentaract.Paths.{split_dir_and_file, split_name_and_extension}
use pentaract.Files.{Tables}
use pentaract.Files.Like.{strip}

-- A number as text. The fuel bounds the digits.
unfoldable pub decimal_from : ℕ → ℕ → List ℕ
decimal_from zero n = []
decimal_from (suc fuel) n =
    let rest = decimal_from fuel (n / 10) in
    if ltb n 10 then (b'0' + n) ∷ [] else rest ++ (b'0' + n % 10) ∷ []

unfoldable pub decimal : ℕ → List ℕ
unfolding decimal_from
decimal n = decimal_from (suc n) n

unfoldable pub is_digit : ℕ → Bool
is_digit c = leb b'0' c && leb c b'9'

-- Digits, one at least unless some were seen, then `)` and the extension up to the end.
unfoldable pub closes : Bool → List ℕ → List ℕ → Bool
unfolding is_digit
closes seen [] ext = false
closes seen (c ∷ rest) ext =
    let more = closes true rest ext in
    if is_digit c then more else seen && c == b')' && bytes_eq rest ext

-- The pattern `( \(\d+\))?` and the extension.
unfoldable pub is_numbered : List ℕ → List ℕ → Bool
unfolding strip closes
is_numbered rest ext = elim (strip (bytes " (") rest) [
  | none ↦ false
  | some digits ↦ closes false digits ext
]

unfoldable pub has_form : List ℕ → List ℕ → List ℕ → Bool
unfolding strip is_numbered
has_form base ext path = elim (strip base path) [
  | none ↦ false
  | some rest ↦ bytes_eq rest ext || is_numbered rest ext
]

-- The common table `existing`, as its paths.
unfoldable pub existing : ℕ → List ℕ → List ℕ → List File → List (List ℕ)
unfolding has_form
existing storage base ext [] = []
existing storage base ext (f ∷ fs) =
    let rest = existing storage base ext fs in
    if f.storage_id == storage && has_form base ext f.path then f.path ∷ rest else rest

unfoldable pub has_path : List ℕ → List (List ℕ) → Bool
has_path p [] = false
has_path p (q ∷ qs) = bytes_eq q p || has_path p qs

unfoldable pub candidate : List ℕ → List ℕ → ℕ → List ℕ
unfolding decimal
candidate base ext n = base ++ (bytes " (" ++ (decimal n ++ b')' ∷ ext))

-- The least number from `n` on whose candidate is not taken, among so many; 0 where all are.
unfoldable pub next_num : ℕ → ℕ → List ℕ → List ℕ → List (List ℕ) → ℕ
unfolding has_path candidate
next_num zero n base ext paths = 0
next_num (suc left) n base ext paths =
    let rest = next_num left (suc n) base ext paths in
    if has_path (candidate base ext n) paths then rest else n

unfoldable pub free_path : ℕ → List ℕ → List ℕ → List File → List ℕ
unfolding existing has_path next_num candidate
free_path storage base ext fs =
    let paths = existing storage base ext fs in
    if has_path (base ++ ext) paths
    then candidate base ext (next_num (suc (length paths)) 1 base ext paths)
    else base ++ ext

unfoldable pub create_file_anyway : ℕ → List ℕ → ℕ → ℕ → Tables → File × Tables
unfolding free_path split_dir_and_file split_name_and_extension
create_file_anyway id path size storage t =
    let (dir, filename) = split_dir_and_file path in
    let (name, ext) = split_name_and_extension filename in
    let f : File = record {
      id = id;
      path = free_path storage (dir ++ name) ext t.files;
      size = size;
      storage_id = storage;
      is_uploaded = false;
    } in
    (f, record t { files = f ∷ t.files })
