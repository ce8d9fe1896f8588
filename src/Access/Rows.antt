-- ===== src/Access/Rows.antt =====
-- What a change of one user's access does to the answers of `HasAccess`.
use pentaract.Prelude.{
  ℕ, suc, ◌≤◌, ◌≡◌, refl, false, ◌&&◌, List, [], ◌∷◌, ◌==◌, if◌then◌else◌, arith,
}
use pentaract.Access.{AccessType, Row, grants, is_of, has_access, create_or_update, delete_rows}

-- At most one row for a user and a storage.
unfoldable pub rows_of : ℕ → ℕ → List Row → ℕ
rows_of user storage [] = 0
rows_of user storage (r ∷ rs) =
    if is_of user storage r then suc (rows_of user storage rs) else rows_of user storage rs

no_rows-no_access :
    (u s : ℕ) (q : AccessType) (rows : List Row)
    → rows_of u s rows ≡ 0
    → has_access u s q rows ≡ false
unfolding rows_of has_access
no_rows-no_access u s q [] h = refl
no_rows-no_access u s q (r ∷ rs) h = ground (arith, no_rows-no_access u s q rs)

-- After an upsert the user has exactly what the new level grants.
pub has_access-create_or_update_self :
    (u s : ℕ) (l q : AccessType) (rows : List Row)
    → rows_of u s rows ≤ 1
    → has_access u s q (create_or_update u s l rows) ≡ grants q l
unfolding has_access create_or_update rows_of is_of
has_access-create_or_update_self u s l q [] h = ground arith
has_access-create_or_update_self u s l q (r ∷ rs) h =
    ground (arith, no_rows-no_access u s q rs, has_access-create_or_update_self u s l q rs)

-- Changing one user's access leaves every other user and storage alone.
pub has_access-create_or_update_ne :
    (u s v t : ℕ) (l q : AccessType) (rows : List Row)
    → (u == v && s == t) ≡ false
    → has_access v t q (create_or_update u s l rows) ≡ has_access v t q rows
unfolding has_access create_or_update is_of
has_access-create_or_update_ne u s v t l q [] h = ground arith
has_access-create_or_update_ne u s v t l q (r ∷ rs) h =
    ground (arith, has_access-create_or_update_ne u s v t l q rs)

pub has_access-delete_rows :
    (u s v t : ℕ) (q : AccessType) (rows : List Row)
    → has_access v t q (delete_rows u s rows)
      ≡ (if u == v && s == t then false else has_access v t q rows)
unfolding has_access delete_rows is_of
has_access-delete_rows u s v t q [] = ground arith
has_access-delete_rows u s v t q (r ∷ rs) = ground (arith, has_access-delete_rows u s v t q rs)
