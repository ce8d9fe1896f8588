-- ===== src/Cache/Keys.antt =====
-- Keys of the chunk cache: a file and a chunk position.
use pentaract.Prelude.{
  ℕ, suc, ◌+◌, ◌≡◌, refl, Bool, true, false, ◌&&◌, ◌||◌, List, [], ◌∷◌, ◌==◌, if◌then◌else◌, arith,
  length, ltb, ◌++◌,
}

pub record Key : Type 0 where
  pub file_id : ℕ
  pub position : ℕ

unfoldable pub key_eq : Key → Key → Bool
key_eq a b = a.file_id == b.file_id && a.position == b.position

pub key_eq_refl : (a : Key) → key_eq a a ≡ true
unfolding key_eq
key_eq_refl a = ground arith

pub key_eq→eq : (a b : Key) → key_eq a b ≡ true → a ≡ b
unfolding key_eq
key_eq→eq a b h = ground arith

-- Whether the map has the key.
unfoldable pub has_key : Key → List Key → Bool
has_key k [] = false
has_key k (j ∷ ks) = key_eq j k || has_key k ks

-- `delete` from the map.
unfoldable pub delete_key : Key → List Key → List Key
delete_key k [] = []
delete_key k (j ∷ ks) = let rest = delete_key k ks in if key_eq j k then rest else j ∷ rest

-- How often a key occurs.
unfoldable pub count : Key → List Key → ℕ
count k [] = 0
count k (j ∷ ks) = if key_eq j k then suc (count k ks) else count k ks

pub key_eq_sym : (a b : Key) → key_eq a b ≡ key_eq b a
unfolding key_eq
key_eq_sym a b = ground arith

pub has_key-count : (k : Key) (ks : List Key) → has_key k ks ≡ ltb 0 (count k ks)
unfolding has_key count
has_key-count k [] = refl
has_key-count k (j ∷ ks) = ground (arith, has_key-count k ks)

pub count-delete_key :
    (j k : Key) (ks : List Key) → count j (delete_key k ks) ≡ (if key_eq k j then 0 else count j ks)
unfolding count delete_key key_eq
count-delete_key j k [] = ground arith
count-delete_key j k (i ∷ ks) = ground (arith, count-delete_key j k ks)

pub length-delete_key :
    (k : Key) (ks : List Key) → length (delete_key k ks) + count k ks ≡ length ks
unfolding count delete_key
length-delete_key k [] = omega arith
length-delete_key k (i ∷ ks) = ground (arith, length-delete_key k ks)

pub count-append : (k : Key) (xs ys : List Key) → count k (xs ++ ys) ≡ count k xs + count k ys
unfolding count
count-append k [] ys = omega arith
count-append k (x ∷ xs) ys = ground (arith, count-append k xs ys)
