-- ===== src/Cache/Coherent.antt =====
-- The invariant of the chunk cache: the map and the list hold the same keys, once each, and the byte
-- count is the sum of the sizes.
use pentaract.Prelude.{ℕ, ◌+◌, ◌≤◌, ◌<◌, ◌≡◌, refl, ap, List, [], ◌∷◌, ◌++◌, arith, length}
use pentaract.Cache.{Entry, Cache}
use pentaract.Cache.Keys.{Key, count}

-- The keys of the list, front first, and the sum of the sizes.
unfoldable pub keys : List Entry → List Key
keys [] = []
keys (e ∷ es) = e.key ∷ keys es

unfoldable pub sum_sizes : List Entry → ℕ
sum_sizes [] = 0
sum_sizes (e ∷ es) = e.size + sum_sizes es

-- Every entry's size is that of its bytes.
abbrev pub AreSized : List Entry → Type 0
AreSized [] = Unit
AreSized (e ∷ es) = (e.size ≡ length e.payload) × AreSized es

pub record IsCoherent (c : Cache) : Type 0 where
  pub same_keys : (k : Key) → count k c.entries ≡ count k (keys c.order)
  pub once : (k : Key) → count k c.entries ≤ 1
  pub same_length : length c.entries ≡ length c.order
  pub total : c.total_bytes ≡ sum_sizes c.order
  pub sized : AreSized c.order

pub record IsBounded (c : Cache) : Type 0 where
  pub few : length c.order ≤ c.max_entries
  pub small : c.total_bytes ≤ c.max_bytes
  pub room : 0 < c.max_entries

pub keys-append : (xs ys : List Entry) → keys (xs ++ ys) ≡ keys xs ++ keys ys
unfolding keys
keys-append [] ys = refl
keys-append (x ∷ xs) ys = ap (λ t. x.key ∷ t) (keys-append xs ys)

pub sum_sizes-append : (xs ys : List Entry) → sum_sizes (xs ++ ys) ≡ sum_sizes xs + sum_sizes ys
unfolding sum_sizes
sum_sizes-append [] ys = omega arith
sum_sizes-append (x ∷ xs) ys = omega (arith, sum_sizes-append xs ys)
