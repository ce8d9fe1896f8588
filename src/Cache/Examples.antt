-- ===== src/Cache/Examples.antt =====
-- Witnesses and tests of the chunk cache: two entries at most, ten bytes at most.
use pentaract.Prelude.{ℕ, ◌≡◌, refl, arith, some, none, [], ◌∷◌, if◌then◌else◌}
use pentaract.Cache.{Cache, new, get, set, place}
use pentaract.Cache.Keys.{Key, key_eq}
use pentaract.Cache.Coherent.{IsCoherent, IsBounded}
use pentaract.Cache.Invariant.{new-IsCoherent, set-IsCoherent}
use pentaract.Cache.Eviction.{Trims, set-Trims}
use pentaract.Cache.Lookup.{get-set_self, get-set_sound}

abbrev key_at : ℕ → Key
key_at n = record { file_id = 1; position = n }

abbrev one : Cache
one = set (key_at 0) (5 ∷ []) (new 2 10)

one-IsCoherent : IsCoherent one × IsBounded one
unfolding new
one-IsCoherent =
    let h = new-IsCoherent 2 10 in
    let r = set-IsCoherent (key_at 0) (5 ∷ []) (new 2 10) h.0 h.1 in (r.0, r.1)

abbrev two : Cache
two = set (key_at 1) (6 ∷ 7 ∷ []) one

two-IsCoherent : IsCoherent two × IsBounded two
two-IsCoherent =
    let r = set-IsCoherent (key_at 1) (6 ∷ 7 ∷ []) one one-IsCoherent.0 one-IsCoherent.1 in
    (r.0, r.1)

two_bytes : two.max_bytes ≡ 10
unfolding set new key_eq
two_bytes = refl

-- The third entry evicts the first.
evicts_oldest : (get (key_at 0) (set (key_at 2) (8 ∷ []) two)).0 ≡ none
unfolding set get new key_eq
evicts_oldest = refl

set-IsCoherent_example :
    IsCoherent (set (key_at 2) (8 ∷ []) two)
    × IsBounded (set (key_at 2) (8 ∷ []) two)
    × ((set (key_at 2) (8 ∷ []) two).max_bytes ≡ two.max_bytes)
    × ((set (key_at 2) (8 ∷ []) two).max_entries ≡ two.max_entries)
set-IsCoherent_example = set-IsCoherent (key_at 2) (8 ∷ []) two two-IsCoherent.0 two-IsCoherent.1

set-Trims_run : Trims (place (key_at 2) (8 ∷ []) two) (set (key_at 2) (8 ∷ []) two).order
set-Trims_run =
    set-Trims (key_at 2) (8 ∷ []) two two-IsCoherent.0 (omega arith) (omega (arith, two_bytes))

get-set_self_run : (get (key_at 2) (set (key_at 2) (8 ∷ []) two)).0 ≡ some (8 ∷ [])
get-set_self_run =
    get-set_self (key_at 2) (8 ∷ []) two two-IsCoherent.0 two-IsCoherent.1 (omega arith)
      (omega (arith, two_bytes))

still_there : (get (key_at 1) (set (key_at 2) (8 ∷ []) two)).0 ≡ some (6 ∷ 7 ∷ [])
unfolding set get new key_eq
still_there = refl

get-set_sound_run :
    (if key_eq (key_at 2) (key_at 1) then some (8 ∷ []) else (get (key_at 1) two).0)
    ≡ some (6 ∷ 7 ∷ [])
get-set_sound_run =
    get-set_sound (key_at 1) (key_at 2) (8 ∷ []) two (6 ∷ 7 ∷ []) two-IsCoherent.0 two-IsCoherent.1
      (omega arith) (omega (arith, two_bytes)) still_there
