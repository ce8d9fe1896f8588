-- ===== src/Cache/Eviction.antt =====
-- Which entries a trim of the chunk cache gives up.
use pentaract.Prelude.{
  ℕ, zero, suc, ◌≤◌, ◌<◌, ◌≡◌, ◌⊎◌, refl, sym, ap, ◌∙◌, true, List, [], ◌∷◌, ◌++◌, arith, length,
  append_assoc, append-nil, Option-cases, Bool-cases, inl, inr,
}
use mathlib.Core.Path.{subst}
use pentaract.Cache.{Entry, Cache, unsnoc, over_limit, evict, trim_loop, trim_locked, place, set}
use pentaract.Cache.Keys.{Key}
use pentaract.Cache.Coherent.{sum_sizes, IsCoherent}
use pentaract.Cache.Trim.{unsnoc-some, evict-IsCoherent}
use pentaract.Cache.Invariant.{place-IsCoherent}

-- The entries that a trim dropped from behind `kept` had to go: with the first of them the limits are passed.
abbrev pub MustGo : ℕ → ℕ → List Entry → List Entry → Type 0
MustGo max_entries max_bytes kept [] = Unit
MustGo max_entries max_bytes kept (x ∷ _) =
    (max_entries < length (kept ++ x ∷ [])) ⊎ (max_bytes < sum_sizes (kept ++ x ∷ []))

-- The list before a trim is the list after it and the entries that had to go.
abbrev pub Trims : Cache → List Entry → Type 0
Trims c kept =
    (dropped : List Entry) × (c.order ≡ kept ++ dropped)
    × MustGo c.max_entries c.max_bytes kept dropped

MustGo-snoc :
    (n m : ℕ) (kept dropped : List Entry) (e : Entry)
    → MustGo n m kept dropped
    → (dropped ≡ [] → MustGo n m kept (e ∷ []))
    → MustGo n m kept (dropped ++ e ∷ [])
MustGo-snoc n m kept [] e h last = last refl
MustGo-snoc n m kept (x ∷ dropped) e h last = h

over_limit-MustGo :
    (c : Cache)
    → IsCoherent c
    → over_limit c ≡ true
    → (c.max_entries < length c.order) ⊎ (c.max_bytes < sum_sizes c.order)
unfolding over_limit
over_limit-MustGo c h o = ground (arith, h.same_length, h.total)

Trims-evict :
    (c : Cache) (front : List Entry) (entry : Entry) (kept : List Entry)
    → IsCoherent c
    → over_limit c ≡ true
    → c.order ≡ front ++ entry ∷ []
    → Trims (evict c front entry) kept
    → Trims c kept
unfolding evict
Trims-evict c front entry kept h over split (dropped, e, must) =
    let whole : c.order ≡ kept ++ (dropped ++ entry ∷ []) =
      split ∙ ap (λ l. l ++ entry ∷ []) e ∙ append_assoc kept dropped (entry ∷ []) in
    (
      dropped ++ entry ∷ [],
      whole,
      MustGo-snoc c.max_entries c.max_bytes kept dropped entry must (λ z.
          subst (λ l. (c.max_entries < length l) ⊎ (c.max_bytes < sum_sizes l))
            (whole ∙ ap (λ d. kept ++ (d ++ entry ∷ [])) z) (over_limit-MustGo c h over)),
    )

trim_loop-Trims : (fuel : ℕ) (c : Cache) → IsCoherent c → Trims c (trim_loop fuel c).order
unfolding trim_loop
trim_loop-Trims zero c h = ([], sym (append-nil c.order), tt)
trim_loop-Trims (suc fuel) c h = elim (Bool-cases (over_limit c)) [
  | inl over ↦ elim (Option-cases (unsnoc c.order)) [
    | inl e ↦ rw (over, e, trim_loop) ([], sym (append-nil c.order), tt)
    | inr ((front, entry), e) ↦
        let split : c.order ≡ front ++ entry ∷ [] = unsnoc-some c.order front entry e in
        let co : IsCoherent (evict c front entry) = evict-IsCoherent c h front entry split in
        let rest : Trims (evict c front entry) (trim_loop fuel (evict c front entry)).order =
          trim_loop-Trims fuel (evict c front entry) co in
        rw (over, e, trim_loop) (Trims-evict c front entry _ h over split rest)
  ]
  | inr fits ↦ rw (fits, trim_loop) ([], sym (append-nil c.order), tt)
]

-- What `set` does with bytes that the cache takes.
set_stores :
    (k : Key) (d : List ℕ) (c : Cache)
    → 0 < length d
    → length d ≤ c.max_bytes
    → set k d c ≡ trim_locked (place k d c)
unfolding set
set_stores k d c pos fits = ground arith

-- Storing a chunk gives up only entries from the back of the list, the least recently used ones, and
-- only as many as the limits ask for. (`place` is `set` before its trim.)
pub set-Trims :
    (k : Key) (d : List ℕ) (c : Cache)
    → IsCoherent c
    → 0 < length d
    → length d ≤ c.max_bytes
    → Trims (place k d c) (set k d c).order
unfolding trim_locked
set-Trims k d c h pos fits =
    rw (set_stores k d c pos fits)
      (trim_loop-Trims (length (place k d c).order) (place k d c) (place-IsCoherent k d c h))
