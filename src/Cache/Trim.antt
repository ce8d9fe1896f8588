-- ===== src/Cache/Trim.antt =====
-- `trimLocked`: evicting the last element keeps the invariant, and the loop ends within the limits.
use pentaract.Prelude.{
  ℕ, zero, suc, ◌+◌, ◌≤◌, ◌≡◌, refl, ap, ◌∙◌, true, false, none, some, List, [], ◌∷◌, ◌++◌,
  if◌then◌else◌, arith, length, length-append, Option-cases, Bool-cases, inl, inr,
}
use pentaract.Cache.{Entry, Cache, unsnoc, over_limit, evict, trim_loop, trim_locked}
use mathlib.Core.Path.{subst}
use pentaract.Cache.Keys.{
  Key, key_eq, key_eq_refl, count, count-delete_key, length-delete_key, count-append,
}
use pentaract.Cache.Coherent.{keys, sum_sizes, AreSized, IsCoherent, keys-append, sum_sizes-append}

AreSized-front : (xs ys : List Entry) → AreSized (xs ++ ys) → AreSized xs
AreSized-front [] ys h = tt
AreSized-front (x ∷ xs) ys h = (h.0, AreSized-front xs ys h.1)

pub unsnoc-none {ℓ} : {A : Type ℓ} (xs : List A) → unsnoc xs ≡ none → xs ≡ []
unfolding unsnoc
unsnoc-none [] h = refl
unsnoc-none (x ∷ xs) h = ground arith

pub unsnoc-some {ℓ} :
    {A : Type ℓ} (xs ys : List A) (y : A) → unsnoc xs ≡ some (ys, y) → xs ≡ ys ++ y ∷ []
unfolding unsnoc
unsnoc-some [] ys y h = cc
unsnoc-some (x ∷ xs) ys y h = elim (Option-cases (unsnoc xs)) [
  | inl e ↦ ground (arith, unsnoc-none xs e)
  | inr ((zs, z), e) ↦ ground (arith, unsnoc-some xs zs z e)
]

module _ (c : Cache) (h : IsCoherent c) (front : List Entry) (entry : Entry)
    (split : c.order ≡ front ++ entry ∷ []) where
  keys_split :
      (k : Key) → count k c.entries ≡ count k (keys front) + (if key_eq entry.key k then 1 else 0)
  unfolding keys count
  keys_split k =
      h.same_keys k
      ∙ ap (λ o. count k (keys o)) split
      ∙ ap (count k) (keys-append front (entry ∷ []))
      ∙ count-append k (keys front) (entry.key ∷ [])

  one_entry : count entry.key c.entries ≡ 1
  one_entry =
      let e : key_eq entry.key entry.key ≡ true = key_eq_refl entry.key in
      ground (arith, keys_split entry.key, h.once entry.key)

  pub evict-IsCoherent : IsCoherent (evict c front entry)
  unfolding evict sum_sizes
  evict-IsCoherent = record {
    same_keys = λ k. ground (arith, count-delete_key k entry.key c.entries, keys_split k, h.once k);
    once = λ k. ground (arith, count-delete_key k entry.key c.entries, h.once k);
    same_length = omega (
      arith,
      length-delete_key entry.key c.entries,
      one_entry,
      h.same_length,
      ap (length {A = Entry}) split,
      length-append front (entry ∷ []),
    );
    total = omega (arith, h.total, ap sum_sizes split, sum_sizes-append front (entry ∷ []));
    sized = AreSized-front front (entry ∷ []) (subst AreSized split h.sized);
  }

over_limit_of_empty : (c : Cache) → IsCoherent c → c.order ≡ [] → over_limit c ≡ false
unfolding over_limit sum_sizes
over_limit_of_empty c h e =
    ground (arith, h.same_length, h.total, ap (length {A = Entry}) e, ap sum_sizes e)

empty_of_length {ℓ} : {A : Type ℓ} (xs : List A) → length xs ≤ 0 → xs ≡ []
empty_of_length [] h = refl
empty_of_length (x ∷ xs) h = absurd (omega arith)

-- With as much fuel as there are elements the loop ends by its test, and keeps coherence.
pub trim_loop-ends :
    (fuel : ℕ) (c : Cache)
    → IsCoherent c
    → length c.order ≤ fuel
    → IsCoherent (trim_loop fuel c) × (over_limit (trim_loop fuel c) ≡ false)
unfolding trim_loop evict
trim_loop-ends zero c h l = (h, over_limit_of_empty c h (empty_of_length c.order l))
trim_loop-ends (suc fuel) c h l = elim (Bool-cases (over_limit c)) [
  | inl over ↦ elim (Option-cases (unsnoc c.order)) [
    | inl e ↦ rw (over, e, trim_loop) (h, over_limit_of_empty c h (unsnoc-none c.order e))
    | inr ((front, entry), e) ↦
        let split = unsnoc-some c.order front entry e in
        rw (over, e, trim_loop)
          (trim_loop-ends fuel (evict c front entry) (evict-IsCoherent c h front entry split)
            (omega (arith, l, ap (length {A = Entry}) split, length-append front (entry ∷ []))))
  ]
  | inr fits ↦ rw (fits, trim_loop) (h, fits)
]

pub trim_locked-ends :
    (c : Cache) → IsCoherent c → IsCoherent (trim_locked c) × (over_limit (trim_locked c) ≡ false)
unfolding trim_locked
trim_locked-ends c h = trim_loop-ends (length c.order) c h (omega arith)

pub trim_loop-limits :
    (fuel : ℕ) (c : Cache)
    → ((trim_loop fuel c).max_bytes ≡ c.max_bytes)
      × ((trim_loop fuel c).max_entries ≡ c.max_entries)
unfolding trim_loop evict
trim_loop-limits zero c = (refl, refl)
trim_loop-limits (suc fuel) c = elim (Bool-cases (over_limit c)) [
  | inl over ↦ elim (Option-cases (unsnoc c.order)) [
    | inl e ↦ rw (over, e, trim_loop) (refl, refl)
    | inr ((front, entry), e) ↦
        rw (over, e, trim_loop) (trim_loop-limits fuel (evict c front entry))
  ]
  | inr fits ↦ rw (fits, trim_loop) (refl, refl)
]
