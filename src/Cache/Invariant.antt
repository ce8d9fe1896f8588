-- ===== src/Cache/Invariant.antt =====
-- Every operation of the chunk cache keeps the invariant, and `set` keeps the limits.
use pentaract.Prelude.{
  ℕ, ◌+◌, ◌-◌, ◌<◌, ◌≡◌, refl, ◌∙◌, false, ◌||◌, ◌==◌, List, arith, length, Option-cases,
  Bool-cases, inl, inr, ltb,
}
use pentaract.Cache.{
  Cache, new, find, get_element, get, over_limit, trim_locked, replace_element, push_front, place,
  set,
}
use pentaract.Cache.Keys.{Key, key_eq→eq, has_key, has_key-count, count}
use pentaract.Cache.Coherent.{keys, sum_sizes, IsCoherent, IsBounded}
use pentaract.Cache.Trim.{trim_locked-ends, trim_loop-limits}
use pentaract.Cache.Elements.{
  find-key, move-IsCoherent, find_of_has_key, sum_sizes-remove, AreSized-find,
}

IsBounded-of_fit :
    (c : Cache) → IsCoherent c → over_limit c ≡ false → 0 < c.max_entries → IsBounded c
unfolding over_limit
IsBounded-of_fit c h e room = ground (arith, h.same_length)

pub place-IsCoherent : (k : Key) (d : List ℕ) (c : Cache) → IsCoherent c → IsCoherent (place k d c)
unfolding place replace_element push_front keys count sum_sizes
place-IsCoherent k d c h = elim (Bool-cases (has_key k c.entries)) [
  | inl t ↦ elim (Option-cases (find k c.order)) [
    | inl e ↦ absurd (find_of_has_key c h k t e)
    | inr (old, e) ↦
        rw (t, e, place, replace_element)
          (move-IsCoherent c h old (record old { payload = d; size = length d })
            (c.total_bytes - old.size + length d)
            (cc (key_eq→eq old.key k (find-key k c.order old e), e)) refl
            (omega (arith, h.total, sum_sizes-remove k c.order old e)))
  ]
  | inr f ↦
      rw (f, place)
        (record {
          same_keys = λ j. ground (arith, h.same_keys j);
          once = λ j. ground (arith, h.once j, has_key-count k c.entries, key_eq→eq k j);
          same_length = omega (arith, h.same_length);
          total = omega (arith, h.total);
          sized = (refl, h.sized);
        })
]

pub get-IsCoherent : (k : Key) (c : Cache) → IsCoherent c → IsCoherent (get k c).1
unfolding get get_element
get-IsCoherent k c h = elim (Bool-cases (has_key k c.entries)) [
  | inl t ↦ elim (Option-cases (find k c.order)) [
    | inl e ↦ absurd (find_of_has_key c h k t e)
    | inr (old, e) ↦
        rw (t, e, get, get_element)
          (move-IsCoherent c h old old c.total_bytes
            (cc (key_eq→eq old.key k (find-key k c.order old e), e))
            (AreSized-find k c.order old h.sized e) refl)
  ]
  | inr f ↦ rw (f, get) h
]

pub place-limits :
    (k : Key) (d : List ℕ) (c : Cache)
    → ((place k d c).max_bytes ≡ c.max_bytes) × ((place k d c).max_entries ≡ c.max_entries)
unfolding place replace_element push_front
place-limits k d c = ground arith

-- Whatever is stored, a coherent cache stays coherent and within its limits, which do not change.
pub set-IsCoherent :
    (k : Key) (d : List ℕ) (c : Cache)
    → IsCoherent c
    → IsBounded c
    → IsCoherent (set k d c)
      × IsBounded (set k d c)
      × ((set k d c).max_bytes ≡ c.max_bytes)
      × ((set k d c).max_entries ≡ c.max_entries)
unfolding set trim_locked
set-IsCoherent k d c h b = elim (Bool-cases (length d == 0 || ltb c.max_bytes (length d))) [
  | inl skip ↦ rw skip (h, b, refl, refl)
  | inr go ↦
      let p : IsCoherent (place k d c) = place-IsCoherent k d c h in
      let (co, fits) = trim_locked-ends (place k d c) p in
      let limits = trim_loop-limits (length (place k d c).order) (place k d c) in
      rw go (
        co,
        IsBounded-of_fit (trim_locked (place k d c)) co fits
            (omega (arith, b.room, limits.1, (place-limits k d c).1)),
        limits.0 ∙ (place-limits k d c).0,
        limits.1 ∙ (place-limits k d c).1,
      )
]

pub new-IsCoherent : (n m : ℕ) → IsCoherent (new n m) × IsBounded (new n m)
unfolding new sum_sizes keys count
new-IsCoherent n m = (
  record {
    same_keys = λ k. refl;
    once = λ k. omega arith;
    same_length = refl;
    total = refl;
    sized = tt;
  },
  ground arith,
)
