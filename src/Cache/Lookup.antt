-- ===== src/Cache/Lookup.antt =====
-- What a client of the chunk cache sees: the answers of `get`.
use pentaract.Prelude.{
  ℕ, ◌≤◌, ◌<◌, ◌≡◌, refl, sym, ap, ◌∙◌, true, false, Option, none, some, List, [], ◌∷◌, ◌++◌,
  if◌then◌else◌, arith, length, Option-cases, Bool-cases, inl, inr,
}
use mathlib.Core.Path.{subst}
use pentaract.Cache.{
  Entry, Cache, find, remove, move_to_front, get_element, get, replace_element, push_front, place,
  set,
}
use pentaract.Cache.Keys.{Key, key_eq, key_eq_refl, key_eq→eq, has_key, has_key-count, count}
use pentaract.Cache.Coherent.{keys, sum_sizes, IsCoherent, IsBounded}
use pentaract.Cache.Elements.{find-key, find_of_has_key}
use pentaract.Cache.Invariant.{set-IsCoherent, get-IsCoherent, place-limits}
use pentaract.Cache.Eviction.{MustGo, set-Trims}

-- What the cache holds for a key.
unfoldable pub peek : Key → List Entry → Option (List ℕ)
peek k es = elim (find k es) [ none ↦ none | some e ↦ some e.payload ]

-- The element that `place` leaves at the front.
abbrev HasFront : Key → List ℕ → List Entry → Type 0
HasFront k d [] = ⊥
HasFront k d (e ∷ es) = (e.key ≡ k) × (e.payload ≡ d) × (e.size ≡ length d)

place-HasFront :
    (k : Key) (d : List ℕ) (c : Cache) → IsCoherent c → HasFront k d (place k d c).order
unfolding place replace_element push_front move_to_front
place-HasFront k d c h = elim (Bool-cases (has_key k c.entries)) [
  | inl t ↦ elim (Option-cases (find k c.order)) [
    | inl e ↦ absurd (find_of_has_key c h k t e)
    | inr (old, e) ↦
        rw (t, e, place, replace_element)
          (key_eq→eq old.key k (find-key k c.order old e), refl, refl)
  ]
  | inr f ↦ rw (f, place) (refl, refl, refl)
]

Trims-HasFront :
    (k : Key) (d : List ℕ) (n m : ℕ) (order kept dropped : List Entry)
    → HasFront k d order
    → order ≡ kept ++ dropped
    → MustGo n m kept dropped
    → 0 < n
    → length d ≤ m
    → HasFront k d kept
unfolding sum_sizes
Trims-HasFront k d n m order [] [] front e must pos fits = subst (HasFront k d) e front
Trims-HasFront k d n m order [] (x ∷ dropped) front e must pos fits =
    absurd (omega (arith, (subst (HasFront k d) e front).2))
Trims-HasFront k d n m order (x ∷ kept) dropped front e must pos fits = subst (HasFront k d) e front

peek_of_HasFront : (k : Key) (d : List ℕ) (es : List Entry) → HasFront k d es → peek k es ≡ some d
unfolding peek find
peek_of_HasFront k d [] h = absurd h
peek_of_HasFront k d (e ∷ es) h = ground (arith, key_eq_refl k)

find-count : (k : Key) (es : List Entry) (e : Entry) → find k es ≡ some e → 0 < count k (keys es)
unfolding find keys count
find-count k [] e h = cc
find-count k (x ∷ es) e h = ground (arith, find-count k es e)

-- On a coherent cache `get` answers what the list holds.
pub get-eq-peek : (k : Key) (c : Cache) → IsCoherent c → (get k c).0 ≡ peek k c.order
unfolding get get_element peek
get-eq-peek k c h = elim (Option-cases (find k c.order)) [
  | inl e ↦ ground arith
  | inr (x, e) ↦ ground (arith, find-count k c.order x e, h.same_keys k, has_key-count k c.entries)
]

find-remove_ne :
    (j k : Key) (es : List Entry) → key_eq k j ≡ false → find j (remove k es) ≡ find j es
unfolding find remove key_eq
find-remove_ne j k [] h = refl
find-remove_ne j k (x ∷ es) h = ground (arith, find-remove_ne j k es)

find-append :
    (j : Key) (xs ys : List Entry) (e : Entry) → find j xs ≡ some e → find j (xs ++ ys) ≡ some e
unfolding find
find-append j [] ys e h = cc
find-append j (x ∷ xs) ys e h = ground (arith, find-append j xs ys e)

peek-append :
    (j : Key) (xs ys : List Entry) (v : List ℕ) → peek j xs ≡ some v → peek j (xs ++ ys) ≡ some v
unfolding peek
peek-append j xs ys v h = elim (Option-cases (find j xs)) [
  | inl e ↦ ground arith
  | inr (x, e) ↦ ground (arith, find-append j xs ys x e)
]

peek_front :
    (j : Key) (e : Entry) (es : List Entry)
    → peek j (e ∷ es) ≡ (if key_eq e.key j then some e.payload else peek j es)
unfolding peek find
peek_front j e es = ground arith

peek-remove_ne :
    (j k : Key) (es : List Entry) → key_eq k j ≡ false → peek j (remove k es) ≡ peek j es
unfolding peek
peek-remove_ne j k es h = rw (find-remove_ne j k es h, peek)

-- Moving an element to the front shows in no lookup of another key.
peek_moved :
    (j : Key) (e : Entry) (es : List Entry)
    → peek j (e ∷ remove e.key es) ≡ (if key_eq e.key j then some e.payload else peek j es)
peek_moved j e es = ground (arith, peek_front j e (remove e.key es), peek-remove_ne j e.key es)

peek-place :
    (j k : Key) (d : List ℕ) (c : Cache)
    → IsCoherent c
    → peek j (place k d c).order ≡ (if key_eq k j then some d else peek j c.order)
unfolding place replace_element push_front move_to_front
peek-place j k d c h = elim (Bool-cases (has_key k c.entries)) [
  | inl t ↦ elim (Option-cases (find k c.order)) [
    | inl e ↦ absurd (find_of_has_key c h k t e)
    | inr (old, e) ↦
        rw (t, e, place, replace_element)
          (peek_moved j (record old { payload = d; size = length d }) c.order
            ∙ ap (λ i. if key_eq i j then some d else peek j c.order)
                (key_eq→eq old.key k (find-key k c.order old e)))
  ]
  | inr f ↦ rw (f, place) (peek_front j (record { key = k; payload = d; size = length d }) c.order)
]

peek_found :
    (j k : Key) (es : List Entry) (e : Entry)
    → find k es ≡ some e
    → key_eq e.key j ≡ true
    → peek j es ≡ some e.payload
unfolding peek
peek_found j k es e h same =
    ground (arith, key_eq→eq e.key j same, key_eq→eq e.key k (find-key k es e h))

peek-get : (j k : Key) (c : Cache) → peek j (get k c).1.order ≡ peek j c.order
unfolding get get_element move_to_front
peek-get j k c = elim (Bool-cases (has_key k c.entries)) [
  | inl t ↦ elim (Option-cases (find k c.order)) [
    | inl e ↦ rw (t, e, get, get_element)
    | inr (old, e) ↦
        rw (t, e, get, get_element)
          (ground (arith, peek_moved j old c.order, peek_found j k c.order old e))
  ]
  | inr f ↦ rw (f, get)
]

-- Reading a chunk changes no later answer.
pub get-get : (j k : Key) (c : Cache) → IsCoherent c → (get j (get k c).1).0 ≡ (get j c).0
get-get j k c h =
    get-eq-peek j (get k c).1 (get-IsCoherent k c h) ∙ peek-get j k c ∙ sym (get-eq-peek j c h)

-- A chunk that fits is there right after it is stored.
pub get-set_self :
    (k : Key) (d : List ℕ) (c : Cache)
    → IsCoherent c
    → IsBounded c
    → 0 < length d
    → length d ≤ c.max_bytes
    → (get k (set k d c)).0 ≡ some d
get-set_self k d c h b pos fits =
    let (dropped, split, must) = set-Trims k d c h pos fits in
    let limits = place-limits k d c in
    get-eq-peek k (set k d c) (set-IsCoherent k d c h b).0
    ∙ peek_of_HasFront k d (set k d c).order (
        Trims-HasFront k d _ _ (place k d c).order (set k d c).order dropped
          (place-HasFront k d c h) split must (omega (arith, limits.1, b.room))
          (omega (arith, limits.0, fits)))

-- After a chunk is stored the cache answers a key with the chunk if it is the chunk's key, and else
-- only with what it answered before.
pub get-set_sound :
    (j k : Key) (d : List ℕ) (c : Cache) (v : List ℕ)
    → IsCoherent c
    → IsBounded c
    → 0 < length d
    → length d ≤ c.max_bytes
    → (get j (set k d c)).0 ≡ some v
    → (if key_eq k j then some d else (get j c).0) ≡ some v
get-set_sound j k d c v h b pos fits answer =
    let (dropped, split, must) = set-Trims k d c h pos fits in
    let held : peek j (set k d c).order ≡ some v =
      sym (get-eq-peek j (set k d c) (set-IsCoherent k d c h b).0) ∙ answer in
    let placed : peek j (place k d c).order ≡ some v =
      ap (peek j) split ∙ peek-append j (set k d c).order dropped v held in
    ground (arith, get-eq-peek j c h, peek-place j k d c h, placed)
