-- ===== src/Cache/Elements.antt =====
-- The elements of the list: finding one, and moving one to the front.
use pentaract.Prelude.{
  ℕ, suc, ◌+◌, ◌≤◌, ◌≡◌, refl, true, none, some, List, [], ◌∷◌, ◌≢◌, if◌then◌else◌, arith, length,
  Bool-cases, inl, inr,
}
use pentaract.Cache.{Entry, Cache, find, remove, move_to_front}
use pentaract.Cache.Keys.{Key, key_eq, has_key, has_key-count, count}
use pentaract.Cache.Coherent.{keys, sum_sizes, AreSized, IsCoherent}

pub find-key : (k : Key) (es : List Entry) (e : Entry) → find k es ≡ some e → key_eq e.key k ≡ true
unfolding find
find-key k [] e h = cc
find-key k (x ∷ es) e h = ground (arith, find-key k es e)

pub find-none : (k : Key) (es : List Entry) → find k es ≡ none → count k (keys es) ≡ 0
unfolding find keys count
find-none k [] h = refl
find-none k (x ∷ es) h = ground (arith, find-none k es)

-- What taking a key's element off the list changes.
pub record Removes (k : Key) (es : List Entry) (e : Entry) : Type 0 where
  pub counts :
      (j : Key) → count j (keys (remove k es)) + (if key_eq k j then 1 else 0) ≡ count j (keys es)
  pub sizes : sum_sizes (remove k es) + e.size ≡ sum_sizes es
  pub shorter : suc (length (remove k es)) ≡ length es

pub remove-Removes : (k : Key) (es : List Entry) (e : Entry) → find k es ≡ some e → Removes k es e
unfolding find remove keys count sum_sizes key_eq
remove-Removes k [] e h = cc
remove-Removes k (x ∷ es) e h = elim (Bool-cases (key_eq x.key k)) [
  | inl t ↦ record { counts = λ j. ground arith; sizes = ground arith; shorter = ground arith }
  | inr f ↦
      let ih : Removes k es e = remove-Removes k es e (ground arith) in
      record {
        counts = λ j. ground (arith, ih.counts j);
        sizes = ground (arith, ih.sizes);
        shorter = ground (arith, ih.shorter);
      }
]

AreSized-remove : (k : Key) (es : List Entry) → AreSized es → AreSized (remove k es)
unfolding remove
AreSized-remove k [] h = tt
AreSized-remove k (x ∷ es) h = elim (Bool-cases (key_eq x.key k)) [
  | inl t ↦ rw t h.1
  | inr f ↦ rw f (h.0, AreSized-remove k es h.1)
]

-- Taking an element off and putting one of the same key at the front keeps coherence.
pub move-IsCoherent :
    (c : Cache)
    → IsCoherent c
    → (old e : Entry) (t : ℕ) → find e.key c.order ≡ some old
    → e.size ≡ length e.payload
    → t + old.size ≡ c.total_bytes + e.size
    → IsCoherent (record c { order = move_to_front e c.order; total_bytes = t })
unfolding move_to_front keys count sum_sizes
move-IsCoherent c h old e t found size balance =
    let r : Removes e.key c.order old = remove-Removes e.key c.order old found in
    record {
      same_keys = λ j. ground (arith, h.same_keys j, r.counts j);
      once = h.once;
      same_length = omega (arith, h.same_length, r.shorter);
      total = omega (arith, h.total, r.sizes, balance);
      sized = (size, AreSized-remove e.key c.order h.sized);
    }

pub find_of_has_key :
    (c : Cache) → IsCoherent c → (k : Key) → has_key k c.entries ≡ true → find k c.order ≢ none
find_of_has_key c h k t e =
    ground (arith, has_key-count k c.entries, h.same_keys k, find-none k c.order e)

pub sum_sizes-remove :
    (k : Key) (es : List Entry) (e : Entry) → find k es ≡ some e → e.size ≤ sum_sizes es
sum_sizes-remove k es e h = omega (arith, (remove-Removes k es e h).sizes)

pub AreSized-find :
    (k : Key) (es : List Entry) (e : Entry)
    → AreSized es
    → find k es ≡ some e
    → e.size ≡ length e.payload
unfolding find
AreSized-find k [] e h f = cc
AreSized-find k (x ∷ es) e h f = ground (arith, AreSized-find k es e)
