-- ===== src/Matroska/Sizes.antt =====
-- Sizes are read back: every size in every length that holds it.
use pentaract.Prelude.{
  ℕ, zero, suc, ◌+◌, ◌-◌, ◌*◌, ◌/◌, ◌%◌, ◌^◌, ◌<◌, ◌≡◌, refl, ap, ◌∙◌, Bool, true, false, ◌&&◌,
  List, [], ◌∷◌, ◌++◌, ◌==◌, leb, if◌then◌else◌, arith,
}
use pentaract.OrderedJobs.Spec.{ok}
use pentaract.Matroska.{vint_length, size_bytes, read_size}

-- So many bytes of a number, the highest first.
unfoldable pub bytes_of : ℕ → ℕ → List ℕ
bytes_of zero v = []
bytes_of (suc k) v = (v / 256 ^ k % 256) ∷ bytes_of k v

-- A size in a length: the marker of the length above the highest bits, and the other bytes.
unfoldable pub encode_size : ℕ → ℕ → List ℕ
unfolding bytes_of
encode_size zero v = []
encode_size (suc k) v = (2 ^ (7 - k) + v / 256 ^ k) ∷ bytes_of k v

-- All ones, the size that is not known.
abbrev pub unknown_size : ℕ → ℕ
unknown_size n = 2 ^ (7 * n) - 1

-- The length by the highest bit.
length_by_size : ℕ → ℕ
length_by_size f =
    if leb 128 f
    then 1
    else if leb 64 f
    then 2
    else if leb 32 f
    then 3
    else if leb 16 f
    then 4
    else if leb 8 f
    then 5
    else if leb 4 f
    then 6
    else if leb 2 f
    then 7
    else if leb 1 f
    then 8
    else 0

-- The two agree on the bytes under a bound.
agree_under : ℕ → Bool
agree_under zero = true
agree_under (suc bound) = agree_under bound && (vint_length bound == length_by_size bound)

bytes_agree : agree_under 256 ≡ true
unfolding agree_under vint_length length_by_size
bytes_agree = refl

byte_agrees :
    (bound f : ℕ)
    → f < bound
    → agree_under bound ≡ true
    → (vint_length f == length_by_size f) ≡ true
unfolding agree_under
byte_agrees zero f l h = absurd (omega arith)
byte_agrees (suc bound) f l h = ground (arith, byte_agrees bound f)

vint_length-eq : (f : ℕ) → f < 256 → vint_length f ≡ length_by_size f
vint_length-eq f h =
    let e = byte_agrees 256 f h bytes_agree in same (vint_length f) (length_by_size f) e
  where
    same : (a b : ℕ) → (a == b) ≡ true → a ≡ b
    same a b e = ground arith

-- The first byte of a size, and the size of the loop over the others.
vint_length-first : (k hi : ℕ) → k < 8 → hi < 2 ^ (7 - k) → vint_length (2 ^ (7 - k) + hi) ≡ suc k
unfolding length_by_size
vint_length-first zero hi l h = vint_length-eq (2 ^ 7 + hi) (omega arith) ∙ ground arith
vint_length-first (suc zero) hi l h = vint_length-eq (2 ^ 6 + hi) (omega arith) ∙ ground arith
vint_length-first (suc (suc zero)) hi l h = vint_length-eq (2 ^ 5 + hi) (omega arith) ∙ ground arith
vint_length-first (suc (suc (suc zero))) hi l h =
    vint_length-eq (2 ^ 4 + hi) (omega arith) ∙ ground arith
vint_length-first (suc (suc (suc (suc zero)))) hi l h =
    vint_length-eq (2 ^ 3 + hi) (omega arith) ∙ ground arith
vint_length-first (suc (suc (suc (suc (suc zero))))) hi l h =
    vint_length-eq (2 ^ 2 + hi) (omega arith) ∙ ground arith
vint_length-first (suc (suc (suc (suc (suc (suc zero)))))) hi l h =
    vint_length-eq (2 + hi) (omega arith) ∙ ground arith
vint_length-first (suc (suc (suc (suc (suc (suc (suc zero))))))) hi l h =
    vint_length-eq (1 + hi) (omega arith) ∙ ground arith
vint_length-first (suc (suc (suc (suc (suc (suc (suc (suc k)))))))) hi l h = absurd (omega arith)

-- The loop over the other bytes, of which there are 7 at most.
size_bytes-bytes_of :
    (k acc v : ℕ) (ones : Bool) (rest : List ℕ)
    → k < 8
    → size_bytes k acc ones (bytes_of k v ++ rest)
      ≡ ok ((acc * 256 ^ k + v % 256 ^ k, ones && (v % 256 ^ k == 256 ^ k - 1)), rest)
unfolding size_bytes bytes_of
size_bytes-bytes_of zero acc v ones rest h = ground arith
size_bytes-bytes_of (suc zero) acc v ones rest h = ground arith
size_bytes-bytes_of (suc (suc zero)) acc v ones rest h = ground arith
size_bytes-bytes_of (suc (suc (suc zero))) acc v ones rest h = ground arith
size_bytes-bytes_of (suc (suc (suc (suc zero)))) acc v ones rest h = ground arith
size_bytes-bytes_of (suc (suc (suc (suc (suc zero))))) acc v ones rest h = ground arith
size_bytes-bytes_of (suc (suc (suc (suc (suc (suc zero)))))) acc v ones rest h = ground arith
size_bytes-bytes_of (suc (suc (suc (suc (suc (suc (suc zero))))))) acc v ones rest h = ground arith
size_bytes-bytes_of (suc (suc (suc (suc (suc (suc (suc (suc k)))))))) acc v ones rest h =
    absurd (omega arith)

-- What the lengths have in common.
record Fits (k v : ℕ) : Type 0 where
  high : v / 256 ^ k < 2 ^ (7 - k)
  marked : (2 ^ (7 - k) + v / 256 ^ k) % 2 ^ (7 - k) ≡ v / 256 ^ k
  whole : v / 256 ^ k * 256 ^ k + v % 256 ^ k ≡ v
  ones :
      ((v / 256 ^ k == 2 ^ (7 - k) - 1) && (v % 256 ^ k == 256 ^ k - 1))
      ≡ (v == unknown_size (suc k))

fits : (k v : ℕ) → k < 8 → v < 2 ^ (7 * suc k) → Fits k v
fits zero v l h = record {
  high = omega arith;
  marked = omega arith;
  whole = omega arith;
  ones = ground arith;
}
fits (suc zero) v l h = record {
  high = omega arith;
  marked = omega arith;
  whole = omega arith;
  ones = ground arith;
}
fits (suc (suc zero)) v l h = record {
  high = omega arith;
  marked = omega arith;
  whole = omega arith;
  ones = ground arith;
}
fits (suc (suc (suc zero))) v l h = record {
  high = omega arith;
  marked = omega arith;
  whole = omega arith;
  ones = ground arith;
}
fits (suc (suc (suc (suc zero)))) v l h = record {
  high = omega arith;
  marked = omega arith;
  whole = omega arith;
  ones = ground arith;
}
fits (suc (suc (suc (suc (suc zero))))) v l h = record {
  high = omega arith;
  marked = omega arith;
  whole = omega arith;
  ones = ground arith;
}
fits (suc (suc (suc (suc (suc (suc zero)))))) v l h = record {
  high = omega arith;
  marked = omega arith;
  whole = omega arith;
  ones = ground arith;
}
fits (suc (suc (suc (suc (suc (suc (suc zero))))))) v l h = record {
  high = omega arith;
  marked = omega arith;
  whole = omega arith;
  ones = ground arith;
}
fits (suc (suc (suc (suc (suc (suc (suc (suc k)))))))) v l h = absurd (omega arith)

suc-ne-zero : (k : ℕ) → (suc k == 0) ≡ false
suc-ne-zero k = ground arith

read_size-first :
    (k v : ℕ) (s : List ℕ)
    → k < 8
    → Fits k v
    → read_size ((2 ^ (7 - k) + v / 256 ^ k) ∷ s)
      ≡ size_bytes k (v / 256 ^ k) (v / 256 ^ k == 2 ^ (7 - k) - 1) s
unfolding read_size
read_size-first k v s l f =
    let n = vint_length-first k (v / 256 ^ k) l f.high in
    let w : 8 - suc k ≡ 7 - k = omega arith in
    let z : suc k - 1 ≡ k = omega arith in rw (read_size, n, w, z, suc-ne-zero k, f.marked)

-- A size that a length of 1 to 8 bytes can hold is read back from its encoding in that length, the bytes
-- behind it are left, and it is taken for the unknown size exactly where it is all ones.
pub read_size-encode_size :
    (k v : ℕ) (rest : List ℕ)
    → k < 8
    → v < 2 ^ (7 * suc k)
    → read_size (encode_size (suc k) v ++ rest) ≡ ok ((v, v == unknown_size (suc k)), rest)
unfolding encode_size
read_size-encode_size k v rest l h =
    let f = fits k v l h in
    read_size-first k v (bytes_of k v ++ rest) l f
    ∙ size_bytes-bytes_of k (v / 256 ^ k) v (v / 256 ^ k == 2 ^ (7 - k) - 1) rest l
    ∙ ap (λ n. ok ((n, (v / 256 ^ k == 2 ^ (7 - k) - 1) && (v % 256 ^ k == 256 ^ k - 1)), rest))
        f.whole
    ∙ ap (λ b. ok ((v, b), rest)) f.ones
