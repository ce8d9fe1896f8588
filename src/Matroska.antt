-- ===== src/Matroska.antt =====
-- internal/media/matroska.go. A reader is the list of its bytes that are left; the parser of an element gets
-- the bytes of its limited reader and goes on behind them. The loops over elements have fuel.
pub mod Parser
pub mod Sizes
pub mod Progress
pub mod Total
pub mod Children
pub mod Header
mod Examples
use pentaract.Prelude.{
  ℕ, zero, suc, ◌+◌, ◌-◌, ◌*◌, ◌/◌, ◌%◌, ◌^◌, Bool, true, false, ◌&&◌, ◌||◌, not, Option, none,
  some, List, [], ◌∷◌, ◌++◌, ◌==◌, if◌then◌else◌, ltb, leb, bytes, bytes_eq, length, take, drop,
  map,
}
use pentaract.Prelude.Int.{ℤ, pos, negsuc}
use pentaract.OrderedJobs.Spec.{Outcome, ok, err}
use pentaract.Media.Codecs.{codec_name, to_lower}

-- `panic` is that of `make` with an impossible length; `stuck` is no Go value, the fuel ran out.
pub data Error : Type 0 where
  eof unexpected_eof invalid not_matroska header_incomplete panic stuck : Error

abbrev pub is_eof : Error → Bool
is_eof eof = true
is_eof _ = false

unfoldable pub no_eof : Error → Error
no_eof eof = unexpected_eof
no_eof e = e

-- The bits of the byte from the highest on.
unfoldable pub vint_from : ℕ → ℕ → ℕ → ℕ
vint_from zero i first = 0
vint_from (suc left) i first =
    let rest = vint_from left (suc i) first in if first / 2 ^ left % 2 == 1 then suc i else rest

unfoldable pub vint_length : ℕ → ℕ
unfolding vint_from
vint_length first = vint_from 8 0 first

-- The loop of `readID`; an id has 4 bytes at most.
unfoldable pub id_bytes : ℕ → ℕ → List ℕ → Outcome Error (ℕ × List ℕ)
id_bytes zero id s = ok (id, s)
id_bytes (suc k) id [] = err unexpected_eof
id_bytes (suc k) id (b ∷ s) = id_bytes k (id * 256 + b) s

unfoldable pub read_id : List ℕ → Outcome Error (ℕ × List ℕ)
unfolding vint_length id_bytes
read_id [] = err eof
read_id (first ∷ s) =
    let n = vint_length first in if n == 0 || ltb 4 n then err invalid else id_bytes (n - 1) first s

-- The loop of `readSize`: the value, and whether all bits were ones.
unfoldable pub size_bytes : ℕ → ℕ → Bool → List ℕ → Outcome Error ((ℕ × Bool) × List ℕ)
size_bytes zero value all_ones s = ok ((value, all_ones), s)
size_bytes (suc k) value all_ones [] = err unexpected_eof
size_bytes (suc k) value all_ones (b ∷ s) = size_bytes k (value * 256 + b) (all_ones && b == 255) s

-- `first & mask`, where the mask is 0xFF >> n.
unfoldable pub read_size : List ℕ → Outcome Error ((ℕ × Bool) × List ℕ)
unfolding vint_length size_bytes
read_size [] = err eof
read_size (first ∷ s) =
    let n = vint_length first in
    let value = first % 2 ^ (8 - n) in
    if n == 0 then err invalid else size_bytes (n - 1) value (value == 2 ^ (8 - n) - 1) s

pub record ElementHeader : Type 0 where
  pub id : ℕ
  pub size : ℕ
  pub unknown : Bool

unfoldable pub read_element_header : List ℕ → Outcome Error (ElementHeader × List ℕ)
unfolding read_id read_size no_eof
read_element_header s = elim (read_id s) [
  | err e ↦ err e
  | ok (id, s') ↦ elim (read_size s') [
    | err e ↦ err (no_eof e)
    | ok ((size, unknown), rest) ↦ ok (record { id = id; size = size; unknown = unknown }, rest)
  ]
]

-- `forEachChild`: `fn` gets the id, the bytes of the child and its size.
module _ {S : Type 0} (fn : ℕ → List ℕ → ℕ → S → Outcome Error S) where
  unfoldable pub for_each_child : ℕ → List ℕ → S → Outcome Error S
  unfolding read_element_header
  for_each_child zero s st = err stuck
  for_each_child (suc fuel) s st = elim (read_element_header s) [
    | err e ↦ if is_eof e then ok st else err e
    | ok (h, rest) ↦ elim h.unknown [
      | true ↦ err invalid
      | false ↦ elim (fn h.id (take h.size rest) h.size st) [
        | err e ↦ err e
        | ok st' ↦ for_each_child fuel (drop h.size rest) st'
      ]
    ]
  ]

-- With fuel for every byte.
unfoldable pub each_child :
    {S : Type 0} → (ℕ → List ℕ → ℕ → S → Outcome Error S) → List ℕ → S → Outcome Error S
unfolding for_each_child
each_child fn s st = for_each_child fn (suc (length s)) s st

-- `make([]byte, size)` panics from here on (linux/amd64).
abbrev pub max_alloc : ℕ
max_alloc = 2 ^ 48

-- `io.ReadFull` into a new buffer.
unfoldable pub read_full : List ℕ → ℕ → Outcome Error (List ℕ)
read_full s size =
    if ltb max_alloc size
    then err panic
    else if ltb (length s) size
    then err unexpected_eof
    else ok (take size s)

unfoldable pub big_endian : ℕ → List ℕ → ℕ
big_endian v [] = v
big_endian v (b ∷ s) = big_endian (v * 256 + b) s

unfoldable pub read_uint : List ℕ → ℕ → Outcome Error ℕ
unfolding read_full big_endian
read_uint s size =
    if ltb 8 size
    then err invalid
    else elim (read_full s size) [ err e ↦ err e | ok buf ↦ ok (big_endian 0 buf) ]

-- The bits of a float.
pub data Float : Type 0 where
  zero_float : Float
  float32 float64 : ℕ → Float

-- `f > 0`: neither a sign, nor zero, nor NaN.
unfoldable pub is_positive : Float → Bool
is_positive zero_float = false
is_positive (float32 b) = ltb 0 b && leb b 0x7f800000
is_positive (float64 b) = ltb 0 b && leb b 0x7ff0000000000000

unfoldable pub read_float : List ℕ → ℕ → Outcome Error Float
unfolding read_full big_endian
read_float s size = elim (read_full s size) [
  | err e ↦ err e
  | ok buf ↦
      if size == 0
      then ok zero_float
      else if size == 4
      then ok (float32 (big_endian 0 buf))
      else if size == 8
      then ok (float64 (big_endian 0 buf))
      else err invalid
]

-- strings.TrimRight(s, "\x00").
unfoldable pub trim_zeros : List ℕ → List ℕ
trim_zeros [] = []
trim_zeros (c ∷ s) = let rest = trim_zeros s in if bytes_eq rest [] && c == 0 then [] else c ∷ rest

unfoldable pub read_string : List ℕ → ℕ → Outcome Error (List ℕ)
unfolding read_full trim_zeros
read_string s size = elim (read_full s size) [ err e ↦ err e | ok buf ↦ ok (trim_zeros buf) ]

-- What `skip` reports of the bytes that there are.
unfoldable pub skip : {S : Type 0} → List ℕ → ℕ → S → Outcome Error S
skip s size st = if ltb (length s) size then err unexpected_eof else ok st
