-- ===== src/Matroska/Header.antt =====
-- The tracks of a file whose header is cut off, and the sizes that `make` cannot allocate.
use pentaract.Prelude.{
  ℕ, zero, suc, ◌≤◌, ◌<◌, ◌≡◌, refl, ap, sym, ◌∙◌, ◌+◌, ◌-◌, append_assoc, true, false, List, [],
  ◌∷◌, ◌++◌, arith, lt→ltb, bytes, length, take,
}
use pentaract.Prelude.Slices.{take_all, take-append}
use pentaract.OrderedJobs.Spec.{Outcome, ok, err}
use pentaract.Matroska.{
  Error, panic, max_alloc, read_id, read_full, read_string, trim_zeros, each_child, for_each_child,
}
use pentaract.Matroska.Parser.{
  id_tracks, Info, TrackEntry, into, tracks_child, parse_tracks, segment_loop, id_ebml, id_doc_type,
  doc_child, parse_ebml_header, parse_matroska, header_error,
}
use pentaract.Matroska.Sizes.{bytes_of, encode_size, unknown_size}
use pentaract.Matroska.Children.{
  Child, AreChildren, encode_children, walk, read_element_header-encode, each_child-encode,
}

-- The bytes of the id of Tracks.
abbrev pub tracks_code : List ℕ
tracks_code = 0x16 ∷ 0x54 ∷ 0xAE ∷ 0x6B ∷ []

read_id-tracks : (rest : List ℕ) → read_id (tracks_code ++ rest) ≡ ok (id_tracks, rest)
unfolding read_id
read_id-tracks rest = refl

-- A header that is cut off inside Tracks, at the end of any child, is not reported as incomplete: once Info was
-- read, the parser succeeds with the tracks of the children that there are, however many more bytes
-- the size of Tracks announces.
pub segment_loop-cut_off :
    (fuel k size : ℕ) (cs : List Child) (info : Info) (ts : List TrackEntry)
    → k < 8
    → size < unknown_size (suc k)
    → AreChildren cs
    → length (encode_children cs) ≤ size
    → walk tracks_child cs info.tracks ≡ ok ts
    → segment_loop
        (suc (suc fuel))
        (tracks_code ++ (encode_size (suc k) size ++ encode_children cs))
        true
        false
        info
      ≡ ok (record info { tracks = ts })
unfolding segment_loop parse_tracks
segment_loop-cut_off fuel k size cs info ts l f h short w =
    let s = encode_children cs in
    let head = read_element_header-encode id_tracks k size tracks_code s read_id-tracks l f in
    let parsed : parse_tracks (take size s) info ≡ ok (record info { tracks = ts }) =
      ap (λ t. parse_tracks t info) (take_all size s short)
      ∙ ap (λ r. into r (λ ts. record info { tracks = ts }))
          (each_child-encode tracks_child cs info.tracks h ∙ w) in
    rw (segment_loop, head, parsed)

-- The bytes of the ids of the EBML header and of DocType.
abbrev pub ebml_code : List ℕ
ebml_code = 0x1A ∷ 0x45 ∷ 0xDF ∷ 0xA3 ∷ []

abbrev pub doc_type_code : List ℕ
doc_type_code = 0x42 ∷ 0x82 ∷ []

read_id-ebml : (rest : List ℕ) → read_id (ebml_code ++ rest) ≡ ok (id_ebml, rest)
unfolding read_id
read_id-ebml rest = refl

read_id-doc_type : (rest : List ℕ) → read_id (doc_type_code ++ rest) ≡ ok (id_doc_type, rest)
unfolding read_id
read_id-doc_type rest = refl

read_full-panic : (s : List ℕ) (size : ℕ) → max_alloc < size → read_full s size ≡ err panic
unfolding read_full
read_full-panic s size h = rw (lt→ltb max_alloc size h)

doc_child-panic :
    (s : List ℕ) (size : ℕ) (d : List ℕ)
    → max_alloc < size
    → doc_child id_doc_type s size d ≡ err panic
unfolding doc_child read_string
doc_child-panic s size d h =
    ap
      (λ r. elim r as (λ _. Outcome Error (List ℕ)) [
        | err e ↦ err e
        | ok buf ↦ ok (trim_zeros buf)
      ])
      (read_full-panic s size h)

parse_ebml_header-panic :
    (wide size : ℕ) (rest : List ℕ)
    → wide < 8
    → max_alloc < size
    → size < unknown_size (suc wide)
    → parse_ebml_header (doc_type_code ++ (encode_size (suc wide) size ++ rest)) ≡ err panic
unfolding parse_ebml_header each_child for_each_child
parse_ebml_header-panic wide size rest l h f =
    let head =
      read_element_header-encode id_doc_type wide size doc_type_code rest read_id-doc_type l f in
    rw (for_each_child, head, doc_child-panic (take size rest) size (bytes "matroska") h)

length-bytes_of : (k v : ℕ) → length (bytes_of k v) ≡ k
unfolding bytes_of
length-bytes_of zero v = refl
length-bytes_of (suc k) v = omega (arith, length-bytes_of k v)

length-encode_size : (k size : ℕ) → length (encode_size (suc k) size) ≡ suc k
unfolding encode_size
length-encode_size k size = omega (arith, length-bytes_of k size)

-- A file whose EBML header starts with a DocType that announces more than 2^48 bytes makes the parser panic, whatever
-- the sizes of the header and of the file, and whatever follows, where the header is long enough to
-- hold the id and the size of the DocType: the buffer is made before the bytes are read.
pub parse_matroska-panic :
    (k n wide size : ℕ) (rest : List ℕ)
    → k < 8
    → n < unknown_size (suc k)
    → wide < 8
    → 3 + wide ≤ n
    → max_alloc < size
    → size < unknown_size (suc wide)
    → parse_matroska (
        ebml_code
        ++ (encode_size (suc k) n ++ (doc_type_code ++ (encode_size (suc wide) size ++ rest))))
      ≡ err panic
unfolding parse_matroska header_error
parse_matroska-panic k n wide size rest l f m long h g =
    let front = doc_type_code ++ encode_size (suc wide) size in
    let s = doc_type_code ++ (encode_size (suc wide) size ++ rest) in
    let head = read_element_header-encode id_ebml k n ebml_code s read_id-ebml l f in
    let width : length front ≡ 3 + wide = omega (arith, length-encode_size wide size) in
    let cut : take n s
        ≡ doc_type_code ++ (encode_size (suc wide) size ++ take (n - length front) rest) =
      ap (take n) (sym (append_assoc doc_type_code (encode_size (suc wide) size) rest))
      ∙ take-append n front rest
      ∙ ap (λ t. t ++ take (n - length front) rest) (take_all n front (omega (arith, width)))
      ∙ append_assoc doc_type_code (encode_size (suc wide) size) (take (n - length front) rest) in
    let inner : parse_ebml_header (take n s) ≡ err panic =
      ap parse_ebml_header cut
      ∙ parse_ebml_header-panic wide size (take (n - length front) rest) m h g in
    rw (parse_matroska, head, inner)
