-- ===== src/Matroska/Examples.antt =====
-- A small file, with an Info and two tracks.
use pentaract.Prelude.{
  ℕ, ◌^◌, ◌<◌, ◌≤◌, ◌≡◌, ◌≢◌, refl, true, false, none, List, [], ◌∷◌, ◌++◌, ◌==◌, arith, bytes,
  bytes_eq, length,
}
use pentaract.OrderedJobs.Spec.{ok, err}
use pentaract.Matroska.{stuck, panic, read_size, read_id, each_child}
use pentaract.Matroska.Parser.{
  Info, TrackEntry, new_entry, video, audio, tracks_child, segment_loop, parse_matroska,
}
use pentaract.Matroska.Sizes.{encode_size, unknown_size, read_size-encode_size}
use pentaract.Matroska.Total.{parse_matroska-Ends}
use pentaract.Matroska.Children.{Child, IsChild, encode_children, walk, each_child-encode}
use pentaract.Matroska.Header.{
  tracks_code, ebml_code, doc_type_code, segment_loop-cut_off, parse_matroska-panic,
}

abbrev number : ℕ → Child
number n = record { id = 0xD7; code = 0xD7 ∷ []; wide = 0; payload = n ∷ [] }

abbrev kind : ℕ → Child
kind n = record { id = 0x83; code = 0x83 ∷ []; wide = 0; payload = n ∷ [] }

abbrev entry : ℕ → ℕ → Child
entry n k = record {
  id = 0xAE;
  code = 0xAE ∷ [];
  wide = 1;
  payload = encode_children (number n ∷ kind k ∷ []);
}

abbrev entries : List Child
entries = entry 1 1 ∷ entry 2 2 ∷ []

abbrev file : List ℕ
file =
    ebml_code
    ++ (0x80
        ∷ (0x18
            ∷ 0x53
            ∷ 0x80
            ∷ 0x67
            ∷ 0xFF
            ∷ 0x15
            ∷ 0x49
            ∷ 0xA9
            ∷ 0x66
            ∷ 0x80
            ∷ (tracks_code
                ++ (encode_size 2 (length (encode_children entries)) ++ encode_children entries))))

abbrev found : List TrackEntry
found =
    record new_entry { number = 1; kind = video; language = bytes "und" }
    ∷ record new_entry { number = 2; kind = audio; language = bytes "und" }
    ∷ []

parsed :
    parse_matroska file
    ≡ ok (record { container = bytes "matroska"; duration = none; tracks = found })
unfolding parse_matroska encode_children encode_size bytes_eq
parsed = refl

read_size-encode_size_example :
    read_size (encode_size 3 5000 ++ 7 ∷ []) ≡ ok ((5000, 5000 == unknown_size 3), 7 ∷ [])
read_size-encode_size_example = read_size-encode_size 2 5000 (7 ∷ []) (omega arith) (omega arith)

parse_matroska-Ends_example : parse_matroska file ≢ err stuck
parse_matroska-Ends_example = parse_matroska-Ends file

entry-code : (rest : List ℕ) → read_id (0xAE ∷ rest) ≡ ok (0xAE, rest)
unfolding read_id
entry-code rest = refl

entry-fits : (n k : ℕ) → length (encode_children (number n ∷ kind k ∷ [])) < unknown_size 2
unfolding encode_children encode_size
entry-fits n k = omega arith

entry-IsChild : (n k : ℕ) → IsChild (entry n k)
entry-IsChild n k = record { code = entry-code; wide = omega arith; fits = entry-fits n k }

each_child-encode_example :
    each_child tracks_child (encode_children entries) [] ≡ walk tracks_child entries []
each_child-encode_example =
    each_child-encode tracks_child entries [] (entry-IsChild 1 1, (entry-IsChild 2 2, tt))

two_entries : length (encode_children entries) ≤ 500
unfolding encode_children encode_size
two_entries = omega arith

walked : walk tracks_child entries [] ≡ ok found
unfolding walk tracks_child encode_children encode_size bytes_eq
walked = refl

abbrev blank : Info
blank = record { container = bytes "matroska"; duration = none; tracks = [] }

segment_loop-cut_off_run :
    segment_loop 2 (tracks_code ++ (encode_size 2 500 ++ encode_children entries)) true false blank
    ≡ ok (record blank { tracks = found })
segment_loop-cut_off_run =
    segment_loop-cut_off 0 1 500 entries blank found (omega arith) (omega arith)
      (entry-IsChild 1 1, (entry-IsChild 2 2, tt)) two_entries walked

parse_matroska-panic_example :
    parse_matroska
      (ebml_code ++ (encode_size 1 10 ++ (doc_type_code ++ (encode_size 8 (2 ^ 50) ++ []))))
    ≡ err panic
parse_matroska-panic_example =
    parse_matroska-panic 0 10 7 (2 ^ 50) [] (omega arith) (omega arith) (omega arith) (omega arith)
      (omega arith) (omega arith)
