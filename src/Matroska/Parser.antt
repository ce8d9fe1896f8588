-- ===== src/Matroska/Parser.antt =====
-- The elements of internal/media/matroska.go: header, Info and Tracks. The duration is kept as the float and
-- the scale whose product `parseInfo` takes.
use pentaract.Prelude.{
  ℕ, zero, suc, ◌-◌, ◌^◌, Bool, true, false, ◌&&◌, ◌||◌, not, Option, none, some, List, [], ◌∷◌,
  ◌++◌, ◌==◌, if◌then◌else◌, ltb, bytes, bytes_eq, length, drop, take, map,
}
use pentaract.Prelude.Int.{ℤ, pos, negsuc}
use pentaract.OrderedJobs.Spec.{Outcome, ok, err}
use pentaract.Media.Codecs.{codec_name, to_lower}
use pentaract.Matroska.{
  Error, not_matroska, header_incomplete, invalid, stuck, eof, unexpected_eof, panic,
  read_element_header, each_child, read_uint, read_float, read_string, skip, Float, zero_float,
  is_positive,
}

-- The ids of the elements.
abbrev pub id_ebml : ℕ
id_ebml = 0x1A45DFA3

abbrev pub id_doc_type : ℕ
id_doc_type = 0x4282

abbrev pub id_segment : ℕ
id_segment = 0x18538067

abbrev pub id_info : ℕ
id_info = 0x1549A966

abbrev pub id_timecode_scale : ℕ
id_timecode_scale = 0x2AD7B1

abbrev pub id_duration : ℕ
id_duration = 0x4489

abbrev pub id_tracks : ℕ
id_tracks = 0x1654AE6B

abbrev pub id_track_entry : ℕ
id_track_entry = 0xAE

abbrev pub id_cluster : ℕ
id_cluster = 0x1F43B675

pub data TrackType : Type 0 where
  video audio subtitle other : TrackType

pub record TrackEntry : Type 0 where
  pub number : ℕ
  pub kind : TrackType
  pub codec_id : List ℕ
  pub codec : List ℕ
  pub name : List ℕ
  pub language : List ℕ
  pub is_default : Bool
  pub width : ℤ
  pub height : ℤ
  pub channels : ℤ
  pub sample_rate : Float

unfoldable pub track_type_name : ℕ → TrackType
track_type_name v =
    if v == 1 then video else if v == 2 then audio else if v == 17 then subtitle else other

-- `int(v)` of a uint64.
unfoldable pub to_int : ℕ → ℤ
to_int v = if ltb v (2 ^ 63) then pos v else negsuc (2 ^ 64 - 1 - v)

-- A value that was read, put into a state.
abbrev pub into : {A S : Type 0} → Outcome Error A → (A → S) → Outcome Error S
into (err e) f = err e
into (ok a) f = ok (f a)

-- The children of a video and of an audio element.
unfoldable pub video_child : ℕ → List ℕ → ℕ → TrackEntry → Outcome Error TrackEntry
unfolding read_uint skip to_int
video_child id s size t =
    if id == 0xB0
    then into (read_uint s size) (λ v. record t { width = to_int v })
    else if id == 0xBA
    then into (read_uint s size) (λ v. record t { height = to_int v })
    else skip s size t

unfoldable pub audio_child : ℕ → List ℕ → ℕ → TrackEntry → Outcome Error TrackEntry
unfolding read_uint read_float skip to_int
audio_child id s size t =
    if id == 0x9F
    then into (read_uint s size) (λ v. record t { channels = to_int v })
    else if id == 0xB5
    then into (read_float s size) (λ v. record t { sample_rate = v })
    else skip s size t

-- The track, and the IETF language.
unfoldable pub entry_child :
    ℕ → List ℕ → ℕ → TrackEntry × List ℕ → Outcome Error (TrackEntry × List ℕ)
unfolding read_uint read_string skip track_type_name each_child video_child audio_child
entry_child id s size (t, ietf) =
    if id == 0xD7
    then into (read_uint s size) (λ v. (record t { number = v }, ietf))
    else if id == 0x83
    then into (read_uint s size) (λ v. (record t { kind = track_type_name v }, ietf))
    else if id == 0x86
    then into (read_string s size) (λ v. (record t { codec_id = v }, ietf))
    else if id == 0x536E
    then into (read_string s size) (λ v. (record t { name = v }, ietf))
    else if id == 0x22B59C
    then into (read_string s size) (λ v. (record t { language = v }, ietf))
    else if id == 0x22B59D
    then into (read_string s size) (λ v. (t, v))
    else if id == 0x88
    then into (read_uint s size) (λ v. (record t { is_default = not (v == 0) }, ietf))
    else if id == 0xE0
    then into (each_child video_child s t) (λ u. (u, ietf))
    else if id == 0xE1
    then into (each_child audio_child s t) (λ u. (u, ietf))
    else skip s size (t, ietf)

abbrev pub new_entry : TrackEntry
new_entry = record {
  number = 0;
  kind = other;
  codec_id = [];
  codec = [];
  name = [];
  language = [];
  is_default = true;
  width = pos 0;
  height = pos 0;
  channels = pos 0;
  sample_rate = zero_float;
}

unfoldable pub finish_entry : TrackEntry × List ℕ → TrackEntry
unfolding codec_name
finish_entry (t, ietf) =
    let language = if bytes_eq ietf [] then t.language else ietf in
    record t {
      language = if bytes_eq language [] then bytes "und" else language;
      codec = codec_name t.codec_id;
    }

unfoldable pub parse_track_entry : List ℕ → Outcome Error TrackEntry
unfolding each_child entry_child finish_entry
parse_track_entry s = into (each_child entry_child s (new_entry, [])) finish_entry

-- Info, of which Tracks appends its entries.
pub record Info : Type 0 where
  pub container : List ℕ
  pub duration : Option (Float × ℕ)
  pub tracks : List TrackEntry

unfoldable pub tracks_child : ℕ → List ℕ → ℕ → List TrackEntry → Outcome Error (List TrackEntry)
unfolding parse_track_entry skip
tracks_child id s size ts =
    if id == id_track_entry
    then into (parse_track_entry s) (λ t. ts ++ (t ∷ []))
    else skip s size ts

unfoldable pub parse_tracks : List ℕ → Info → Outcome Error Info
unfolding each_child tracks_child
parse_tracks s info =
    into (each_child tracks_child s info.tracks) (λ ts. record info { tracks = ts })

-- The scale and the duration.
unfoldable pub info_child : ℕ → List ℕ → ℕ → ℕ × Float → Outcome Error (ℕ × Float)
unfolding read_uint read_float skip
info_child id s size (scale, duration) =
    if id == id_timecode_scale
    then into (read_uint s size) (λ v. (v, duration))
    else if id == id_duration
    then into (read_float s size) (λ v. (scale, v))
    else skip s size (scale, duration)

unfoldable pub with_duration : Info → ℕ × Float → Info
unfolding is_positive
with_duration info (scale, duration) =
    if is_positive duration && ltb 0 scale
    then record info { duration = some (duration, scale) }
    else info

unfoldable pub parse_info : List ℕ → Info → Outcome Error Info
unfolding each_child info_child with_duration
parse_info s info = into (each_child info_child s (1000000, zero_float)) (with_duration info)

unfoldable pub doc_child : ℕ → List ℕ → ℕ → List ℕ → Outcome Error (List ℕ)
unfolding read_string skip
doc_child id s size doc_type =
    if id == id_doc_type then read_string s size else skip s size doc_type

unfoldable pub parse_ebml_header : List ℕ → Outcome Error (List ℕ)
unfolding each_child doc_child
parse_ebml_header s = each_child doc_child s (bytes "matroska")

unfoldable pub container_name : List ℕ → List ℕ
unfolding to_lower
container_name doc_type =
    if bytes_eq (map to_lower doc_type) (bytes "webm") then bytes "webm" else bytes "matroska"

unfoldable pub wrap_incomplete : Error → Error
wrap_incomplete eof = header_incomplete
wrap_incomplete unexpected_eof = header_incomplete
wrap_incomplete e = e

-- The loop of `ParseMatroska`.
unfoldable pub segment_loop : ℕ → List ℕ → Bool → Bool → Info → Outcome Error Info
unfolding read_element_header parse_info parse_tracks skip wrap_incomplete
segment_loop zero s have_info have_tracks info = err stuck
segment_loop (suc fuel) s have_info have_tracks info = elim (have_info && have_tracks) [
  | true ↦ ok info
  | false ↦ elim (read_element_header s) [
    | err e ↦ err (wrap_incomplete e)
    | ok (h, rest) ↦ elim (h.id == id_info) [
      | true ↦ elim (parse_info (take h.size rest) info) [
        | err e ↦ err e
        | ok info' ↦ segment_loop fuel (drop h.size rest) true have_tracks info'
      ]
      | false ↦ elim (h.id == id_tracks) [
        | true ↦ elim (parse_tracks (take h.size rest) info) [
          | err e ↦ err e
          | ok info' ↦ segment_loop fuel (drop h.size rest) have_info true info'
        ]
        | false ↦ elim (h.id == id_cluster || h.unknown) [
          | true ↦ err (if h.id == id_cluster then header_incomplete else invalid)
          | false ↦ elim (skip (take h.size rest) h.size info) [
            | err e ↦ err (wrap_incomplete e)
            | ok info' ↦ segment_loop fuel (drop h.size rest) have_info have_tracks info'
          ]
        ]
      ]
    ]
  ]
]

unfoldable pub parse_segment : List ℕ → List ℕ → Outcome Error Info
unfolding read_element_header segment_loop container_name wrap_incomplete
parse_segment doc_type s = elim (read_element_header s) [
  | err e ↦ err (wrap_incomplete e)
  | ok (h, rest) ↦
      if h.id == id_segment
      then segment_loop (suc (length rest)) rest false false
          (record { container = container_name doc_type; duration = none; tracks = [] })
      else err invalid
]

-- An error of the EBML header becomes ErrNotMatroska; a panic is no error.
unfoldable pub header_error : Error → Error
header_error panic = panic
header_error stuck = stuck
header_error e = not_matroska

unfoldable pub parse_matroska : List ℕ → Outcome Error Info
unfolding read_element_header parse_ebml_header parse_segment header_error
parse_matroska s = elim (read_element_header s) [
  | err e ↦ err not_matroska
  | ok (h, rest) ↦
      if h.id == id_ebml
      then elim (parse_ebml_header (take h.size rest)) [
        | err e ↦ err (header_error e)
        | ok doc_type ↦ parse_segment doc_type (drop h.size rest)
      ]
      else err not_matroska
]
