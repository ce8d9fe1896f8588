-- ===== src/Matroska/Total.antt =====
-- The parser ends on every input.
use pentaract.Prelude.{
  ℕ, zero, suc, ◌<◌, ◌≡◌, refl, ap, ◌∙◌, inl, inr, Bool, true, false, ◌&&◌, ◌||◌, none, List, [],
  ◌==◌, arith, bytes, Bool-cases, length, take, drop, length-drop,
}
use pentaract.OrderedJobs.Spec.{Outcome, ok, err, Outcome-cases}
use pentaract.Matroska.{
  Error, stuck, eof, unexpected_eof, invalid, panic, not_matroska, header_incomplete,
  read_element_header, each_child, read_uint, read_float, read_string, skip, Float, zero_float,
}
use pentaract.Matroska.Parser.{
  id_ebml, id_segment, id_info, id_tracks, id_cluster, id_track_entry, id_timecode_scale,
  id_duration, id_doc_type, Info, TrackEntry, into, video_child, audio_child, entry_child,
  new_entry, parse_track_entry, tracks_child, parse_tracks, info_child, parse_info, doc_child,
  parse_ebml_header, segment_loop, parse_segment, parse_matroska, wrap_incomplete, header_error,
  container_name, finish_entry, with_duration,
}
use pentaract.Matroska.Progress.{
  Ends, err-Ends, read_element_header-rest, read_element_header-Ends, each_child-Ends, Ends-if,
  read_uint-Ends, read_float-Ends, read_string-Ends, skip-Ends,
}

into-Ends : {A S : Type 0} (o : Outcome Error A) (f : A → S) → Ends o → Ends (into o f)
into-Ends (err x) f h = err-Ends (err x) x refl h
into-Ends (ok a) f h = λ e. absurd (ground arith)

video_child-Ends :
    (id : ℕ) (s : List ℕ) (size : ℕ) (t : TrackEntry) → Ends (video_child id s size t)
unfolding video_child
video_child-Ends id s size t =
    Ends-if (id == 0xB0) _ _ (into-Ends (read_uint s size) _ (read_uint-Ends s size)) (
      Ends-if (id == 0xBA) _ _ (into-Ends (read_uint s size) _ (read_uint-Ends s size))
        (skip-Ends s size t))

audio_child-Ends :
    (id : ℕ) (s : List ℕ) (size : ℕ) (t : TrackEntry) → Ends (audio_child id s size t)
unfolding audio_child
audio_child-Ends id s size t =
    Ends-if (id == 0x9F) _ _ (into-Ends (read_uint s size) _ (read_uint-Ends s size)) (
      Ends-if (id == 0xB5) _ _ (into-Ends (read_float s size) _ (read_float-Ends s size))
        (skip-Ends s size t))

entry_child-Ends :
    (id : ℕ) (s : List ℕ) (size : ℕ) (t : TrackEntry × List ℕ) → Ends (entry_child id s size t)
unfolding entry_child
entry_child-Ends id s size (t, ietf) =
    let u = read_uint-Ends s size in
    let w = read_string-Ends s size in
    Ends-if (id == 0xD7) _ _ (into-Ends (read_uint s size) _ u) (
      Ends-if (id == 0x83) _ _ (into-Ends (read_uint s size) _ u) (
        Ends-if (id == 0x86) _ _ (into-Ends (read_string s size) _ w) (
          Ends-if (id == 0x536E) _ _ (into-Ends (read_string s size) _ w) (
            Ends-if (id == 0x22B59C) _ _ (into-Ends (read_string s size) _ w) (
              Ends-if (id == 0x22B59D) _ _ (into-Ends (read_string s size) _ w) (
                Ends-if (id == 0x88) _ _ (into-Ends (read_uint s size) _ u) (
                  Ends-if (id == 0xE0) _ _
                    (into-Ends (each_child video_child s t) _
                      (each_child-Ends video_child s t video_child-Ends))
                    (Ends-if (id == 0xE1) _ _
                      (into-Ends (each_child audio_child s t) _
                        (each_child-Ends audio_child s t audio_child-Ends))
                      (skip-Ends s size (t, ietf))))))))))

parse_track_entry-Ends : (s : List ℕ) → Ends (parse_track_entry s)
unfolding parse_track_entry
parse_track_entry-Ends s =
    into-Ends (each_child entry_child s (new_entry, [])) finish_entry
      (each_child-Ends entry_child s (new_entry, []) entry_child-Ends)

tracks_child-Ends :
    (id : ℕ) (s : List ℕ) (size : ℕ) (ts : List TrackEntry) → Ends (tracks_child id s size ts)
unfolding tracks_child
tracks_child-Ends id s size ts =
    Ends-if (id == id_track_entry) _ _
      (into-Ends (parse_track_entry s) _ (parse_track_entry-Ends s)) (skip-Ends s size ts)

parse_tracks-Ends : (s : List ℕ) (info : Info) → Ends (parse_tracks s info)
unfolding parse_tracks
parse_tracks-Ends s info =
    into-Ends (each_child tracks_child s info.tracks) _
      (each_child-Ends tracks_child s info.tracks tracks_child-Ends)

info_child-Ends : (id : ℕ) (s : List ℕ) (size : ℕ) (t : ℕ × Float) → Ends (info_child id s size t)
unfolding info_child
info_child-Ends id s size (scale, duration) =
    Ends-if (id == id_timecode_scale) _ _ (into-Ends (read_uint s size) _ (read_uint-Ends s size)) (
      Ends-if (id == id_duration) _ _ (into-Ends (read_float s size) _ (read_float-Ends s size))
        (skip-Ends s size (scale, duration)))

parse_info-Ends : (s : List ℕ) (info : Info) → Ends (parse_info s info)
unfolding parse_info
parse_info-Ends s info =
    into-Ends (each_child info_child s (1000000, zero_float)) (with_duration info)
      (each_child-Ends info_child s (1000000, zero_float) info_child-Ends)

doc_child-Ends : (id : ℕ) (s : List ℕ) (size : ℕ) (d : List ℕ) → Ends (doc_child id s size d)
unfolding doc_child
doc_child-Ends id s size d =
    Ends-if (id == id_doc_type) _ _ (read_string-Ends s size) (skip-Ends s size d)

parse_ebml_header-Ends : (s : List ℕ) → Ends (parse_ebml_header s)
unfolding parse_ebml_header
parse_ebml_header-Ends s = each_child-Ends doc_child s (bytes "matroska") doc_child-Ends

-- An error that is renamed stays an end, where only that of the fuel becomes it.
renamed-Ends :
    {A B : Type 0} (f : Error → Error) (o : Outcome Error A) (x : Error)
    → ((y : Error) → f y ≡ stuck → y ≡ stuck)
    → o ≡ err x
    → Ends o
    → Ends {A = B} (err (f x))
renamed-Ends f o x g p h e = let same : f x ≡ stuck = cc in h (p ∙ ap (λ y. err y) (g x same))

wrap_incomplete-stuck : (y : Error) → wrap_incomplete y ≡ stuck → y ≡ stuck
unfolding wrap_incomplete
wrap_incomplete-stuck eof e = absurd (ground arith)
wrap_incomplete-stuck unexpected_eof e = absurd (ground arith)
wrap_incomplete-stuck invalid e = e
wrap_incomplete-stuck not_matroska e = e
wrap_incomplete-stuck header_incomplete e = e
wrap_incomplete-stuck panic e = e
wrap_incomplete-stuck stuck e = refl

header_error-stuck : (y : Error) → header_error y ≡ stuck → y ≡ stuck
unfolding header_error
header_error-stuck eof e = absurd (ground arith)
header_error-stuck unexpected_eof e = absurd (ground arith)
header_error-stuck invalid e = absurd (ground arith)
header_error-stuck not_matroska e = absurd (ground arith)
header_error-stuck header_incomplete e = absurd (ground arith)
header_error-stuck panic e = e
header_error-stuck stuck e = refl

segment_loop-Ends :
    (fuel : ℕ) (s : List ℕ) (a b : Bool) (info : Info)
    → length s < fuel
    → Ends (segment_loop fuel s a b info)
unfolding segment_loop
segment_loop-Ends zero s a b info l = absurd (omega arith)
segment_loop-Ends (suc fuel) s a b info l = elim (Bool-cases (a && b)) [
  | inl done ↦ rw (segment_loop, done) (λ e. absurd (ground arith))
  | inr more ↦ elim (Outcome-cases (read_element_header s)) [
    | inl (x, i) ↦
        rw (segment_loop, more, i)
          (renamed-Ends wrap_incomplete (read_element_header s) x wrap_incomplete-stuck i
            (read_element_header-Ends s))
    | inr (r, i) ↦
        let shorter : length (drop r.0.size r.1) < fuel =
          omega (arith, read_element_header-rest s r i, length-drop {0} r.0.size r.1) in
        let part = take r.0.size r.1 in
        elim (Bool-cases (r.0.id == id_info)) [
          | inl is_info ↦ elim (Outcome-cases (parse_info part info)) [
            | inl (x, p) ↦
                rw (segment_loop, more, i, is_info, p)
                  (err-Ends (parse_info part info) x p (parse_info-Ends part info))
            | inr (info', p) ↦
                rw (segment_loop, more, i, is_info, p)
                  (segment_loop-Ends fuel (drop r.0.size r.1) true b info' shorter)
          ]
          | inr not_info ↦ elim (Bool-cases (r.0.id == id_tracks)) [
            | inl is_tracks ↦ elim (Outcome-cases (parse_tracks part info)) [
              | inl (x, p) ↦
                  rw (segment_loop, more, i, not_info, is_tracks, p)
                    (err-Ends (parse_tracks part info) x p (parse_tracks-Ends part info))
              | inr (info', p) ↦
                  rw (segment_loop, more, i, not_info, is_tracks, p)
                    (segment_loop-Ends fuel (drop r.0.size r.1) a true info' shorter)
            ]
            | inr not_tracks ↦ elim (Bool-cases (r.0.id == id_cluster || r.0.unknown)) [
              | inl stop ↦
                  rw (segment_loop, more, i, not_info, not_tracks, stop)
                    (λ e. absurd (ground arith))
              | inr go ↦ elim (Outcome-cases (skip part r.0.size info)) [
                | inl (x, p) ↦
                    rw (segment_loop, more, i, not_info, not_tracks, go, p)
                      (renamed-Ends wrap_incomplete (skip part r.0.size info) x
                        wrap_incomplete-stuck p (skip-Ends part r.0.size info))
                | inr (info', p) ↦
                    rw (segment_loop, more, i, not_info, not_tracks, go, p)
                      (segment_loop-Ends fuel (drop r.0.size r.1) a b info' shorter)
              ]
            ]
          ]
        ]
  ]
]

parse_segment-Ends : (doc_type s : List ℕ) → Ends (parse_segment doc_type s)
unfolding parse_segment
parse_segment-Ends doc_type s = elim (Outcome-cases (read_element_header s)) [
  | inl (x, i) ↦
      rw (parse_segment, i)
        (renamed-Ends wrap_incomplete (read_element_header s) x wrap_incomplete-stuck i
          (read_element_header-Ends s))
  | inr (r, i) ↦
      rw (parse_segment, i)
        (Ends-if (r.0.id == id_segment) _ _
          (segment_loop-Ends (suc (length r.1)) r.1 false false
            (record { container = container_name doc_type; duration = none; tracks = [] })
            (omega arith))
          (λ e. absurd (ground arith)))
]

-- The parser ends on every input: with a turn for every byte and one more, none of its loops, over the
-- elements of the file and over the children at every depth, runs out of turns.
pub parse_matroska-Ends : (s : List ℕ) → Ends (parse_matroska s)
unfolding parse_matroska
parse_matroska-Ends s = elim (Outcome-cases (read_element_header s)) [
  | inl (x, i) ↦ rw (parse_matroska, i) (λ e. absurd (ground arith))
  | inr (r, i) ↦ elim (Outcome-cases (parse_ebml_header (take r.0.size r.1))) [
    | inl (x, p) ↦
        rw (parse_matroska, i, p)
          (Ends-if (r.0.id == id_ebml) _ _
            (renamed-Ends header_error (parse_ebml_header (take r.0.size r.1)) x header_error-stuck
              p (parse_ebml_header-Ends (take r.0.size r.1)))
            (λ e. absurd (ground arith)))
    | inr (d, p) ↦
        rw (parse_matroska, i, p)
          (Ends-if (r.0.id == id_ebml) _ _ (parse_segment-Ends d (drop r.0.size r.1))
            (λ e. absurd (ground arith)))
  ]
]
