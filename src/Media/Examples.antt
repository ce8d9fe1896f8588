-- ===== src/Media/Examples.antt =====
-- Witnesses of the plans: one video track, two audio tracks.
use pentaract.Prelude.{
  ℕ, ◌≡◌, ◌≢◌, ◌⊎◌, Bool, true, false, none, List, [], ◌∷◌, ◌==◌, get_elem?, arith,
}
use pentaract.OrderedJobs.Spec.{ok, err}
use pentaract.Media.{
  Track, Plan, build_plan, default_audio_index, first_index, audio_track_not_found, codec_h264,
  codec_aac,
}
use pentaract.Media.Choice.{IsFirst, build_plan-default, build_plan-wish}

abbrev track : ℕ → List ℕ → Bool → Track
track n codec is_default = record { number = n; codec = codec; is_default = is_default }

abbrev audios : List Track
audios = track 3 codec_aac true ∷ []

build_plan-default_run :
    (p : Plan) × (build_plan (track 1 codec_h264 true ∷ []) (track 2 codec_aac false ∷ audios) 0
      ≡ ok p)
    × (p.video ≡ track 1 codec_h264 true)
    × (p.audio_index ≡ default_audio_index (track 2 codec_aac false ∷ audios))
    × (p.audio ≡ get_elem? (track 2 codec_aac false ∷ audios) p.audio_index)
build_plan-default_run =
    build_plan-default (track 1 codec_h264 true) [] (track 2 codec_aac false) audios

abbrev wished : ℕ
wished = 3

three_is_wish : wished ≢ 0
three_is_wish h = omega arith

build_plan-wish_run :
    ((p : Plan) × (build_plan (track 1 codec_h264 true ∷ []) (track 2 codec_aac false ∷ audios) 3
        ≡ ok p)
      × (p.video ≡ track 1 codec_h264 true)
      × (p.audio ≡ get_elem? (track 2 codec_aac false ∷ audios) p.audio_index)
      × IsFirst (λ t. t.number == 3) (track 2 codec_aac false ∷ audios) p.audio_index)
    ⊎ ((build_plan (track 1 codec_h264 true ∷ []) (track 2 codec_aac false ∷ audios) 3
          ≡ err audio_track_not_found)
        × (first_index (λ t. t.number == 3) (track 2 codec_aac false ∷ audios) ≡ none))
build_plan-wish_run =
    build_plan-wish (track 1 codec_h264 true) [] (track 2 codec_aac false) audios 3 three_is_wish
