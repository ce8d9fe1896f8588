-- ===== src/Media.antt =====
-- internal/media/plan.go: which tracks of a file the HLS pipeline takes, and which it copies. The tracks
-- come from the Matroska parser, which is a parameter: the lists of video and of audio tracks.
pub mod Choice
pub mod Codecs
mod Examples
use pentaract.Prelude.{
  ℕ, zero, suc, Bool, true, false, ◌||◌, Option, none, some, List, [], ◌∷◌, ◌==◌, if◌then◌else◌,
  bytes, bytes_eq, get_elem?,
}
use pentaract.OrderedJobs.Spec.{Outcome, ok, err}

pub record Track : Type 0 where
  pub number : ℕ
  pub codec : List ℕ
  pub is_default : Bool

pub record Plan : Type 0 where
  pub video : Track
  pub audio : Option Track
  pub video_copy : Bool
  pub audio_copy : Bool
  pub video_index : ℕ
  pub audio_index : ℕ

pub data Error : Type 0 where
  no_video_track audio_track_not_found : Error

abbrev pub codec_h264 : List ℕ
codec_h264 = bytes "h264"

abbrev pub codec_hevc : List ℕ
codec_hevc = bytes "hevc"

abbrev pub codec_aac : List ℕ
codec_aac = bytes "aac"

-- The first position that passes a test.
unfoldable pub first_index : (Track → Bool) → List Track → Option ℕ
first_index test [] = none
first_index test (t ∷ ts) =
    let rest = first_index test ts in
    if test t then some 0 else elim rest [ none ↦ none | some i ↦ some (suc i) ]

unfoldable pub default_audio_index : List Track → ℕ
unfolding first_index
default_audio_index audios = elim (first_index (λ t. t.is_default) audios) [ none ↦ 0 | some i ↦ i ]

-- The index of `BuildPlan`; `none` is -1.
unfoldable pub audio_index_of : List Track → ℕ → Option ℕ
unfolding default_audio_index
audio_index_of audios number =
    if number == 0
    then some (default_audio_index audios)
    else first_index (λ t. t.number == number) audios

unfoldable pub with_audio : Plan → List Track → ℕ → Outcome Error Plan
unfolding audio_index_of
with_audio plan audios number = elim (audio_index_of audios number) [
  | none ↦ err audio_track_not_found
  | some i ↦ elim (get_elem? audios i) [
    | none ↦ err audio_track_not_found
    | some audio ↦ ok (record plan {
      audio = some audio;
      audio_index = i;
      audio_copy = bytes_eq audio.codec codec_aac;
    })
  ]
]

unfoldable pub video_plan : Track → Plan
video_plan video = record {
  video = video;
  audio = none;
  video_copy = bytes_eq video.codec codec_h264 || bytes_eq video.codec codec_hevc;
  audio_copy = false;
  video_index = 0;
  audio_index = 0;
}

unfoldable pub build_plan : List Track → List Track → ℕ → Outcome Error Plan
unfolding video_plan with_audio
build_plan [] audios number = err no_video_track
build_plan (v ∷ vs) [] number = ok (video_plan v)
build_plan (v ∷ vs) (a ∷ audios) number = with_audio (video_plan v) (a ∷ audios) number

unfoldable pub with_video_transcode : Plan → Plan
with_video_transcode p = record p { video_copy = false }
