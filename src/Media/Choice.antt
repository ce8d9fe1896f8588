-- ===== src/Media/Choice.antt =====
-- The audio track that a plan takes.
use pentaract.Prelude.{
  ℕ, zero, suc, ◌<◌, ◌≡◌, ◌≢◌, refl, sym, ap, ◌∙◌, ◌⊎◌, inl, inr, Bool, true, false, none, some,
  List, [], ◌∷◌, ◌==◌, get_elem?, arith, Bool-cases, Option-cases, bytes_eq,
}
use pentaract.OrderedJobs.Spec.{ok, err}
use pentaract.Media.{
  Track, Plan, audio_track_not_found, codec_aac, first_index, default_audio_index, audio_index_of,
  with_audio, video_plan, build_plan,
}

-- The track at the index, and no track before it passes the test.
abbrev pub IsFirst : (Track → Bool) → List Track → ℕ → Type 0
IsFirst test ts i =
    ((t : Track) × (get_elem? ts i ≡ some t) × (test t ≡ true))
    × ((k : ℕ) (t : Track) → k < i → get_elem? ts k ≡ some t → test t ≡ false)

first_index-some :
    (test : Track → Bool) (ts : List Track) (i : ℕ)
    → first_index test ts ≡ some i
    → IsFirst test ts i
unfolding first_index
first_index-some test [] i h = absurd (ground arith)
first_index-some test (t ∷ ts) zero h = elim (Bool-cases (test t)) [
  | inl e ↦ ((t, refl, e), λ k x b g. absurd (omega arith))
  | inr e ↦ elim (Option-cases (first_index test ts)) [
    | inl n ↦ absurd (ground arith)
    | inr (k, n) ↦ absurd (ground arith)
  ]
]
first_index-some test (t ∷ ts) (suc i) h = elim (Bool-cases (test t)) [
  | inl e ↦ absurd (ground arith)
  | inr e ↦ elim (Option-cases (first_index test ts)) [
    | inl n ↦ absurd (ground arith)
    | inr (k, n) ↦
        let found = first_index-some test ts i (ground arith) in (found.0, earlier i e found.1)
  ]
]
  where
    earlier :
        (i : ℕ)
        → test t ≡ false
        → ((k : ℕ) (x : Track) → k < i → get_elem? ts k ≡ some x → test x ≡ false)
        → (k : ℕ) (x : Track) → k < suc i
        → get_elem? (t ∷ ts) k ≡ some x
        → test x ≡ false
    earlier i e f zero x b g = ap test {x = x} {y = t} (ground arith) ∙ e
    earlier i e f (suc k) x b g = f k x (omega arith) g

default-in :
    (a : Track) (ts : List Track)
    → (t : Track) × (get_elem? (a ∷ ts) (default_audio_index (a ∷ ts)) ≡ some t)
unfolding default_audio_index
default-in a ts = elim (Option-cases (first_index (λ t. t.is_default) (a ∷ ts))) [
  | inl n ↦ rw (default_audio_index, n) (a, refl)
  | inr (i, n) ↦
      let found = (first_index-some (λ t. t.is_default) (a ∷ ts) i n).0 in
      rw (default_audio_index, n) (found.0, found.1)
]

with_audio-at :
    (p : Plan) (audios : List Track) (number i : ℕ) (t : Track)
    → audio_index_of audios number ≡ some i
    → get_elem? audios i ≡ some t
    → with_audio p audios number
      ≡ ok (record p { audio = some t; audio_index = i; audio_copy = bytes_eq t.codec codec_aac })
unfolding with_audio
with_audio-at p audios number i t e g = rw (with_audio, e, g)

-- Without a wish for an audio track a plan is always found for a file with video: the first video track,
-- and the first audio track that is marked as default, or the first of all where none is marked.
pub build_plan-default :
    (v : Track) (vs : List Track) (a : Track) (audios : List Track)
    → (p : Plan) × (build_plan (v ∷ vs) (a ∷ audios) 0 ≡ ok p)
      × (p.video ≡ v)
      × (p.audio_index ≡ default_audio_index (a ∷ audios))
      × (p.audio ≡ get_elem? (a ∷ audios) p.audio_index)
unfolding build_plan audio_index_of video_plan
build_plan-default v vs a audios =
    let (t, g) = default-in a audios in
    let i = default_audio_index (a ∷ audios) in
    (
      record (video_plan v) {
        audio = some t;
        audio_index = i;
        audio_copy = bytes_eq t.codec codec_aac;
      },
      with_audio-at (video_plan v) (a ∷ audios) 0 i t refl g,
      refl,
      refl,
      sym g,
    )

-- A wish for an audio track by its number, which is not 0, gives the first audio track with that number
-- and the first video track, or the error that no audio track has it.
pub build_plan-wish :
    (v : Track) (vs : List Track) (a : Track) (audios : List Track) (number : ℕ)
    → number ≢ 0
    → ((p : Plan) × (build_plan (v ∷ vs) (a ∷ audios) number ≡ ok p)
        × (p.video ≡ v)
        × (p.audio ≡ get_elem? (a ∷ audios) p.audio_index)
        × IsFirst (λ t. t.number == number) (a ∷ audios) p.audio_index)
      ⊎ ((build_plan (v ∷ vs) (a ∷ audios) number ≡ err audio_track_not_found)
          × (first_index (λ t. t.number == number) (a ∷ audios) ≡ none))
unfolding build_plan audio_index_of video_plan with_audio
build_plan-wish v vs a audios number wish =
    let nonzero : (number == 0) ≡ false = ground arith in
    elim (Option-cases (first_index (λ t. t.number == number) (a ∷ audios))) [
      | inl n ↦ inr (rw (build_plan, with_audio, nonzero, n), n)
      | inr (i, n) ↦
          let first_ = first_index-some (λ t. t.number == number) (a ∷ audios) i n in
          let (t, g, same) = first_.0 in
          inl (
            record (video_plan v) {
              audio = some t;
              audio_index = i;
              audio_copy = bytes_eq t.codec codec_aac;
            },
            with_audio-at (video_plan v) (a ∷ audios) number i t (rw (audio_index_of, nonzero) n) g,
            refl,
            sym g,
            first_,
          )
    ]
