-- ===== src/Media/Codecs.antt =====
-- internal/media/plan.go: the names of codecs, over bytes; the ids of Matroska are ASCII.
use pentaract.Prelude.{
  ℕ, ◌+◌, ◌-◌, ◌≡◌, refl, Bool, true, false, ◌&&◌, ◌==◌, List, [], ◌∷◌, map, if◌then◌else◌, leb,
  bytes,
}

-- strings.ToUpper and strings.ToLower on ASCII letters.
unfoldable pub to_upper : ℕ → ℕ
to_upper c = if leb 97 c && leb c 122 then c - 32 else c

unfoldable pub to_lower : ℕ → ℕ
to_lower c = if leb 65 c && leb c 90 then c + 32 else c

unfoldable pub starts_with : List ℕ → List ℕ → Bool
starts_with [] s = true
starts_with (p ∷ ps) [] = false
starts_with (p ∷ ps) (c ∷ s) = (p == c) && starts_with ps s

-- The first prefix that fits decides.
abbrev codec_by_prefix : List (List ℕ × List ℕ)
codec_by_prefix =
    (bytes "V_MPEG4/ISO/AVC", bytes "h264")
    ∷ (bytes "V_MPEGH/ISO/HEVC", bytes "hevc")
    ∷ (bytes "V_MPEG4/ISO/ASP", bytes "mpeg4")
    ∷ (bytes "V_MPEG4/ISO/SP", bytes "mpeg4")
    ∷ (bytes "V_MPEG4/ISO/AP", bytes "mpeg4")
    ∷ (bytes "V_MPEG4/MS/V3", bytes "msmpeg4")
    ∷ (bytes "V_MPEG2", bytes "mpeg2video")
    ∷ (bytes "V_MPEG1", bytes "mpeg1video")
    ∷ (bytes "V_VP9", bytes "vp9")
    ∷ (bytes "V_VP8", bytes "vp8")
    ∷ (bytes "V_AV1", bytes "av1")
    ∷ (bytes "V_THEORA", bytes "theora")
    ∷ (bytes "V_PRORES", bytes "prores")
    ∷ (bytes "V_MS/VFW/FOURCC", bytes "vfw")
    ∷ (bytes "A_AAC", bytes "aac")
    ∷ (bytes "A_EAC3", bytes "eac3")
    ∷ (bytes "A_AC3", bytes "ac3")
    ∷ (bytes "A_DTS", bytes "dts")
    ∷ (bytes "A_TRUEHD", bytes "truehd")
    ∷ (bytes "A_MLP", bytes "mlp")
    ∷ (bytes "A_FLAC", bytes "flac")
    ∷ (bytes "A_OPUS", bytes "opus")
    ∷ (bytes "A_VORBIS", bytes "vorbis")
    ∷ (bytes "A_MPEG/L3", bytes "mp3")
    ∷ (bytes "A_MPEG/L2", bytes "mp2")
    ∷ (bytes "A_MPEG/L1", bytes "mp1")
    ∷ (bytes "A_PCM", bytes "pcm")
    ∷ (bytes "A_ALAC", bytes "alac")
    ∷ (bytes "A_MS/ACM", bytes "acm")
    ∷ (bytes "S_TEXT/UTF8", bytes "subrip")
    ∷ (bytes "S_TEXT/ASCII", bytes "subrip")
    ∷ (bytes "S_TEXT/ASS", bytes "ass")
    ∷ (bytes "S_TEXT/SSA", bytes "ssa")
    ∷ (bytes "S_TEXT/WEBVTT", bytes "webvtt")
    ∷ (bytes "S_HDMV/PGS", bytes "pgs")
    ∷ (bytes "S_VOBSUB", bytes "vobsub")
    ∷ (bytes "S_DVBSUB", bytes "dvbsub")
    ∷ []

unfoldable pub name_by_prefix : List (List ℕ × List ℕ) → List ℕ → List ℕ → List ℕ
unfolding starts_with
name_by_prefix [] upper fallback = fallback
name_by_prefix ((prefix, name) ∷ rest) upper fallback =
    let other = name_by_prefix rest upper fallback in
    if starts_with prefix upper then name else other

unfoldable pub codec_name : List ℕ → List ℕ
unfolding name_by_prefix to_upper to_lower
codec_name codec_id = name_by_prefix codec_by_prefix (map to_upper codec_id) (map to_lower codec_id)

-- Tests: a known id in small letters, the longer of two prefixes, and an unknown id.
known_id : codec_name (bytes "v_mpegh/iso/hevc") ≡ bytes "hevc"
unfolding codec_name
known_id = refl

profile_id : codec_name (bytes "V_MPEG4/ISO/ASP") ≡ bytes "mpeg4"
unfolding codec_name
profile_id = refl

unknown_id : codec_name (bytes "X_Other") ≡ bytes "x_other"
unfolding codec_name
unknown_id = refl
