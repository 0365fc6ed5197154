-- ===== src/Ingestion/Composed.antt =====
-- The sources that apps/worker/cmd/ingestion/ingestor.go builds, at work.
use mathlib.Core.Path.{subst}
use streamlation.Prelude.{
  ℕ, ◌≡◌, arith, refl, sym, ap, ◌∙◌, Bool-cases, inl, inr, Option, none, some, [], ◌∷◌,
}
use streamlation.Prelude.Int.{pos}
use streamlation.Prelude.Text.{Bytes, text, equal}
use streamlation.Prelude.Result.{Result, ok, err}
use streamlation.Session.{TranslationSession}
use streamlation.Ingestion.{Surroundings}
use streamlation.Ingestion.File.{FileStreamSource, FileError, positive_or}
use streamlation.Ingestion.Hls.{
  HlsConfig, HlsStreamSource, hls_source, new_hls_stream_source, Web, polls,
}
use streamlation.Ingestion.Hls.Playlist.{HlsError}
use streamlation.Ingestion.Hls.Polls.{IsPolling, polls-IsPolling}
use streamlation.Ingestion.Rtmp.{RtmpError, RtmpStreamSource, Url}
use streamlation.Ingestion.Ingestor.{
  StreamIngestor, hls_stream, rtmp_stream, file_stream, hls_error, rtmp_error, file_error, wrapped,
  path_of, file_source_of, on_uri, playlist_error, hls_config, build_file_source, build_source,
}

-- The backoffs that the ingestor leaves to their defaults.
HasDefaults : HlsStreamSource → Type 0
HasDefaults source = (source.retry_backoff ≡ 500000000) × (source.max_retry_backoff ≡ 5000000000)

retry_of : Result HlsError HlsStreamSource → ℕ
retry_of (ok source) = source.retry_backoff
retry_of (err e) = 0

largest_of : Result HlsError HlsStreamSource → ℕ
largest_of (ok source) = source.max_retry_backoff
largest_of (err e) = 0

hls_source-HasDefaults :
    (cfg : HlsConfig) (e : Option Bytes) (source : HlsStreamSource)
    → cfg.retry_backoff ≡ pos 0
    → cfg.max_retry_backoff ≡ pos 0
    → hls_source cfg e ≡ ok source
    → HasDefaults source
unfolding hls_source HasDefaults positive_or retry_of largest_of
hls_source-HasDefaults cfg (some e) source a b q = cc q
hls_source-HasDefaults cfg none source a b q = (
  sym (ap retry_of q) ∙ ap (positive_or 500000000) a,
  sym (ap largest_of q) ∙ ap (positive_or 5000000000) b,
)

new_hls_stream_source-HasDefaults :
    (parse : Bytes → Option Bytes) (cfg : HlsConfig) (uri : Bytes) (source : HlsStreamSource)
    → cfg.retry_backoff ≡ pos 0
    → cfg.max_retry_backoff ≡ pos 0
    → cfg.playlist_url ≡ uri
    → new_hls_stream_source parse cfg ≡ ok source
    → HasDefaults source
unfolding new_hls_stream_source
new_hls_stream_source-HasDefaults parse cfg [] source a b u q = cc (
    subst
      (λ x.
        (elim x [
          | [] ↦ err HlsError.playlist_url_required
          | c ∷ rest ↦ hls_source cfg (parse cfg.playlist_url)
        ])
        ≡ ok source)
      u q)
new_hls_stream_source-HasDefaults parse cfg (c ∷ uri) source a b u q =
    hls_source-HasDefaults cfg (parse cfg.playlist_url) source a b (
      subst
        (λ x.
          (elim x [
            | [] ↦ err HlsError.playlist_url_required
            | c ∷ rest ↦ hls_source cfg (parse cfg.playlist_url)
          ])
          ≡ ok source)
        u q)

rtmp-other :
    (r : Result RtmpError RtmpStreamSource) (source : HlsStreamSource)
    → wrapped rtmp_error rtmp_stream r ≡ ok (hls_stream source)
    → ⊥
unfolding wrapped
rtmp-other (ok r) source q = cc q
rtmp-other (err e) source q = cc q

file-other :
    (r : Result FileError FileStreamSource) (source : HlsStreamSource)
    → wrapped file_error file_stream r ≡ ok (hls_stream source)
    → ⊥
unfolding wrapped
file-other (ok r) source q = cc q
file-other (err e) source q = cc q

hls-same :
    (r : Result HlsError HlsStreamSource) (source : HlsStreamSource)
    → wrapped hls_error hls_stream r ≡ ok (hls_stream source)
    → r ≡ ok source
unfolding wrapped
hls-same (ok r) source q = cc q
hls-same (err e) source q = cc q

module _ (parse : Bytes → Result Bytes Url) (clean : Bytes → Bytes) (s : StreamIngestor)
    (session : TranslationSession) where
  path-other :
      (path : Bytes) (source : HlsStreamSource)
      → file_source_of parse clean s session path ≡ ok (hls_stream source)
      → ⊥
  unfolding file_source_of
  path-other [] source q = cc q
  path-other (c ∷ path) source q = file-other _ source q

  uri-other :
      (r : Result Bytes Url) (source : HlsStreamSource)
      → on_uri parse clean s session r ≡ ok (hls_stream source)
      → ⊥
  unfolding on_uri
  uri-other (err e) source q = cc q
  uri-other (ok uri) source q = elim (Bool-cases (equal uri.scheme (text "file"))) [
    | inl t ↦ path-other (path_of parse clean s session uri) source (rw t at q)
    | inr t ↦ cc (rw t at q)
  ]

  build_file_source-other :
      (source : HlsStreamSource)
      → build_file_source parse clean s session ≡ ok (hls_stream source)
      → ⊥
  unfolding build_file_source
  build_file_source-other source q = uri-other (parse session.source.uri) source q

  build_source-HasDefaults :
      (source : HlsStreamSource)
      → build_source parse clean s session ≡ ok (hls_stream source)
      → HasDefaults source
  unfolding build_source hls_config
  build_source-HasDefaults source q = elim (Bool-cases (equal session.source.type (text "hls"))) [
    | inl h ↦
        new_hls_stream_source-HasDefaults (playlist_error parse clean s session)
          (hls_config parse clean s session) session.source.uri source refl refl refl
          (hls-same _ source (rw h at q))
    | inr h ↦ elim (Bool-cases (equal session.source.type (text "rtmp"))) [
      | inl i ↦ absurd (rtmp-other _ source (rw (h, i) at q))
      | inr i ↦ elim (Bool-cases (equal session.source.type (text "file"))) [
        | inl j ↦ absurd (build_file_source-other source (rw (h, i, j) at q))
        | inr j ↦ elim (Bool-cases (equal session.source.type (text "dash"))) [
          | inl k ↦ cc (rw (h, i, j, k) at q)
          | inr k ↦ cc (rw (h, i, j, k) at q)
        ]
      ]
    ]
  ]

  -- An HLS source that the ingestor builds for a session, with whatever playlists, downloads,
  -- channel and context: after any number of its rounds at most the configured number of segments
  -- is remembered, none of them twice, the backoff is above 0 and at most 5 s, and every numbered
  -- chunk is counted once, the received ones being those in the channel, with rising numbers.
  pub build_source-IsPolling :
      {W : Type 0} (around : Surroundings W) (web : Web W) (source : HlsStreamSource) (n : ℕ)
      (w : W)
      → build_source parse clean s session ≡ ok (hls_stream source)
      → IsPolling around web source (polls around web source n w)
        × (source.max_retry_backoff ≡ 5000000000)
  unfolding HasDefaults
  build_source-IsPolling around web source n w q =
      let (first, largest) = build_source-HasDefaults source q in
      (
        polls-IsPolling around web source (omega (arith, first)) (omega (arith, first, largest))
            (omega (arith, largest)) n w,
        largest,
      )
