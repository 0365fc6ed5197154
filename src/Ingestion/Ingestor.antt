-- ===== src/Ingestion/Ingestor.antt =====
-- apps/worker/cmd/ingestion/ingestor.go: the source that a session's ingestion reads.
use streamlation.Prelude.{Option, none, some, List, [], ◌∷◌, ◌++◌, if◌then◌else◌}
use streamlation.Prelude.Int.{ℤ, pos}
use streamlation.Prelude.Text.{Bytes, text, equal}
use streamlation.Prelude.Result.{Result, ok, err}
use streamlation.Session.{TranslationSession}
use streamlation.Ingestion.{MediaChunk}
use streamlation.Ingestion.File.{FileError, FileStreamSource, new_file_stream_source}
use streamlation.Ingestion.Hls.{HlsConfig, HlsStreamSource, new_hls_stream_source}
use streamlation.Ingestion.Hls.Playlist.{HlsError}
use streamlation.Ingestion.Rtmp.{
  RtmpConfig, RtmpError, RtmpStreamSource, Url, new_rtmp_stream_source,
}

-- The clients of the sources are what surrounds them in their models.
pub record StreamIngestor : Type 0 where
  pub buffer_size : ℤ
  pub sample_window : ℤ
  pub file_chunk_size : ℤ
  pub file_chunk_duration : ℤ

unfoldable pub new_stream_ingestor : StreamIngestor
new_stream_ingestor = record {
  buffer_size = pos 16;
  sample_window = pos 3000000000;
  file_chunk_size = pos 65536;
  file_chunk_duration = pos 200000000;
}

pub data StreamSource : Type 0 where
  hls_stream : HlsStreamSource → StreamSource
  rtmp_stream : RtmpStreamSource → StreamSource
  file_stream : FileStreamSource → StreamSource

pub data SourceError : Type 0 where
  hls_error : HlsError → SourceError
  rtmp_error : RtmpError → SourceError
  file_error : FileError → SourceError
  -- With the text of the error.
  invalid_file_uri : Bytes → SourceError
  not_a_file_uri missing_path unsupported_type : SourceError
  not_implemented : Bytes → SourceError

unfoldable pub wrapped :
    {E A : Type 0}
    → (E → SourceError)
    → (A → StreamSource)
    → Result E A
    → Result SourceError StreamSource
wrapped wrap stream (ok a) = ok (stream a)
wrapped wrap stream (err e) = err (wrap e)

-- `parse` is `url.Parse`, and `clean` is `filepath.Clean` behind `filepath.FromSlash`.
module _ (parse : Bytes → Result Bytes Url) (clean : Bytes → Bytes) (s : StreamIngestor)
    (session : TranslationSession) where
  unfoldable pub path_of : Url → Bytes
  unfolding text
  path_of uri = elim uri.host [ [] ↦ uri.path | c ∷ host ↦ text "//" ++ (uri.host ++ uri.path) ]

  unfoldable pub file_source_of : Bytes → Result SourceError StreamSource
  unfolding new_file_stream_source wrapped text
  file_source_of [] = err missing_path
  file_source_of (c ∷ path) = wrapped file_error file_stream (
      new_file_stream_source clean record {
        path = c ∷ path;
        chunk_size = s.file_chunk_size;
        chunk_duration = s.file_chunk_duration;
        buffer_size = s.buffer_size;
        emit_interval = pos 0;
        metadata = (text "source", text "file") ∷ (text "session", session.id) ∷ [];
      })

  unfoldable pub on_uri : Result Bytes Url → Result SourceError StreamSource
  unfolding file_source_of path_of text
  on_uri (err e) = err (invalid_file_uri e)
  on_uri (ok uri) =
      if equal uri.scheme (text "file") then file_source_of (path_of uri) else err not_a_file_uri

  unfoldable pub build_file_source : Result SourceError StreamSource
  unfolding on_uri
  build_file_source = on_uri (parse session.source.uri)

  unfoldable pub playlist_error : Bytes → Option Bytes
  playlist_error url = elim (parse url) [ ok u ↦ none | err e ↦ some e ]

  unfoldable pub hls_config : HlsConfig
  hls_config = record {
    playlist_url = session.source.uri;
    poll_interval = pos 1000000000;
    buffer_size = s.buffer_size;
    retry_backoff = pos 0;
    max_retry_backoff = pos 0;
    max_seen_segments = pos 0;
  }

  unfoldable pub rtmp_config : RtmpConfig
  rtmp_config = record {
    url = session.source.uri;
    buffer_size = s.buffer_size;
    reconnect_delay = pos 500000000;
    read_timeout = pos 3000000000;
  }

  unfoldable pub build_source : Result SourceError StreamSource
  unfolding build_file_source new_hls_stream_source new_rtmp_stream_source wrapped playlist_error
      hls_config rtmp_config text
  build_source =
      let type = session.source.type in
      if equal type (text "hls")
      then wrapped hls_error hls_stream (new_hls_stream_source playlist_error hls_config)
      else if equal type (text "rtmp")
      then wrapped rtmp_error rtmp_stream (new_rtmp_stream_source parse rtmp_config)
      else if equal type (text "file")
      then build_file_source
      else if equal type (text "dash")
      then err (not_implemented type)
      else err unsupported_type

-- What a round of the select in Ingest receives; a channel that is closed yields `none`.
pub data Received : Type 0 where
  done window_over : Received
  error : Option (Option Bytes) → Received
  chunk : Option MediaChunk → Received

-- How Ingest returns: with the context's error, with no error, or with the source's error.
pub data Ingested : Type 0 where
  context_ended complete : Ingested
  failed : Bytes → Ingested

-- The rounds of Ingest, of what they receive in turn; `none` while none of it makes Ingest return.
-- A nil error and the closing of the channel of errors do not end the loop.
unfoldable pub ingest : List Received → Option Ingested
ingest [] = none
ingest (done ∷ rest) = some context_ended
ingest (window_over ∷ rest) = some complete
ingest (error none ∷ rest) = ingest rest
ingest (error (some none) ∷ rest) = ingest rest
ingest (error (some (some e)) ∷ rest) = some (failed e)
ingest (chunk none ∷ rest) = some complete
ingest (chunk (some c) ∷ rest) = ingest rest
