-- ===== src/Tests/Live.antt =====
-- Witnesses of the theorems on packages/go/backend/ingestion/hls.go, and a run of it that sends a
-- segment twice.
use streamlation.Prelude.{
  map, ◌==◌, ◌+◌, ℕ, ◌≡◌, ◌∙◌, refl, sym, ap, arith, true, false, Option, none, some, List, [], ◌∷◌,
  length, if◌then◌else◌,
}
use streamlation.Prelude.Int.{pos}
use streamlation.Prelude.Loop.{Round, again, halt}
use streamlation.Prelude.Text.{Bytes, text, equal}
use streamlation.Prelude.Decimal.{format_uint, parse_uint-format_uint, parse_uint}
use streamlation.Prelude.Result.{Result, ok}
use streamlation.Session.{TranslationSession}
use streamlation.Ingestion.{Surroundings}
use streamlation.Ingestion.Hls
use streamlation.Ingestion.Hls.{
  HlsStreamSource, HlsStream, Web, Answer, not_fetched, response, poll, polls, started,
}
use streamlation.Ingestion.Hls.Playlist.{HlsSegment}
use streamlation.Ingestion.Hls.Polls.{IsPolling}
use streamlation.Ingestion.Hls.Sliding.{Segments, AreSegments, playlist}
use streamlation.Ingestion.Hls.Once.{IsServed}
use streamlation.Ingestion.Hls.Live.{Listed, start, listed, fetched, Listed-AreSegments}
use streamlation.Ingestion.Rtmp.{Url}
use streamlation.Ingestion.File
use streamlation.Ingestion.Ingestor.{new_stream_ingestor, hls_stream, build_source}
use streamlation.Ingestion.Composed.{build_source-IsPolling}
use streamlation.Tests.Data.{demo}

-- A context that does not end, a channel that takes every chunk, and a clock that stands.
abbrev around : Surroundings ℕ
around = record {
  ended = λ w. (false, w);
  send = λ c w. (true, w);
  wait = λ n w. (true, w);
  now = λ w. (w, w);
}

-- Every GET answers with the same text, a playlist of the segment `0`.
abbrev web : Web ℕ
web = record {
  get = λ url w. (response 200 [] (ok (b'0' ∷ b'\n' ∷ [])), w);
  resolve = λ uri. ok uri;
  parse_seconds = λ value. ok (pos 0);
  report = λ e w. w;
}

abbrev source : HlsStreamSource
source = record {
  playlist_url = b'p' ∷ [];
  poll_interval = 1;
  buffer_size = 8;
  retry_backoff = 1;
  max_retry_backoff = 4;
  max_seen_segments = 2;
}

abbrev option_value : Option ℕ → ℕ
option_value none = 0
option_value (some n) = n

abbrev segments : Segments
segments = record {
  uri = format_uint;
  duration = λ i. pos 0;
  content = λ i. b'0' ∷ b'\n' ∷ [];
  different = λ i j e.
      ap option_value (sym (parse_uint-format_uint i) ∙ ap parse_uint e ∙ parse_uint-format_uint j);
}

served : IsServed around web source segments
unfolding Hls.download_segment
served = record { some_seen = omega arith; downloads = λ i w. refl; sends = λ c w. refl }

abbrev state_of : Round (HlsStream ℕ) → HlsStream ℕ
state_of (again s) = s
state_of (halt s) = s

abbrev second : HlsStream ℕ
unfolding poll started
second = state_of (poll around web source (started around web source 0))

first_poll : Listed around web source segments 1 second
unfolding poll started fetched playlist format_uint
first_poll = listed 0 1 (start 0) refl (omega arith) (omega arith) (omega arith) refl

Listed-AreSegments_example :
    AreSegments segments 0 second.emitted.chunks × (length second.emitted.chunks ≡ 1)
Listed-AreSegments_example =
    Listed-AreSegments around web source segments served 1 second first_poll

abbrev hls_session : TranslationSession
unfolding text
hls_session = record demo { source = record { type = text "hls"; uri = text "http://h/p" } }

abbrev parsed : Bytes → Result Bytes Url
parsed b = ok (record { scheme = []; host = []; path = [] })

abbrev same_path : Bytes → Bytes
same_path p = p

abbrev built : HlsStreamSource
unfolding text
built = record {
  playlist_url = text "http://h/p";
  poll_interval = 1000000000;
  buffer_size = 16;
  retry_backoff = 500000000;
  max_retry_backoff = 5000000000;
  max_seen_segments = 256;
}

built-build_source :
    build_source parsed same_path new_stream_ingestor hls_session ≡ ok (hls_stream built)
unfolding build_source new_stream_ingestor File.positive_or text equal
built-build_source = refl

build_source-IsPolling_example :
    IsPolling around web built (polls around web built 3 0) × (built.max_retry_backoff ≡ 5000000000)
build_source-IsPolling_example =
    build_source-IsPolling parsed same_path new_stream_ingestor hls_session around web built 3 0
      built-build_source

-- The third GET fails; so the download of `c` does when it is first listed.
abbrev faulty : Web ℕ
faulty = record {
  get = λ url w. ((if w == 2 then not_fetched [] else response 200 [] (ok [])), w + 1);
  resolve = λ uri. ok uri;
  parse_seconds = λ value. ok (pos 0);
  report = λ e w. w;
}

abbrev listing : Bytes → List HlsSegment
listing [] = []
listing (c ∷ s) = record { uri = c ∷ []; duration = pos 0 } ∷ listing s

abbrev three_seen : HlsStreamSource
three_seen = record source { max_seen_segments = 3 }

abbrev poll_all : List Bytes → HlsStream ℕ → HlsStream ℕ
unfolding Hls.on_segments
poll_all [] s = s
poll_all (l ∷ ls) s = poll_all ls (Hls.on_segments around faulty three_seen (listing l) s)

-- The failed download uses up a number, so that `b` is forgotten while it is still listed, and is
-- sent again.
sent_twice :
    map
      (λ c. c.metadata)
      (poll_all
        ((b'a' ∷ b'b' ∷ b'c' ∷ [])
          ∷ (b'a' ∷ b'b' ∷ b'c' ∷ [])
          ∷ (b'b' ∷ b'c' ∷ b'd' ∷ [])
          ∷ (b'b' ∷ b'c' ∷ b'd' ∷ [])
          ∷ [])
        (started around faulty three_seen 0)).emitted.chunks
    ≡ map (λ c. (text "uri", c ∷ []) ∷ []) (b'a' ∷ b'b' ∷ b'c' ∷ b'd' ∷ b'b' ∷ [])
unfolding Hls.on_segments started text equal
sent_twice = refl
