-- ===== src/Tests/Sources.antt =====
-- Witnesses of the theorems on packages/go/backend/ingestion and apps/worker/cmd/ingestion.
use streamlation.Prelude.{
  ℕ, ◌≡◌, ◌+◌, refl, arith, true, false, none, some, List, [], ◌∷◌, ◌++◌, length,
}
use streamlation.Prelude.Int.{pos}
use streamlation.Prelude.Text.{Bytes, text}
use streamlation.Prelude.Result.{Result, ok}
use streamlation.Net.{NetError, Conn, short}
use streamlation.Ingestion.{MediaChunk, Surroundings, no_metrics}
use streamlation.Ingestion.Emitter.{Emitted, IsCounted}
use streamlation.Ingestion.File
use streamlation.Ingestion.File.{
  FileConfig, FileStreamSource, FileStream, new_file_stream_source, stream,
}
use streamlation.Ingestion.File.Cut.{payloads}
use streamlation.Ingestion.File.Replay.{Uninterrupted}
use streamlation.Ingestion.File.Whole.{stream-whole}
use streamlation.Ingestion.Rtmp.{
  RtmpError, RtmpStreamSource, canceled, read_header, Consuming, consume_stream, attempts,
}
use streamlation.Ingestion.Rtmp.Counted.{attempts-IsCounted}
use streamlation.Ingestion.Rtmp.Frames.{Taken, encode, non_empty, consume_stream-encode}
use streamlation.Tests.Data.{idle}

-- A context that does not end, a channel that takes every chunk, and a clock that stands.
abbrev around : Surroundings ℕ
around = record {
  ended = λ w. (false, w);
  send = λ c w. (true, w);
  wait = λ n w. (true, w);
  now = λ w. (w, w);
}

abbrev whole_path : Bytes → Bytes
whole_path p = p

abbrev file_config : FileConfig
file_config = record {
  path = b'f' ∷ [];
  chunk_size = pos 2;
  chunk_duration = pos 5;
  buffer_size = pos 0;
  emit_interval = pos 0;
  metadata = [];
}

abbrev file_source : FileStreamSource
file_source = record {
  path = b'f' ∷ [];
  chunk_size = 2;
  chunk_duration = 5;
  buffer_size = 4;
  emit_interval = pos 0;
  metadata = [];
}

abbrev made : new_file_stream_source whole_path file_config ≡ ok file_source
unfolding new_file_stream_source File.file_source File.positive_or
made = refl

abbrev three : Bytes
three = 1 ∷ 2 ∷ 3 ∷ []

abbrev around-Uninterrupted : Uninterrupted around
around-Uninterrupted = record { goes_on = λ w. refl; sends = λ c w. refl; waits = λ n w. refl }

stream-whole_example :
    (final : FileStream ℕ) × (stream around 9 file_source 4 0
        (ok (record { unread = three; fault = none }))
      ≡ some final)
    × (payloads final.chunks ≡ three)
    × (final.errors ≡ [])
    × (final.metrics.received_chunks ≡ length final.chunks)
stream-whole_example =
    stream-whole around 9 whole_path file_config file_source made 4 0 three around-Uninterrupted
      (omega arith)

abbrev rtmp_source : RtmpStreamSource
rtmp_source = record {
  url = record { scheme = []; host = b'h' ∷ []; path = b'/' ∷ [] };
  buffer_size = 8;
  reconnect_delay = 1;
  read_timeout = 1;
}

-- A peer that answers the handshake and sends the frame `three`.
abbrev peer : Conn
unfolding text
peer = record idle { input = text "STRM1" ++ encode (three ∷ []) }

abbrev dialed : Bytes → ℕ → Result Bytes Conn × ℕ
dialed host w = (ok peer, w)

abbrev unreported : RtmpError → ℕ → ℕ
unreported e w = w

attempts-IsCounted_example : IsCounted (attempts around canceled rtmp_source dialed unreported 2 0)
attempts-IsCounted_example = attempts-IsCounted around canceled rtmp_source dialed unreported 2 0

abbrev nothing_emitted : Emitted ℕ
nothing_emitted = record { counters = no_metrics; chunks = []; world = 0 }

consume_stream-encode_example :
    (s : Consuming ℕ) × (new : List MediaChunk) × (consume_stream around canceled rtmp_source
        (record idle { input = encode (three ∷ [] ∷ []) ++ 7 ∷ [] })
        nothing_emitted
      ≡ some s)
    × (s.failure ≡ some (read_header (short (7 ∷ []) NetError.eof)))
    × (s.emitted.chunks ≡ [] ++ new)
    × Taken around (b'/' ∷ []) 0 0 (three ∷ [] ∷ []) new
    × (s.emitted.counters.last_sequence ≡ 0 + length (non_empty (three ∷ [] ∷ [])))
consume_stream-encode_example =
    consume_stream-encode around canceled rtmp_source (λ w. refl) idle nothing_emitted
      (three ∷ [] ∷ []) (7 ∷ []) (omega arith, (omega arith, tt)) (omega arith)
