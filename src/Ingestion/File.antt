-- ===== src/Ingestion/File.antt =====
-- packages/go/backend/ingestion/file.go: the source that replays a file in chunks.
pub mod Cut
pub mod Replay
pub mod Rounds
pub mod Whole
use streamlation.Prelude.{
  ℕ, suc, Bool, true, false, Option, none, some, List, [], ◌∷◌, ◌++◌, leb, if◌then◌else◌, length,
  take, drop, ◌*◌, ◌%◌, ◌+◌, ◌^◌,
}
use streamlation.Prelude.Int.{ℤ, pos, negsuc, signed}
use streamlation.Prelude.Loop.{Round, again, halt, loop}
use streamlation.Prelude.Text.{Bytes, text}
use streamlation.Prelude.Result.{Result, ok, err}
use streamlation.Ingestion.{Time, MediaChunk, StreamMetrics, no_metrics, Surroundings}

-- Durations are in nanoseconds.
pub record FileConfig : Type 0 where
  pub path : Bytes
  pub chunk_size : ℤ
  pub chunk_duration : ℤ
  pub buffer_size : ℤ
  pub emit_interval : ℤ
  pub metadata : List (Bytes × Bytes)

pub data FileError : Type 0 where
  path_required negative_chunk_duration : FileError
  -- An error of package os, with its text.
  os_error : Bytes → FileError

-- The configuration as NewFileStreamSource has completed it.
pub record FileStreamSource : Type 0 where
  pub path : Bytes
  pub chunk_size : ℕ
  pub chunk_duration : ℕ
  pub buffer_size : ℕ
  pub emit_interval : ℤ
  pub metadata : List (Bytes × Bytes)

unfoldable pub positive_or : ℕ → ℤ → ℕ
positive_or default (pos n) = if leb n 0 then default else n
positive_or default (negsuc n) = default

unfoldable pub file_source : (Bytes → Bytes) → FileConfig → ℤ → Result FileError FileStreamSource
unfolding positive_or
file_source clean cfg (negsuc n) = err negative_chunk_duration
file_source clean cfg (pos duration) = ok record {
  path = clean cfg.path;
  chunk_size = positive_or (64 * 1024) cfg.chunk_size;
  chunk_duration = duration;
  buffer_size = positive_or 4 cfg.buffer_size;
  emit_interval = cfg.emit_interval;
  metadata = cfg.metadata;
}

-- `clean` is `filepath.Clean` behind `filepath.FromSlash`.
unfoldable pub new_file_stream_source :
    (Bytes → Bytes) → FileConfig → Result FileError FileStreamSource
unfolding file_source
new_file_stream_source clean cfg = elim cfg.path [
  | [] ↦ err path_required
  | c ∷ path ↦ file_source clean cfg cfg.chunk_duration
]

-- An opened file: the bytes that are still unread, and what a read meets behind them, `none` for
-- the end of the file.
pub record File : Type 0 where
  pub unread : Bytes
  pub fault : Option Bytes

-- What stands behind the bytes that `io.ReadFull` has read.
pub data ReadEnd : Type 0 where
  -- No error.
  full : ReadEnd
  -- io.EOF or io.ErrUnexpectedEOF
  end_of_file : ReadEnd
  read_failed : Bytes → ReadEnd

unfoldable pub end_of : Option Bytes → ReadEnd
end_of none = end_of_file
end_of (some e) = read_failed e

-- `io.ReadFull` into a buffer of `n` bytes.
unfoldable pub read_full : ℕ → File → Bytes × ReadEnd × File
unfolding end_of
read_full n file =
    if leb n (length file.unread)
    then (take n file.unread, full, record file { unread = drop n file.unread })
    else (file.unread, end_of file.fault, record file { unread = [] })

-- The goroutine's variables, what it has sent into its channels, and the metrics.
pub record FileStream (W : Type 0) : Type 0 where
  pub file : File
  pub sequence : ℕ
  pub chunks : List MediaChunk
  pub errors : List FileError
  pub metrics : StreamMetrics
  pub world : W

module _ {W : Type 0} where
  unfoldable pub opened : W → File → FileStream W
  opened w file = record {
    file = file;
    sequence = 0;
    chunks = [];
    errors = [];
    metrics = no_metrics;
    world = w;
  }

  -- `errs <- err`, and recordError.
  unfoldable pub record_error : FileError → FileStream W → FileStream W
  record_error e s = record s {
    errors = s.errors ++ e ∷ [];
    metrics = record s.metrics { error_count = suc s.metrics.error_count };
  }

unfoldable pub record_chunk : ℕ → StreamMetrics → StreamMetrics
record_chunk sequence m = record m {
  received_chunks = suc m.received_chunks;
  last_sequence = sequence;
}

module _ {W : Type 0} (around : Surroundings W) (start : ℕ) (source : FileStreamSource) where
  unfoldable pub chunk_of : ℕ → Bytes → MediaChunk
  chunk_of sequence payload = record {
    sequence = sequence;
    timestamp = record {
      clock = start;
      added = signed (2 ^ 63) (sequence * source.chunk_duration % 2 ^ 64);
    };
    duration = pos source.chunk_duration;
    payload = payload;
    metadata = source.metadata;
  }

  unfoldable pub on_pause : FileStream W → Bool × W → Round (FileStream W)
  on_pause s (true, w) = again (record s { world = w })
  on_pause s (false, w) = halt (record s { world = w })

  -- The wait between two chunks, unless there is none.
  unfoldable pub throttle : ℤ → FileStream W → Round (FileStream W)
  unfolding on_pause
  throttle (negsuc n) s = again s
  throttle (pos interval) s =
      if leb interval 0 then again s else on_pause s (around.wait interval s.world)

  unfoldable pub behind_chunk : ReadEnd → FileStream W → Round (FileStream W)
  unfolding throttle
  behind_chunk full s = throttle source.emit_interval s
  behind_chunk end_of_file s = halt s
  behind_chunk (read_failed e) s = halt s

  unfoldable pub on_sent : MediaChunk → ReadEnd → FileStream W → Bool × W → Round (FileStream W)
  unfolding behind_chunk record_chunk
  on_sent chunk ending s (true, w) = behind_chunk ending (record s {
    sequence = suc s.sequence;
    chunks = s.chunks ++ chunk ∷ [];
    metrics = record_chunk s.sequence s.metrics;
    world = w;
  })
  on_sent chunk ending s (false, w) = halt (record s { world = w })

  unfoldable pub send_chunk : Bytes → ReadEnd → FileStream W → Round (FileStream W)
  unfolding on_sent chunk_of
  send_chunk payload ending s =
      let chunk = chunk_of s.sequence payload in on_sent chunk ending s (around.send chunk s.world)

  unfoldable pub on_read : FileStream W → Bytes × ReadEnd × File → Round (FileStream W)
  unfolding send_chunk record_error
  on_read s (payload, full, file) = send_chunk payload full (record s { file = file })
  on_read s ([], end_of_file, file) = halt (record s { file = file })
  on_read s (c ∷ payload, end_of_file, file) =
      send_chunk (c ∷ payload) end_of_file (record s { file = file })
  on_read s (payload, read_failed e, file) =
      halt (record_error (os_error e) (record s { file = file }))

  unfoldable pub on_context : FileStream W → Bool × W → Round (FileStream W)
  unfolding on_read read_full
  on_context s (true, w) = halt (record s { world = w })
  on_context s (false, w) = on_read (record s { world = w }) (read_full source.chunk_size s.file)

  -- One round of the goroutine's loop.
  unfoldable pub round : FileStream W → Round (FileStream W)
  unfolding on_context
  round s = on_context s (around.ended s.world)

  -- `fileStreamSource.Stream`, of what `os.Open` returns.
  unfoldable pub stream : ℕ → W → Result Bytes File → Option (FileStream W)
  unfolding opened round record_error
  stream fuel w (ok file) = loop round fuel (opened w file)
  stream fuel w (err e) =
      some (record_error (os_error e) (opened w (record { unread = []; fault = none })))
