-- ===== src/Ingestion.antt =====
-- packages/go/backend/ingestion/source.go and metrics.go: the chunks of media that the stream
-- sources emit, and the counters that they keep.
pub mod File
pub mod Emitter
pub mod Rtmp
pub mod Hls
pub mod Ingestor
pub mod Jobs
pub mod Composed
use streamlation.Prelude.{ℕ, Bool, List}
use streamlation.Prelude.Int.{ℤ}
use streamlation.Prelude.Text.{Bytes}

-- The instant of the clock, in nanoseconds, and the `time.Duration` that `Add` has added to it.
pub record Time : Type 0 where
  pub clock : ℕ
  pub added : ℤ

-- Durations are `time.Duration`, in nanoseconds; a nil map is the empty list.
pub record MediaChunk : Type 0 where
  pub sequence : ℕ
  pub timestamp : Time
  pub duration : ℤ
  pub payload : Bytes
  pub metadata : List (Bytes × Bytes)

-- Also the counters behind them, `streamCounters`, which `snapshot` reads into such a record.
pub record StreamMetrics : Type 0 where
  pub received_chunks : ℕ
  pub dropped_chunks : ℕ
  pub error_count : ℕ
  pub reconnect_count : ℕ
  pub last_sequence : ℕ

abbrev pub no_metrics : StreamMetrics
no_metrics = record {
  received_chunks = 0;
  dropped_chunks = 0;
  error_count = 0;
  reconnect_count = 0;
  last_sequence = 0;
}

-- What surrounds the goroutine of a source, over a world `W`: whether the context is found to have
-- ended, whether a chunk goes into the channel, whether a wait passes before the context ends, and
-- the clock.
pub record Surroundings (W : Type 0) : Type 0 where
  pub ended : W → Bool × W
  pub send : MediaChunk → W → Bool × W
  pub wait : ℕ → W → Bool × W
  pub now : W → ℕ × W
