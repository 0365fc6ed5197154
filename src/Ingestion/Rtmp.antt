-- ===== src/Ingestion/Rtmp.antt =====
-- packages/go/backend/ingestion/rtmp.go: the source of length-prefixed frames over TCP.
pub mod Counted
pub mod Frames
use streamlation.Prelude.{
  ℕ, zero, suc, Bool, true, false, Option, none, some, List, [], ◌∷◌, leb, if◌then◌else◌, length,
  ◌*◌,
}
use streamlation.Prelude.Int.{ℤ, pos, negsuc}
use streamlation.Prelude.Loop.{Round, again, halt, loop, rounds}
use streamlation.Prelude.Text.{Bytes, text, equal}
use streamlation.Prelude.Word.{uint32}
use streamlation.Prelude.Result.{Result, ok, err}
use streamlation.Net.{NetError, Conn, Io, read_full, write, ◌>>=◌, ◌>>◌, pure, fail}
use streamlation.Ingestion.{StreamMetrics, Surroundings, no_metrics}
use streamlation.Ingestion.File.{positive_or}
use streamlation.Ingestion.Emitter.{Emitted, emit_chunk, add_error, add_reconnect}

-- Durations are in nanoseconds; the dialer is what `dial` below stands for.
pub record RtmpConfig : Type 0 where
  pub url : Bytes
  pub buffer_size : ℤ
  pub reconnect_delay : ℤ
  pub read_timeout : ℤ

-- The parts of a `url.URL` that are used.
pub record Url : Type 0 where
  pub scheme : Bytes
  pub host : Bytes
  pub path : Bytes

-- `ctx.Err()` of a context that has ended.
pub data ContextError : Type 0 where
  canceled deadline_exceeded : ContextError

pub data RtmpError : Type 0 where
  url_required : RtmpError
  context_ended : ContextError → RtmpError
  -- With the text of the error.
  invalid_url dial_failed : Bytes → RtmpError
  unsupported_scheme unexpected_response : Bytes → RtmpError
  handshake_send handshake_receive read_header read_payload : NetError → RtmpError

pub record RtmpStreamSource : Type 0 where
  pub url : Url
  pub buffer_size : ℕ
  pub reconnect_delay : ℕ
  pub read_timeout : ℕ

unfoldable pub rtmp_source : RtmpConfig → Result Bytes Url → Result RtmpError RtmpStreamSource
unfolding positive_or text
rtmp_source cfg (err e) = err (invalid_url e)
rtmp_source cfg (ok url) =
    if equal url.scheme (text "rtmp")
    then ok record {
      url = url;
      buffer_size = positive_or 8 cfg.buffer_size;
      reconnect_delay = positive_or 500000000 cfg.reconnect_delay;
      read_timeout = positive_or 3000000000 cfg.read_timeout;
    }
    else err (unsupported_scheme url.scheme)

-- `parse` is `url.Parse`.
unfoldable pub new_rtmp_stream_source :
    (Bytes → Result Bytes Url) → RtmpConfig → Result RtmpError RtmpStreamSource
unfolding rtmp_source
new_rtmp_stream_source parse cfg = elim cfg.url [
  | [] ↦ err url_required
  | c ∷ rest ↦ rtmp_source cfg (parse cfg.url)
]

abbrev pub handshake_magic : Bytes
unfolding text
handshake_magic = text "STRM1"

unfoldable pub check_response : Bytes → Io RtmpError (Unit {0})
check_response response =
    if equal response handshake_magic then pure tt else fail (unexpected_response response)

unfoldable pub handshake : Io RtmpError (Unit {0})
unfolding write read_full check_response
handshake =
    write handshake_send handshake_magic
    >> (read_full handshake_receive (length handshake_magic) >>= check_response)

-- The loop's variables, and the error with which it returns.
pub record Consuming (W : Type 0) : Type 0 where
  pub conn : Conn
  pub emitted : Emitted W
  pub failure : Option RtmpError

-- `binary.BigEndian.Uint32`
unfoldable pub big_endian : Bytes → ℕ
unfolding uint32
big_endian (a ∷ b ∷ c ∷ d ∷ []) = uint32 a b c d
big_endian _ = 0

unfoldable pub failed : {W : Type 0} → RtmpError → Conn → Consuming W → Round (Consuming W)
failed e c s = halt (record s { conn = c; failure = some e })

-- `errors.Is(err, io.EOF) || errors.Is(err, context.Canceled)`
unfoldable pub is_silent : RtmpError → Bool
is_silent (read_header NetError.eof) = true
is_silent (read_payload NetError.eof) = true
is_silent (context_ended canceled) = true
is_silent _ = false

module _ {W : Type 0} (around : Surroundings W) (cause : ContextError)
    (source : RtmpStreamSource) where
  unfoldable pub on_payload : Consuming W → Result RtmpError Bytes × Conn → Round (Consuming W)
  unfolding failed emit_chunk text
  on_payload s (err e, c) = failed e c s
  on_payload s (ok payload, c) = again (record s {
    conn = c;
    emitted = emit_chunk around (pos 0) payload ((text "path", source.url.path) ∷ []) s.emitted;
  })

  unfoldable pub on_length : ℕ → Conn → Consuming W → Round (Consuming W)
  unfolding on_payload read_full
  on_length zero c s = again (record s { conn = c })
  on_length (suc n) c s = on_payload s (read_full read_payload (suc n) c)

  unfoldable pub on_header : Consuming W → Result RtmpError Bytes × Conn → Round (Consuming W)
  unfolding on_length failed big_endian
  on_header s (err e, c) = failed e c s
  on_header s (ok header, c) = on_length (big_endian header) c s

  unfoldable pub on_context : Consuming W → Bool × W → Round (Consuming W)
  unfolding on_header failed read_full
  on_context s (true, w) =
      failed (context_ended cause) s.conn (record s { emitted = record s.emitted { world = w } })
  on_context s (false, w) =
      on_header (record s { emitted = record s.emitted { world = w } })
        (read_full read_header 4 s.conn)

  -- One round of the loop. The error of SetReadDeadline is not looked at.
  unfoldable pub round : Consuming W → Round (Consuming W)
  unfolding on_context
  round s = on_context s (around.ended s.emitted.world)

  -- Each round takes bytes from the connection or returns.
  unfoldable pub consume_stream : Conn → Emitted W → Option (Consuming W)
  unfolding round
  consume_stream c e =
      loop round (suc (length c.input)) (record { conn = c; emitted = e; failure = none })

  -- `dial` is DialContext to the URL's host; `report` offers an error to the channel of errors,
  -- which takes it or not.
  module _ (dial : Bytes → W → Result Bytes Conn × W) (report : RtmpError → W → W) where
    unfoldable pub on_pause : Emitted W → Bool × W → Round (Emitted W)
    on_pause e (true, w) = again (record e { world = w })
    on_pause e (false, w) = halt (record e { world = w })

    unfoldable pub pause : Emitted W → Round (Emitted W)
    unfolding on_pause
    pause e = on_pause e (around.wait source.reconnect_delay e.world)

    -- The error is counted and offered, and the delay begins.
    unfoldable pub retry : RtmpError → Emitted W → Round (Emitted W)
    unfolding pause add_error
    retry error e =
        pause (record e { counters = add_error e.counters; world = report error e.world })

    unfoldable pub on_failure : Option RtmpError → Emitted W → Round (Emitted W)
    unfolding pause retry is_silent
    on_failure none e = again e
    on_failure (some error) e = if is_silent error then pause e else retry error e

    -- `consume_stream` has fuel for every connection.
    unfoldable pub on_consumed : Option (Consuming W) → Emitted W → Round (Emitted W)
    unfolding on_failure
    on_consumed none e = halt e
    on_consumed (some s) e = on_failure s.failure s.emitted

    unfoldable pub on_handshake : Emitted W → Result RtmpError (Unit {0}) × Conn → Round (Emitted W)
    unfolding retry on_consumed consume_stream
    on_handshake e (err error, c) = retry error e
    on_handshake e (ok _, c) = on_consumed (consume_stream c e) e

    unfoldable pub on_dialed : Emitted W → Result Bytes Conn × W → Round (Emitted W)
    unfolding retry on_handshake handshake add_reconnect
    on_dialed e (err error, w) = retry (dial_failed error) (record e { world = w })
    on_dialed e (ok c, w) =
        on_handshake (record e { counters = add_reconnect e.counters; world = w }) (handshake c)

    unfoldable pub on_started : Emitted W → Bool × W → Round (Emitted W)
    unfolding on_dialed
    on_started e (true, w) = halt (record e { world = w })
    on_started e (false, w) = on_dialed e (dial source.url.host w)

    -- One round of the goroutine's loop.
    unfoldable pub attempt : Emitted W → Round (Emitted W)
    unfolding on_started
    attempt e = on_started e (around.ended e.world)

    -- The source after `n` rounds at most.
    unfoldable pub attempts : ℕ → W → Emitted W
    unfolding attempt
    attempts n w = rounds attempt n (record { counters = no_metrics; chunks = []; world = w })
