-- ===== src/Ingestion/Hls.antt =====
-- packages/go/backend/ingestion/hls.go: the source that polls a playlist and downloads its
-- segments.
pub mod Playlist
pub mod Polls
pub mod Seen
pub mod Sliding
pub mod Once
pub mod Fetches
pub mod Live
use streamlation.Prelude.{
  ℕ, zero, suc, ◌+◌, ◌-◌, ◌*◌, ◌%◌, ◌^◌, Bool, true, false, Option, none, some, List, [], ◌∷◌, leb,
  ltb, ◌==◌, if◌then◌else◌, length,
}
use streamlation.Prelude.Int.{ℤ, pos, negsuc, signed}
use streamlation.Prelude.Loop.{Round, again, halt, rounds}
use streamlation.Prelude.Text.{Bytes, text, equal}
use streamlation.Prelude.Result.{Result, ok, err}
use streamlation.Ingestion.{StreamMetrics, Surroundings, no_metrics}
use streamlation.Ingestion.File.{positive_or}
use streamlation.Ingestion.Emitter.{Emitted, emit_chunk, add_error, add_reconnect}
use streamlation.Ingestion.Hls.Playlist.{HlsError, HlsSegment, parse_playlist}

-- Durations are in nanoseconds; the client is what `get` below stands for.
pub record HlsConfig : Type 0 where
  pub playlist_url : Bytes
  pub poll_interval : ℤ
  pub buffer_size : ℤ
  pub retry_backoff : ℤ
  pub max_retry_backoff : ℤ
  pub max_seen_segments : ℤ

pub record HlsStreamSource : Type 0 where
  pub playlist_url : Bytes
  pub poll_interval : ℕ
  pub buffer_size : ℕ
  pub retry_backoff : ℕ
  pub max_retry_backoff : ℕ
  pub max_seen_segments : ℕ

unfoldable pub hls_source : HlsConfig → Option Bytes → Result HlsError HlsStreamSource
unfolding positive_or
hls_source cfg (some e) = err (HlsError.invalid_playlist_url e)
hls_source cfg none = ok record {
  playlist_url = cfg.playlist_url;
  poll_interval = positive_or 2000000000 cfg.poll_interval;
  buffer_size = positive_or 8 cfg.buffer_size;
  retry_backoff = positive_or 500000000 cfg.retry_backoff;
  max_retry_backoff = positive_or 5000000000 cfg.max_retry_backoff;
  max_seen_segments = positive_or 256 cfg.max_seen_segments;
}

-- `parse_error` is what `url.Parse` fails with, if it does.
unfoldable pub new_hls_stream_source :
    (Bytes → Option Bytes) → HlsConfig → Result HlsError HlsStreamSource
unfolding hls_source
new_hls_stream_source parse_error cfg = elim cfg.playlist_url [
  | [] ↦ err HlsError.playlist_url_required
  | c ∷ rest ↦ hls_source cfg (parse_error cfg.playlist_url)
]

-- What a GET comes to: no request, no response, or a response, whose body may fail to be read.
pub data Answer : Type 0 where
  not_built not_fetched : Bytes → Answer
  response : (code : ℕ) (status : Bytes) (body : Result Bytes Bytes) → Answer

-- `seenSegments`, the newest entry first.
abbrev pub Seen : Type 0
Seen = List (Bytes × ℕ)

unfoldable pub is_seen : Bytes → Seen → Bool
is_seen uri [] = false
is_seen uri ((other, number) ∷ seen) = if equal uri other then true else is_seen uri seen

-- `delete(seenSegments, uri)`
unfoldable pub forget : Bytes → Seen → Seen
forget uri [] = []
forget uri ((other, number) ∷ seen) =
    let rest = forget uri seen in if equal uri other then rest else (other, number) ∷ rest

-- The entries whose numbers are at most the threshold are deleted.
unfoldable pub evict : ℕ → Seen → Seen
evict threshold [] = []
evict threshold ((uri, number) ∷ seen) =
    let rest = evict threshold seen in if leb number threshold then rest else (uri, number) ∷ rest

-- The variables of the goroutine.
pub record HlsStream (W : Type 0) : Type 0 where
  pub seen : Seen
  pub seen_counter : ℕ
  pub backoff : ℤ
  pub emitted : Emitted W

-- The product with 2 of an int64.
unfoldable pub double : ℤ → ℤ
double (pos n) = signed (2 ^ 63) (n * 2 % 2 ^ 64)
double (negsuc n) = signed (2 ^ 63) ((2 ^ 64 - n - 1) * 2 % 2 ^ 64)

unfoldable pub at_most : ℤ → ℕ → Bool
at_most (pos n) m = leb n m
at_most (negsuc n) m = true

unfoldable pub next_backoff : ℕ → ℤ → ℤ
unfolding double at_most
next_backoff max backoff = if at_most (double backoff) max then double backoff else backoff

unfoldable pub see : ℕ → Bytes → Seen → ℕ → Seen
unfolding evict
see max uri seen number =
    let inserted = (uri, number) ∷ seen in
    if ltb max (length inserted) then evict (number - max) inserted else inserted

-- `get` is a GET with the client, `resolve` is `playlistURL.Parse`, `parse_seconds` is
-- `strconv.ParseFloat` with the conversion to nanoseconds, and `report` offers an error to the
-- channel of errors.
pub record Web (W : Type 0) : Type 0 where
  pub get : Bytes → W → Answer × W
  pub resolve : Bytes → Result Bytes Bytes
  pub parse_seconds : Bytes → Result Bytes ℤ
  pub report : HlsError → W → W

module _ {W : Type 0} (around : Surroundings W) (web : Web W) (source : HlsStreamSource) where
  unfoldable pub playlist_of : Answer → Result HlsError (List HlsSegment)
  unfolding parse_playlist
  playlist_of (not_built e) = err (HlsError.build_playlist_request e)
  playlist_of (not_fetched e) = err (HlsError.fetch_playlist e)
  playlist_of (response code status body) =
      if code == 200
      then elim body [
        | ok b ↦ parse_playlist web.parse_seconds b
        | err e ↦ err (HlsError.read_playlist e)
      ]
      else err (HlsError.playlist_returned status)

  unfoldable pub fetch_segments : W → Result HlsError (List HlsSegment) × W
  unfolding playlist_of
  fetch_segments w = let (answer, w') = web.get source.playlist_url w in (playlist_of answer, w')

  unfoldable pub segment_of : Answer → Result HlsError Bytes
  segment_of (not_built e) = err (HlsError.build_segment_request e)
  segment_of (not_fetched e) = err (HlsError.fetch_segment e)
  segment_of (response code status body) =
      if code == 200
      then elim body [ ok b ↦ ok b | err e ↦ err (HlsError.read_segment e) ]
      else err (HlsError.segment_returned status)

  unfoldable pub download_segment : Bytes → W → Result HlsError Bytes × W
  unfolding segment_of
  download_segment uri w = elim (web.resolve uri) [
    | err e ↦ (err (HlsError.resolve_segment e), w)
    | ok url ↦ (let (answer, w') = web.get url w in (segment_of answer, w'))
  ]

  -- `errors.Add(1)`, and the error is offered.
  unfoldable pub fail_with : HlsError → Emitted W → Emitted W
  unfolding add_error
  fail_with error e = record e { counters = add_error e.counters; world = web.report error e.world }

  unfoldable pub on_downloaded : HlsSegment → HlsStream W → Result HlsError Bytes × W → HlsStream W
  unfolding fail_with forget emit_chunk text
  on_downloaded seg s (err error, w) = record s {
    seen = forget seg.uri s.seen;
    emitted = fail_with error (record s.emitted { world = w });
  }
  on_downloaded seg s (ok data_, w) = record s {
    emitted =
        emit_chunk around seg.duration data_ ((text "uri", seg.uri) ∷ [])
          (record s.emitted { world = w });
  }

  unfoldable pub new_segment : HlsSegment → HlsStream W → HlsStream W
  unfolding see on_downloaded download_segment
  new_segment seg s =
      on_downloaded seg
        (record s {
          seen = see source.max_seen_segments seg.uri s.seen (suc s.seen_counter);
          seen_counter = suc s.seen_counter;
        })
        (download_segment seg.uri s.emitted.world)

  unfoldable pub on_segment : HlsSegment → HlsStream W → HlsStream W
  unfolding is_seen new_segment
  on_segment seg s = if is_seen seg.uri s.seen then s else new_segment seg s

  unfoldable pub on_segments : List HlsSegment → HlsStream W → HlsStream W
  unfolding on_segment
  on_segments [] s = s
  on_segments (seg ∷ segs) s = on_segments segs (on_segment seg s)

  unfoldable pub on_pause : HlsStream W → Bool × W → Round (HlsStream W)
  on_pause s (true, w) = again (record s { emitted = record s.emitted { world = w } })
  on_pause s (false, w) = halt (record s { emitted = record s.emitted { world = w } })

  unfoldable pub on_retry : HlsStream W → Bool × W → Round (HlsStream W)
  unfolding next_backoff add_reconnect
  on_retry s (true, w) = again (record s {
    backoff = next_backoff source.max_retry_backoff s.backoff;
    emitted = record s.emitted { counters = add_reconnect s.emitted.counters; world = w };
  })
  on_retry s (false, w) = halt (record s { emitted = record s.emitted { world = w } })

  unfoldable pub pause : HlsStream W → Round (HlsStream W)
  unfolding on_pause
  pause s = on_pause s (around.wait source.poll_interval s.emitted.world)

  -- A wait of a negative duration ends at once.
  unfoldable pub duration : ℤ → ℕ
  duration (pos n) = n
  duration (negsuc n) = 0

  unfoldable pub retry : HlsStream W → Round (HlsStream W)
  unfolding on_retry duration
  retry s = on_retry s (around.wait (duration s.backoff) s.emitted.world)

  unfoldable pub on_fetched :
      HlsStream W → Result HlsError (List HlsSegment) × W → Round (HlsStream W)
  unfolding retry fail_with pause on_segments
  on_fetched s (err error, w) =
      retry (record s { emitted = fail_with error (record s.emitted { world = w }) })
  on_fetched s (ok segs, w) = pause (
      on_segments segs
        (record s { backoff = pos source.retry_backoff; emitted = record s.emitted { world = w } }))

  unfoldable pub on_started : HlsStream W → Bool × W → Round (HlsStream W)
  unfolding on_fetched fetch_segments
  on_started s (true, w) = halt (record s { emitted = record s.emitted { world = w } })
  on_started s (false, w) =
      on_fetched (record s { emitted = record s.emitted { world = w } }) (fetch_segments w)

  -- One round of the goroutine's loop.
  unfoldable pub poll : HlsStream W → Round (HlsStream W)
  unfolding on_started
  poll s = on_started s (around.ended s.emitted.world)

  unfoldable pub started : W → HlsStream W
  started w = record {
    seen = [];
    seen_counter = 0;
    backoff = pos source.retry_backoff;
    emitted = record { counters = no_metrics; chunks = []; world = w };
  }

  -- The source after `n` rounds at most.
  unfoldable pub polls : ℕ → W → HlsStream W
  unfolding poll started
  polls n w = rounds poll n (started w)
