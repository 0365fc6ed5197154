-- ===== src/Ingestion/Hls/Fetches.antt =====
-- One fetch of a live playlist by ingestion/hls.go.
use streamlation.Prelude.{ℕ, ◌≤◌, ◌+◌, Bool, true, false}
use streamlation.Prelude.Int.{ℤ}
use streamlation.Prelude.Loop.{GoesOn}
use streamlation.Prelude.Result.{ok, err}
use streamlation.Ingestion.{Surroundings}
use streamlation.Ingestion.Emitter.{add_error, add_reconnect}
use streamlation.Ingestion.Hls.{
  HlsStreamSource, HlsStream, Web, fail_with, on_pause, on_retry, pause, retry, on_fetched,
}
use streamlation.Ingestion.Hls.Playlist.{HlsError}
use streamlation.Ingestion.Hls.Sliding.{Segments, playlist}
use streamlation.Ingestion.Hls.Once.{IsServed, IsBehind, on_segments-IsBehind}

module _ {W : Type 0} (around : Surroundings W) (web : Web W) (source : HlsStreamSource)
    (segments : Segments) (served : IsServed around web source segments) where
  pub in_world :
      (n : ℕ) (s : HlsStream W) (backoff : ℤ) (errors reconnects : ℕ) (w : W)
      → IsBehind around web source segments n s
      → IsBehind around web source segments n (record s {
        backoff = backoff;
        emitted = record s.emitted {
          counters = record s.emitted.counters {
            error_count = errors;
            reconnect_count = reconnects;
          };
          world = w;
        };
      })
  in_world n s backoff errors reconnects w h = record {
    base = h.base;
    size = h.size;
    all = h.all;
    few = h.few;
    kept = h.kept;
    seen = h.seen;
    counter = h.counter;
    number = h.number;
    chunks = h.chunks;
    count = h.count;
  }

  on_pause-IsBehind :
      (n : ℕ) (s : HlsStream W) (r : Bool × W)
      → IsBehind around web source segments n s
      → GoesOn (IsBehind around web source segments n) (on_pause around web source s r)
  unfolding on_pause
  on_pause-IsBehind n s (true, w) h = in_world n s s.backoff _ _ w h
  on_pause-IsBehind n s (false, w) h = tt

  on_retry-IsBehind :
      (n : ℕ) (s : HlsStream W) (r : Bool × W)
      → IsBehind around web source segments n s
      → GoesOn (IsBehind around web source segments n) (on_retry around web source s r)
  unfolding on_retry add_reconnect
  on_retry-IsBehind n s (true, w) h = in_world n s _ _ _ w h
  on_retry-IsBehind n s (false, w) h = tt

  pub on_fetched-failed :
      (n : ℕ) (s : HlsStream W) (e : HlsError) (w : W)
      → IsBehind around web source segments n s
      → GoesOn (IsBehind around web source segments n) (on_fetched around web source s (err e, w))
  unfolding on_fetched retry fail_with add_error
  on_fetched-failed n s e w h =
      on_retry-IsBehind n _ _ (in_world n s s.backoff _ _ (web.report e w) h)

  pub on_fetched-playlist :
      (n first k : ℕ) (s : HlsStream W) (w : W)
      → k ≤ source.max_seen_segments
      → first ≤ n
      → n ≤ first + k
      → IsBehind around web source segments n s
      → GoesOn
          (IsBehind around web source segments (first + k))
          (on_fetched around web source s (ok (playlist segments first k), w))
  unfolding on_fetched pause
  on_fetched-playlist n first k s w few le ge h = on_pause-IsBehind (first + k) _ _ (
      on_segments-IsBehind around web source segments served first k n _ few le ge
        (in_world n s _ _ _ w h))
