-- ===== src/Ingestion/Hls/Polls.antt =====
-- What every round of the loop of ingestion/hls.go keeps.
use streamlation.Prelude.{
  ℕ, ◌≡◌, ◌≤◌, ◌<◌, ◌*◌, ◌^◌, arith, refl, Bool, true, false, Bool-cases, List, [], ◌∷◌, leb, inl,
  inr,
}
use streamlation.Prelude.Int.{ℤ, pos}
use streamlation.Prelude.Loop.{Keeps, rounds-Keeps}
use streamlation.Prelude.Text.{Bytes}
use streamlation.Prelude.Result.{Result, ok, err}
use streamlation.Ingestion.{Surroundings}
use streamlation.Ingestion.Emitter.{
  add_error, add_reconnect, IsCounted, start-IsCounted, emit_chunk-IsCounted, recount,
}
use streamlation.Ingestion.Hls.{
  HlsStreamSource, is_seen, HlsStream, double, at_most, next_backoff, Web, fail_with, on_downloaded,
  new_segment, on_segment, on_segments, on_pause, on_retry, pause, retry, on_fetched, on_started,
  poll, started, polls, fetch_segments,
}
use streamlation.Ingestion.Hls.Playlist.{HlsError, HlsSegment}
use streamlation.Ingestion.Hls.Seen.{IsWindow, forget-IsWindow, see-IsWindow}

-- A backoff is above 0 and at most `max`.
pub record IsBackoff (max : ℕ) (backoff : ℤ) : Type 0 where
  pub size : ℕ
  pub value : backoff ≡ pos size
  pub positive : 0 < size
  pub bounded : size ≤ max

double-pos : (n : ℕ) → n < 2 ^ 62 → double (pos n) ≡ pos (n * 2)
unfolding double
double-pos n h = ground arith

next_backoff-IsBackoff :
    (max : ℕ) (backoff : ℤ)
    → max < 2 ^ 62
    → IsBackoff max backoff
    → IsBackoff max (next_backoff max backoff)
unfolding next_backoff at_most
next_backoff-IsBackoff max backoff lt h = elim (Bool-cases (leb (h.size * 2) max)) [
  | inl e ↦
      rw (h.value, double-pos h.size (omega (arith, h.bounded)), e)
        (record {
          size = h.size * 2;
          value = refl;
          positive = omega (arith, h.positive);
          bounded = ground (arith, e);
        })
  | inr e ↦
      rw (h.value, double-pos h.size (omega (arith, h.bounded)), e)
        (record { size = h.size; value = refl; positive = h.positive; bounded = h.bounded })
]

module _ {W : Type 0} (around : Surroundings W) (web : Web W) (source : HlsStreamSource) where
  -- What holds in front of each round.
  pub record IsPolling (s : HlsStream W) : Type 0 where
    pub window : IsWindow source.max_seen_segments s.seen_counter s.seen
    pub backoff : IsBackoff source.max_retry_backoff s.backoff
    pub counted : IsCounted s.emitted

  module _ (positive : 0 < source.retry_backoff)
      (ordered : source.retry_backoff ≤ source.max_retry_backoff)
      (small : source.max_retry_backoff < 2 ^ 62) where
    on_downloaded-IsPolling :
        (seg : HlsSegment) (s : HlsStream W) (r : Result HlsError Bytes × W)
        → IsPolling s
        → IsPolling (on_downloaded around web source seg s r)
    unfolding on_downloaded fail_with add_error
    on_downloaded-IsPolling seg s (err error, w) h = record {
      window = forget-IsWindow seg.uri _ s.seen_counter s.seen h.window;
      backoff = h.backoff;
      counted = recount s.emitted _ _ _ h.counted;
    }
    on_downloaded-IsPolling seg s (ok data_, w) h = record {
      window = h.window;
      backoff = h.backoff;
      counted =
          emit_chunk-IsCounted around seg.duration data_ _ _ (recount s.emitted _ _ w h.counted);
    }

    on_segment-IsPolling :
        (seg : HlsSegment) (s : HlsStream W)
        → IsPolling s
        → IsPolling (on_segment around web source seg s)
    unfolding on_segment new_segment
    on_segment-IsPolling seg s h = elim (Bool-cases (is_seen seg.uri s.seen)) [
      | inl e ↦ rw e h
      | inr e ↦ rw e (
          on_downloaded-IsPolling seg _ _ (record {
            window = see-IsWindow seg.uri _ s.seen_counter s.seen e h.window;
            backoff = h.backoff;
            counted = h.counted;
          }))
    ]

    on_segments-IsPolling :
        (segs : List HlsSegment) (s : HlsStream W)
        → IsPolling s
        → IsPolling (on_segments around web source segs s)
    unfolding on_segments
    on_segments-IsPolling [] s h = h
    on_segments-IsPolling (seg ∷ segs) s h =
        on_segments-IsPolling segs (on_segment around web source seg s)
          (on_segment-IsPolling seg s h)

    in_world :
        (s : HlsStream W) (w : W)
        → IsPolling s
        → IsPolling (record s { emitted = record s.emitted { world = w } })
    in_world s w h = record {
      window = h.window;
      backoff = h.backoff;
      counted = recount s.emitted _ _ w h.counted;
    }

    on_pause-Keeps :
        (s : HlsStream W) (r : Bool × W)
        → IsPolling s
        → Keeps IsPolling (on_pause around web source s r)
    unfolding on_pause
    on_pause-Keeps s (true, w) h = in_world s w h
    on_pause-Keeps s (false, w) h = in_world s w h

    on_retry-Keeps :
        (s : HlsStream W) (r : Bool × W)
        → IsPolling s
        → Keeps IsPolling (on_retry around web source s r)
    unfolding on_retry add_reconnect
    on_retry-Keeps s (true, w) h = record {
      window = h.window;
      backoff = next_backoff-IsBackoff source.max_retry_backoff s.backoff small h.backoff;
      counted = recount s.emitted _ _ w h.counted;
    }
    on_retry-Keeps s (false, w) h = in_world s w h

    on_fetched-Keeps :
        (s : HlsStream W) (r : Result HlsError (List HlsSegment) × W)
        → IsPolling s
        → Keeps IsPolling (on_fetched around web source s r)
    unfolding on_fetched retry pause fail_with add_error
    on_fetched-Keeps s (err error, w) h = on_retry-Keeps _ _ (record {
      window = h.window;
      backoff = h.backoff;
      counted = recount s.emitted _ _ (web.report error w) h.counted;
    })
    on_fetched-Keeps s (ok segs, w) h = on_pause-Keeps _ _ (
        on_segments-IsPolling segs _ (record {
          window = h.window;
          backoff = record {
            size = source.retry_backoff;
            value = refl;
            positive = positive;
            bounded = ordered;
          };
          counted = recount s.emitted _ _ w h.counted;
        }))

    on_started-Keeps :
        (s : HlsStream W) (r : Bool × W)
        → IsPolling s
        → Keeps IsPolling (on_started around web source s r)
    unfolding on_started
    on_started-Keeps s (true, w) h = in_world s w h
    on_started-Keeps s (false, w) h =
        on_fetched-Keeps _ (fetch_segments around web source w) (in_world s w h)

    -- For a first backoff above 0, at most the largest one, which is below 2 ^ 62 nanoseconds:
    -- after any number of rounds, whatever the playlists, the downloads, the channel and the
    -- context do, at most the configured number of segments is remembered, none of them twice; the
    -- backoff is above 0 and at most the largest one, without overflow; and every numbered chunk is
    -- counted once, as received or as dropped, and the received chunks are in the channel with
    -- rising numbers.
    pub polls-IsPolling : (n : ℕ) (w : W) → IsPolling (polls around web source n w)
    unfolding polls poll started
    polls-IsPolling n w =
        rounds-Keeps IsPolling (poll around web source)
          (λ s h. on_started-Keeps s (around.ended s.emitted.world) h) n
          (started around web source w)
          (record {
            window = record { few = omega arith; falls = tt; distinct = tt };
            backoff = record {
              size = source.retry_backoff;
              value = refl;
              positive = positive;
              bounded = ordered;
            };
            counted = start-IsCounted w;
          })
