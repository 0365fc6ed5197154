-- ===== src/Ingestion/Hls/Live.antt =====
-- The rounds of ingestion/hls.go over a live playlist, as steps.
use mathlib.Core.Path.{subst}
use streamlation.Prelude.{ℕ, ◌≡◌, ◌≤◌, ◌+◌, arith, refl, Bool, true, false, List, length}
use streamlation.Prelude.Loop.{again, GoesOn}
use streamlation.Prelude.Result.{Result, ok, err}
use streamlation.Ingestion.{Surroundings}
use streamlation.Ingestion.Hls.{
  HlsStreamSource, HlsStream, Web, on_fetched, on_started, poll, started, fetch_segments,
}
use streamlation.Ingestion.Hls.Playlist.{HlsError, HlsSegment}
use streamlation.Ingestion.Hls.Sliding.{Segments, AreSegments, playlist, entries}
use streamlation.Ingestion.Hls.Once.{IsServed, IsBehind}
use streamlation.Ingestion.Hls.Fetches.{in_world, on_fetched-failed, on_fetched-playlist}

module _ {W : Type 0} (around : Surroundings W) (web : Web W) (source : HlsStreamSource)
    (segments : Segments) where
  -- What the next round fetches.
  unfoldable pub fetched : HlsStream W → Result HlsError (List HlsSegment)
  fetched s = (fetch_segments around web source (around.ended s.emitted.world).1).0

  -- The goroutine's state once playlists with the stream's first `n` segments have been fetched:
  -- each is a window of the stream that begins in or right behind what was listed before and does
  -- not end before it, with at most as many segments as are remembered. Fetches may fail in
  -- between.
  pub data Listed : ℕ → HlsStream W → Type 0 where
    start : (w : W) → Listed 0 (started around web source w)
    unlisted :
        {n : ℕ} {s t : HlsStream W} (e : HlsError)
        → Listed n s
        → fetched s ≡ err e
        → poll around web source s ≡ again t
        → Listed n t
    listed :
        {n : ℕ} {s t : HlsStream W} (first k : ℕ)
        → Listed n s
        → fetched s ≡ ok (playlist segments first k)
        → k ≤ source.max_seen_segments
        → first ≤ n
        → n ≤ first + k
        → poll around web source s ≡ again t
        → Listed (first + k) t

  module _ (served : IsServed around web source segments) where
    on_failed :
        (n : ℕ) (s : HlsStream W) (e : HlsError) (r : Result HlsError (List HlsSegment) × W)
        → r.0 ≡ err e
        → IsBehind around web source segments n s
        → GoesOn (IsBehind around web source segments n) (on_fetched around web source s r)
    on_failed n s e (ok segs, w) q h = cc q
    on_failed n s e (err e', w) q h = on_fetched-failed around web source segments served n s e' w h

    on_listed :
        (n first k : ℕ) (s : HlsStream W) (r : Result HlsError (List HlsSegment) × W)
        → r.0 ≡ ok (playlist segments first k)
        → k ≤ source.max_seen_segments
        → first ≤ n
        → n ≤ first + k
        → IsBehind around web source segments n s
        → GoesOn
            (IsBehind around web source segments (first + k))
            (on_fetched around web source s r)
    on_listed n first k s (ok segs, w) q few le ge h =
        let same : segs ≡ playlist segments first k = cc q in
        rw same (on_fetched-playlist around web source segments served n first k s w few le ge h)
    on_listed n first k s (err e, w) q few le ge h = cc q

    started-failed :
        (n : ℕ) (s : HlsStream W) (e : HlsError) (r : Bool × W)
        → (fetch_segments around web source r.1).0 ≡ err e
        → IsBehind around web source segments n s
        → GoesOn (IsBehind around web source segments n) (on_started around web source s r)
    unfolding on_started
    started-failed n s e (true, w) q h = tt
    started-failed n s e (false, w) q h =
        on_failed n _ e _ q (in_world around web source segments served n s s.backoff _ _ w h)

    started-listed :
        (n first k : ℕ) (s : HlsStream W) (r : Bool × W)
        → (fetch_segments around web source r.1).0 ≡ ok (playlist segments first k)
        → k ≤ source.max_seen_segments
        → first ≤ n
        → n ≤ first + k
        → IsBehind around web source segments n s
        → GoesOn
            (IsBehind around web source segments (first + k))
            (on_started around web source s r)
    unfolding on_started
    started-listed n first k s (true, w) q few le ge h = tt
    started-listed n first k s (false, w) q few le ge h =
        on_listed n first k _ _ q few le ge
          (in_world around web source segments served n s s.backoff _ _ w h)

    Listed-IsBehind :
        {n : ℕ} {s : HlsStream W} → Listed n s → IsBehind around web source segments n s
    unfolding started fetched poll entries
    Listed-IsBehind (start w) = record {
      base = 0;
      size = 0;
      all = omega arith;
      few = omega arith;
      kept = omega arith;
      seen = refl;
      counter = refl;
      number = refl;
      chunks = tt;
      count = refl;
    }
    Listed-IsBehind (unlisted {n} {s} e before q goes_on) =
        subst (GoesOn (IsBehind around web source segments n)) goes_on
          (started-failed n s e _ q (Listed-IsBehind before))
    Listed-IsBehind (listed {n} {s} first k before q few le ge goes_on) =
        subst (GoesOn (IsBehind around web source segments (first + k))) goes_on
          (started-listed n first k s _ q few le ge (Listed-IsBehind before))

    -- When downloads succeed and chunks are taken, and no playlist lists more segments than the
    -- source remembers (max_seen_segments), ends in front of the end of an earlier one or leaves a
    -- gap behind it (`Listed`), the channel has got every segment that the playlists listed exactly
    -- once and in order: the first `n` segments, numbered from 1, with their durations and
    -- contents.
    pub Listed-AreSegments :
        (n : ℕ) (s : HlsStream W)
        → Listed n s
        → AreSegments segments 0 s.emitted.chunks × (length s.emitted.chunks ≡ n)
    Listed-AreSegments n s h = let b = Listed-IsBehind h in (b.chunks, b.count)
