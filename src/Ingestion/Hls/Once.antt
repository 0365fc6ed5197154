-- ===== src/Ingestion/Hls/Once.antt =====
-- A live playlist that slides over its segments, as ingestion/hls.go emits it.
use mathlib.Core.Path.{subst}
use streamlation.Prelude.{
  ℕ, ◌≡◌, ◌≤◌, ◌<◌, ◌+◌, ◌-◌, zero, suc, arith, refl, sym, ap, Bool, true, false, Bool-cases, [],
  ◌∷◌, ltb, inl, inr, length, length-append,
}
use streamlation.Prelude.Text.{Bytes}
use streamlation.Prelude.Result.{Result, ok, err}
use streamlation.Ingestion.{MediaChunk, Surroundings}
use streamlation.Ingestion.Emitter.{emit_chunk, on_offered}
use streamlation.Ingestion.Hls.{
  HlsStreamSource, Seen, is_seen, see, HlsStream, Web, on_downloaded, new_segment, on_segment,
  on_segments, download_segment,
}
use streamlation.Ingestion.Hls.Playlist.{HlsError, HlsSegment}
use streamlation.Ingestion.Hls.Sliding.{
  Segments, IsSegment, AreSegments, AreSegments-append, playlist, entries, entries-is_seen,
  entries-unseen, see-entries, see-full,
}

-- What surrounds a source whose downloads succeed and whose chunks are all taken.
module _ {W : Type 0} (around : Surroundings W) (web : Web W) (source : HlsStreamSource)
    (segments : Segments) where
  pub record IsServed : Type 0 where
    pub some_seen : 0 < source.max_seen_segments
    pub downloads :
        (i : ℕ) (w : W)
        → (download_segment around web source (segments.uri i) w).0 ≡ ok (segments.content i)
    pub sends : (c : MediaChunk) (w : W) → (around.send c w).0 ≡ true

  -- The first `n` segments have been emitted, and the last of them are remembered.
  pub record IsBehind (n : ℕ) (s : HlsStream W) : Type 0 where
    pub base : ℕ
    pub size : ℕ
    pub all : base + size ≡ n
    pub few : size ≤ source.max_seen_segments
    pub kept : base ≤ n - source.max_seen_segments
    pub seen : s.seen ≡ entries segments base size
    pub counter : s.seen_counter ≡ n
    pub number : s.emitted.counters.last_sequence ≡ n
    pub chunks : AreSegments segments 0 s.emitted.chunks
    pub count : length s.emitted.chunks ≡ n

  module _ (served : IsServed) where
    segment : ℕ → HlsSegment
    segment i = record { uri = segments.uri i; duration = segments.duration i }

    -- What is kept of the segments seen.
    kept-see :
        (n : ℕ) (s : HlsStream W) (h : IsBehind n s)
        → (base : ℕ) × (size : ℕ) × (base + size ≡ suc n)
          × (size ≤ source.max_seen_segments)
          × (base ≤ suc n - source.max_seen_segments)
          × (see source.max_seen_segments (segments.uri n) s.seen (suc s.seen_counter)
              ≡ entries segments base size)
    kept-see n s h = elim (Bool-cases (ltb h.size source.max_seen_segments)) [
      | inl e ↦
          let lt : h.size < source.max_seen_segments = ground (arith, e) in
          (
            h.base,
            suc h.size,
            omega (arith, h.all),
            omega arith,
            omega (arith, h.kept),
            rw (h.seen, h.counter, sym h.all)
                (see-entries segments source.max_seen_segments h.base h.size lt),
          )
      | inr e ↦
          let full : h.size ≡ source.max_seen_segments = ground (arith, e, h.few) in
          (
            suc h.base,
            h.size,
            omega (arith, h.all),
            h.few,
            omega (arith, full, h.all),
            rw (h.seen, h.counter, sym h.all, sym full) (see-full segments h.base h.size),
          )
    ]

    on_offered-IsBehind :
        (n : ℕ) (s : HlsStream W) (seen : Seen) (h : IsBehind n s) (c : MediaChunk) (w : W)
        (r : Bool × W)
        → IsSegment segments n c
        → r.0 ≡ true
        → (base : ℕ) × (size : ℕ) × (base + size ≡ suc n)
          × (size ≤ source.max_seen_segments)
          × (base ≤ suc n - source.max_seen_segments)
          × (seen ≡ entries segments base size)
        → IsBehind (suc n) (record s {
          seen = seen;
          seen_counter = suc s.seen_counter;
          emitted =
              on_offered c
                (record s.emitted {
                  counters = record s.emitted.counters {
                    last_sequence = suc s.emitted.counters.last_sequence;
                  };
                  world = w;
                })
                r;
        })
    unfolding on_offered
    on_offered-IsBehind n s seen h c w (true, w') seg taken (base, size, all, few, kept, same) =
        record {
          base = base;
          size = size;
          all = all;
          few = few;
          kept = kept;
          seen = same;
          counter = ap suc h.counter;
          number = ap suc h.number;
          chunks =
              AreSegments-append segments 0 n s.emitted.chunks c h.chunks (omega (arith, h.count))
                seg;
          count = omega (arith, h.count, length-append s.emitted.chunks (c ∷ []));
        }
    on_offered-IsBehind n s seen h c w (false, w') seg taken k = cc taken

    on_downloaded-IsBehind :
        (n : ℕ) (s : HlsStream W) (seen : Seen) (h : IsBehind n s) (r : Result HlsError Bytes × W)
        → r.0 ≡ ok (segments.content n)
        → (base : ℕ) × (size : ℕ) × (base + size ≡ suc n)
          × (size ≤ source.max_seen_segments)
          × (base ≤ suc n - source.max_seen_segments)
          × (seen ≡ entries segments base size)
        → IsBehind (suc n) (
            on_downloaded around web source
              (segment n)
              (record s { seen = seen; seen_counter = suc s.seen_counter })
              r)
    unfolding on_downloaded emit_chunk segment
    on_downloaded-IsBehind n s seen h (err e, w) got k = cc got
    on_downloaded-IsBehind n s seen h (ok b, w) got k =
        on_offered-IsBehind n s seen h _ (around.now w).1 _
          (record { sequence = ap suc h.number; duration = refl; payload = cc got })
          (served.sends _ _) k

    new_segment-IsBehind :
        (n : ℕ) (s : HlsStream W)
        → IsBehind n s
        → IsBehind (suc n) (on_segment around web source (segment n) s)
    unfolding on_segment new_segment segment
    new_segment-IsBehind n s h =
        let unseen : is_seen (segments.uri n) s.seen ≡ false =
          rw h.seen (entries-unseen segments h.base h.size n (omega (arith, h.all))) in
        rw unseen (on_downloaded-IsBehind n s _ h _ (served.downloads n _) (kept-see n s h))

    old_segment-IsBehind :
        (n i : ℕ) (s : HlsStream W)
        → n - source.max_seen_segments ≤ i
        → i < n
        → IsBehind n s
        → IsBehind n (on_segment around web source (segment i) s)
    unfolding on_segment segment
    old_segment-IsBehind n i s le lt h =
        let known : is_seen (segments.uri i) s.seen ≡ true = rw h.seen (
          entries-is_seen segments h.base h.size i (omega (arith, h.kept))
            (omega (arith, h.all))) in
        rw known h

    pub on_segments-IsBehind :
        (first k n : ℕ) (s : HlsStream W)
        → k ≤ source.max_seen_segments
        → first ≤ n
        → n ≤ first + k
        → IsBehind n s
        → IsBehind (first + k) (on_segments around web source (playlist segments first k) s)
    unfolding on_segments playlist segment
    on_segments-IsBehind first zero n s few le ge h = subst (λ i. IsBehind i s) (omega arith) h
    on_segments-IsBehind first (suc k) n s few le ge h = elim (Bool-cases (ltb first n)) [
      | inl e ↦
          subst
            (λ i. IsBehind i (on_segments around web source (playlist segments first (suc k)) s))
            (omega arith)
            (on_segments-IsBehind (suc first) k n (on_segment around web source (segment first) s)
              (omega arith) (ground (arith, e)) (omega arith)
              (old_segment-IsBehind n first s (omega arith) (ground (arith, e)) h))
      | inr e ↦
          let same : n ≡ first = ground (arith, e) in
          subst
            (λ i. IsBehind i (on_segments around web source (playlist segments first (suc k)) s))
            (omega arith)
            (on_segments-IsBehind (suc first) k (suc first)
              (on_segment around web source (segment first) s) (omega arith) (omega arith)
              (omega arith) (new_segment-IsBehind first s (subst (λ i. IsBehind i s) same h)))
    ]
