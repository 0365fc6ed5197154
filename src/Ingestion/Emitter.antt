-- ===== src/Ingestion/Emitter.antt =====
-- How the sources of ingestion/hls.go and ingestion/rtmp.go number their chunks, offer them to the
-- channel without waiting, and count them.
use streamlation.Prelude.{
  ℕ, ◌≡◌, ◌≤◌, ◌<◌, ◌+◌, arith, suc, Bool, true, false, List, [], ◌∷◌, ◌++◌, length, length-append,
  refl,
}
use streamlation.Prelude.Int.{ℤ, pos}
use streamlation.Prelude.Text.{Bytes}
use streamlation.Ingestion.{MediaChunk, StreamMetrics, Surroundings, no_metrics}

-- The source's counters, and the chunks that the channel has taken, oldest first.
pub record Emitted (W : Type 0) : Type 0 where
  pub counters : StreamMetrics
  pub chunks : List MediaChunk
  pub world : W

-- `errors.Add(1)` and `reconnect.Add(1)`
unfoldable pub add_error : StreamMetrics → StreamMetrics
add_error m = record m { error_count = suc m.error_count }

unfoldable pub add_reconnect : StreamMetrics → StreamMetrics
add_reconnect m = record m { reconnect_count = suc m.reconnect_count }

unfoldable pub on_offered : {W : Type 0} → MediaChunk → Emitted W → Bool × W → Emitted W
on_offered chunk e (true, w) = record {
  counters = record e.counters { received_chunks = suc e.counters.received_chunks };
  chunks = e.chunks ++ chunk ∷ [];
  world = w;
}
on_offered chunk e (false, w) = record e {
  counters = record e.counters { dropped_chunks = suc e.counters.dropped_chunks };
  world = w;
}

module _ {W : Type 0} (around : Surroundings W) where
  -- The chunk with the next number, offered to the channel.
  unfoldable pub emit_chunk : ℤ → Bytes → List (Bytes × Bytes) → Emitted W → Emitted W
  unfolding on_offered
  emit_chunk duration payload metadata e =
      let sequence = suc e.counters.last_sequence in
      let now = around.now e.world in
      let chunk : MediaChunk = record {
        sequence = sequence;
        timestamp = record { clock = now.0; added = pos 0 };
        duration = duration;
        payload = payload;
        metadata = metadata;
      } in
      on_offered chunk
        (record e { counters = record e.counters { last_sequence = sequence }; world = now.1 })
        (around.send chunk now.1)

-- The numbers of the chunks rise from above `low` to at most `top`.
abbrev pub IsRising : ℕ → List MediaChunk → ℕ → Type 0
IsRising low [] top = low ≤ top
IsRising low (c ∷ cs) top = (low < c.sequence) × IsRising c.sequence cs top

IsRising-suc :
    (low : ℕ) (cs : List MediaChunk) (top : ℕ) → IsRising low cs top → IsRising low cs (suc top)
IsRising-suc low [] top h = omega arith
IsRising-suc low (c ∷ cs) top h = (h.0, IsRising-suc c.sequence cs top h.1)

IsRising-append :
    (low : ℕ) (cs : List MediaChunk) (top : ℕ) (last : MediaChunk)
    → IsRising low cs top
    → last.sequence ≡ suc top
    → IsRising low (cs ++ last ∷ []) (suc top)
IsRising-append low [] top last h e = (omega arith, omega arith)
IsRising-append low (c ∷ cs) top last h e = (h.0, IsRising-append c.sequence cs top last h.1 e)

module _ {W : Type 0} where
  -- Every numbered chunk is counted once, as received or as dropped, and the received ones are in
  -- the channel with rising numbers.
  pub record IsCounted (e : Emitted W) : Type 0 where
    pub all : e.counters.received_chunks + e.counters.dropped_chunks ≡ e.counters.last_sequence
    pub received : e.counters.received_chunks ≡ length e.chunks
    pub rising : IsRising 0 e.chunks e.counters.last_sequence

  pub start-IsCounted :
      (w : W) → IsCounted (record { counters = no_metrics; chunks = []; world = w })
  start-IsCounted w = record { all = refl; received = refl; rising = omega arith }

  -- Errors and reconnections are counted apart.
  pub recount :
      (e : Emitted W) (errors reconnects : ℕ) (w : W)
      → IsCounted e
      → IsCounted (record e {
        counters = record e.counters { error_count = errors; reconnect_count = reconnects };
        world = w;
      })
  recount e errors reconnects w h = record { all = h.all; received = h.received; rising = h.rising }

  on_offered-IsCounted :
      (chunk : MediaChunk) (e : Emitted W) (w : W) (r : Bool × W)
      → IsCounted e
      → chunk.sequence ≡ suc e.counters.last_sequence
      → IsCounted (
          on_offered chunk
            (record e {
              counters = record e.counters { last_sequence = suc e.counters.last_sequence };
              world = w;
            })
            r)
  unfolding on_offered
  on_offered-IsCounted chunk e w (true, w') h number = record {
    all = omega (arith, h.all);
    received = omega (arith, h.received, length-append e.chunks (chunk ∷ []));
    rising = IsRising-append 0 e.chunks e.counters.last_sequence chunk h.rising number;
  }
  on_offered-IsCounted chunk e w (false, w') h number = record {
    all = omega (arith, h.all);
    received = h.received;
    rising = IsRising-suc 0 e.chunks e.counters.last_sequence h.rising;
  }

  pub emit_chunk-IsCounted :
      (around : Surroundings W) (duration : ℤ) (payload : Bytes) (metadata : List (Bytes × Bytes))
      (e : Emitted W)
      → IsCounted e
      → IsCounted (emit_chunk around duration payload metadata e)
  unfolding emit_chunk
  emit_chunk-IsCounted around duration payload metadata e h =
      on_offered-IsCounted _ e ((around.now e.world).1) _ h refl
