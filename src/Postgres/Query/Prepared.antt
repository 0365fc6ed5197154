-- ===== src/Postgres/Query/Prepared.antt =====
-- prepareQuery on a query that is written from pieces, by induction on the pieces.
use streamlation.Prelude.{
  ℕ, zero, suc, ◌+◌, ◌≤◌, ◌≡◌, ◌≢◌, refl, ap, ◌∙◌, false, List, [], ◌∷◌, ◌++◌, arith, ◌==◌, inl,
  inr, Bool-cases, length, get_elem?, length-append, append_assoc, append-nil,
}
use streamlation.Prelude.Text.{Bytes, Lacks}
use streamlation.Prelude.Decimal.{format_uint}
use streamlation.Prelude.Result.{Result, ok, err, ◌>>=◌}
use streamlation.Postgres.Failure.{Failure}
use streamlation.Postgres.Param.{Param, double_quotes, quote_literal}
use streamlation.Postgres.Query.{read_quoted, parameter, prepare_step, prepare_loop, prepare_query}
use streamlation.Postgres.Query.Template.{
  Piece, plain, quoted, arg, render, instantiate, WellFormed, Stops, render-Stops, prepare_step-arg,
}

prepare_loop-step :
    (fuel : ℕ) (args : List Param) (ch : ℕ) (s b written rest : Bytes)
    → prepare_step args ch s ≡ ok (written, rest)
    → prepare_loop (suc fuel) args (ch ∷ s) b ≡ prepare_loop fuel args rest (b ++ written)
unfolding prepare_loop
prepare_loop-step fuel args ch s b written rest h = rw (h, prepare_loop)

prepare_loop-err :
    (fuel : ℕ) (args : List Param) (ch : ℕ) (s b : Bytes) {e : Failure}
    → prepare_step args ch s ≡ err e
    → prepare_loop (suc fuel) args (ch ∷ s) b ≡ err e
unfolding prepare_loop
prepare_loop-err fuel args ch s b h = rw (h, prepare_loop)

prepare_step-plain :
    (args : List Param) (ch : ℕ) (s : Bytes)
    → ch ≢ b'\''
    → ch ≢ b'$'
    → prepare_step args ch s ≡ ok (ch ∷ [], s)
unfolding prepare_step
prepare_step-plain args ch s h k = ground arith

-- Plain text is copied; the rounds that it does not use are left for the rest.
prepare_loop-plain :
    (t : Bytes) (fuel : ℕ) (args : List Param) (rest b : Bytes)
    → Lacks b'\'' t
    → Lacks b'$' t
    → length t + length rest ≤ fuel
    → (left : ℕ) × (length rest ≤ left)
      × (prepare_loop fuel args (t ++ rest) b ≡ prepare_loop left args rest (b ++ t))
prepare_loop-plain [] fuel args rest b q d h = (fuel, omega arith, rw append-nil)
prepare_loop-plain (c ∷ t) zero args rest b q d h = absurd (omega arith)
prepare_loop-plain (c ∷ t) (suc fuel) args rest b q d h =
    let (left, enough, e) =
      prepare_loop-plain t fuel args rest (b ++ c ∷ []) q.1 d.1 (omega arith) in
    (
      left,
      enough,
      prepare_loop-step fuel args c (t ++ rest) b (c ∷ []) (t ++ rest)
            (prepare_step-plain args c (t ++ rest) q.0 d.0)
          ∙ e
          ∙ ap (prepare_loop left args rest) (append_assoc b (c ∷ []) t),
    )

read_quoted-double_quotes :
    (v rest : Bytes)
    → Stops rest
    → read_quoted false (double_quotes v ++ b'\'' ∷ rest) ≡ (double_quotes v ++ b'\'' ∷ [], rest)
unfolding read_quoted double_quotes
read_quoted-double_quotes [] [] h = refl
read_quoted-double_quotes [] (c ∷ rest) h = ground arith
read_quoted-double_quotes (c ∷ v) rest h = elim (Bool-cases (c == b'\'')) [
  | inl q ↦ rw q (rw (read_quoted-double_quotes v rest h))
  | inr p ↦ rw (p, p) (rw (read_quoted-double_quotes v rest h))
]

prepare_step-quoted :
    (args : List Param) (v rest : Bytes)
    → Stops rest
    → prepare_step args b'\'' (double_quotes v ++ b'\'' ∷ rest) ≡ ok (quote_literal v, rest)
unfolding prepare_step quote_literal
prepare_step-quoted args v rest h = rw (read_quoted-double_quotes v rest h)

-- `b` in front of what a list of pieces stands for.
abbrev After : Bytes → Result Failure Bytes → Result Failure Bytes
After b r = r >>= λ out. ok (b ++ out)

After-append :
    (b w : Bytes) (r : Result Failure Bytes)
    → After (b ++ w) r ≡ After b (r >>= λ rest. ok (w ++ rest))
After-append b w (ok out) = ap ok (append_assoc b w out)
After-append b w (err e) = refl

prepare_loop-arg :
    (fuel : ℕ) (args : List Param) (k : ℕ) (rest b : Bytes) (r i : Result Failure Bytes)
    → prepare_step args b'$' (format_uint (suc k) ++ rest) ≡ (r >>= λ w. ok (w, rest))
    → ((piece : Bytes) → prepare_loop fuel args rest (b ++ piece) ≡ After (b ++ piece) i)
    → prepare_loop (suc fuel) args (b'$' ∷ (format_uint (suc k) ++ rest)) b
      ≡ After b (r >>= λ piece. i >>= λ out. ok (piece ++ out))
prepare_loop-arg fuel args k rest b (ok piece) i e ih =
    prepare_loop-step fuel args b'$' _ b piece rest e ∙ ih piece ∙ After-append b piece i
prepare_loop-arg fuel args k rest b (err x) i e ih = prepare_loop-err fuel args b'$' _ b e

prepare_loop-render :
    (ps : List Piece) (fuel : ℕ) (args : List Param) (b : Bytes)
    → WellFormed ps
    → length (render ps) ≤ fuel
    → prepare_loop fuel args (render ps) b ≡ After b (instantiate args ps)
unfolding render instantiate
prepare_loop-render [] fuel args b w h = rw append-nil (unfold prepare_loop in refl)
prepare_loop-render (plain t ∷ ps) fuel args b w h =
    let (left, enough, e) =
      prepare_loop-plain t fuel args (render ps) b w.0 w.1
        (omega (arith, length-append t (render ps))) in
    e
    ∙ prepare_loop-render ps left args (b ++ t) w.2 enough
    ∙ After-append b t (instantiate args ps)
prepare_loop-render (quoted v ∷ ps) zero args b w h = absurd (unfold quote_literal in omega arith)
prepare_loop-render (quoted v ∷ ps) (suc fuel) args b w h =
    let shape : quote_literal v ++ render ps ≡ b'\'' ∷ (double_quotes v ++ b'\'' ∷ render ps) =
      unfold quote_literal in
      ap (◌∷◌ b'\'') (append_assoc (double_quotes v) (b'\'' ∷ []) (render ps)) in
    ap (λ s. prepare_loop (suc fuel) args s b) shape
    ∙ prepare_loop-step fuel args b'\'' _ b (quote_literal v) (render ps)
        (prepare_step-quoted args v (render ps) (render-Stops ps w.0 w.1))
    ∙ prepare_loop-render ps fuel args (b ++ quote_literal v) w.1 (
        unfold quote_literal in
        omega (arith, length-append (double_quotes v ++ b'\'' ∷ []) (render ps)))
    ∙ After-append b (quote_literal v) (instantiate args ps)
prepare_loop-render (arg k ∷ ps) zero args b w h = absurd (omega arith)
prepare_loop-render (arg k ∷ ps) (suc fuel) args b w h =
    prepare_loop-arg fuel args k (render ps) b (parameter args (get_elem? args k))
      (instantiate args ps) (prepare_step-arg args k (render ps) w.0 (render-Stops ps w.1 w.2))
      λ piece.
        prepare_loop-render ps fuel args (b ++ piece) w.2
          (omega (arith, length-append (format_uint (suc k)) (render ps)))

After-nil : (r : Result Failure Bytes) → After [] r ≡ r
After-nil (ok out) = refl
After-nil (err e) = refl

pub prepare_query-render :
    (ps : List Piece) (a : Param) (args : List Param)
    → WellFormed ps
    → prepare_query (render ps) (a ∷ args) ≡ instantiate (a ∷ args) ps
unfolding prepare_query
prepare_query-render ps a args w =
    prepare_loop-render ps (length (render ps)) (a ∷ args) [] w (omega arith)
    ∙ After-nil (instantiate (a ∷ args) ps)
