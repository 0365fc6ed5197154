-- ===== src/Postgres/Store/Cursor.antt =====
-- The loop of `List` over the cursor reads the rows one after the other.
use streamlation.Prelude.{
  ℕ, suc, ◌+◌, ◌-◌, ◌≡◌, refl, true, false, none, some, List, [], ◌∷◌, ◌++◌, ◌||◌, arith, ltb, leb,
  ◌==◌, length, get_elem?, length-append, append_assoc, append-nil,
}
use streamlation.Prelude.Text.{Bytes}
use streamlation.Prelude.Result.{Result, ok, err, ◌>>=◌}
use streamlation.Session.{TranslationSession}
use streamlation.Postgres.Failure.{Failure}
use streamlation.Postgres.Scan.{Rows, Value, assign_values, next, scan, note_error}
use streamlation.Postgres.Store.{session_dest, session_of, scan_session, list_loop, read_all}

-- The rows in order, up to the first that cannot be read.
unfoldable pub scan_all : List (List Bytes) → Result Failure (List TranslationSession)
scan_all [] = ok []
scan_all (r ∷ rows) = scan_session r >>= λ s. scan_all rows >>= λ sessions. ok (s ∷ sessions)

abbrev at : List (List Bytes) → ℕ → Rows
at rows i = record { rows = rows; idx = i; error = none }

get_elem?-middle {ℓ} :
    {A : Type ℓ} (xs : List A) (x : A) (ys : List A) → get_elem? (xs ++ x ∷ ys) (length xs) ≡ some x
get_elem?-middle [] x ys = refl
get_elem?-middle (y ∷ xs) x ys = get_elem?-middle xs x ys

next-more :
    (before : List (List Bytes)) (r : List Bytes) (rows : List (List Bytes))
    → next (at (before ++ r ∷ rows) (length before))
      ≡ (true, at (before ++ r ∷ rows) (length before + 1))
unfolding next
next-more before r rows =
    let e : leb (length (before ++ r ∷ rows)) (length before) ≡ false =
      ground (arith, length-append before (r ∷ rows)) in
    rw e

next-end :
    (before : List (List Bytes))
    → next (at before (length before)) ≡ (false, at before (length before))
unfolding next
next-end before = let e : leb (length before) (length before) ≡ true = ground arith in rw e

abbrev scanned :
    List (List Bytes) → ℕ → Result Failure (List Value) → Result Failure (List Value) × Rows
scanned rows i v = note_error (at rows i) v

scan-middle :
    (before : List (List Bytes)) (r : List Bytes) (rows : List (List Bytes))
    → scan session_dest (at (before ++ r ∷ rows) (length before + 1))
      ≡ scanned (before ++ r ∷ rows) (length before + 1) (assign_values r session_dest)
unfolding scan
scan-middle before r rows =
    let e : (length before + 1 == 0 || ltb (length (before ++ r ∷ rows)) (length before + 1))
        ≡ false =
      ground (arith, length-append before (r ∷ rows)) in
    let f : length before + 1 - 1 ≡ length before = omega arith in
    rw (e, f, get_elem?-middle before r rows)

next_at :
    (before : List (List Bytes)) (r : List Bytes) (rows : List (List Bytes))
    → at ((before ++ r ∷ []) ++ rows) (length (before ++ r ∷ []))
      ≡ at (before ++ r ∷ rows) (length before + 1)
next_at before r rows =
    let e : length (before ++ r ∷ []) ≡ length before + 1 =
      omega (arith, length-append before (r ∷ [])) in
    rw (e, append_assoc before (r ∷ []) rows)

list_loop-rows :
    (rows before : List (List Bytes))
    → list_loop (suc (length rows)) (at (before ++ rows) (length before)) ≡ scan_all rows
unfolding list_loop scan_all note_error scan_session assign_values
list_loop-rows [] before = rw (append-nil, next-end before)
list_loop-rows (r ∷ rows) before =
    rw (next-more before r rows, scan-middle before r rows)
      (from (assign_values r session_dest) refl (list_loop-rows rows (before ++ r ∷ [])))
  where
    from :
        (v : Result Failure (List Value))
        → assign_values r session_dest ≡ v
        → list_loop
            (suc (length rows))
            (at ((before ++ r ∷ []) ++ rows) (length (before ++ r ∷ [])))
          ≡ scan_all rows
        → (((scanned (before ++ r ∷ rows) (length before + 1) v).0 >>= session_of) >>= λ s.
            list_loop (suc (length rows)) (scanned (before ++ r ∷ rows) (length before + 1) v).1
            >>= λ sessions. ok (s ∷ sessions))
          ≡ ((v >>= session_of) >>= λ s. scan_all rows >>= λ sessions. ok (s ∷ sessions))
    from (ok v) e ih = rw (← next_at before r rows, ih)
    from (err x) e ih = refl

-- `List` returns the sessions of the rows in the server's order, or the error of the first row that
-- cannot be read as a session; its loop over the cursor ends on every answer.
pub read_all-scan_all : (rows : List (List Bytes)) → read_all (ok rows) ≡ scan_all rows
unfolding read_all
read_all-scan_all rows = list_loop-rows rows []
