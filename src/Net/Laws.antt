-- ===== src/Net/Laws.antt =====
-- Reads from a connection whose input is known.
use streamlation.Prelude.{
  ℕ, ◌≡◌, refl, none, some, [], ◌∷◌, ◌++◌, arith, ◌<◌, ◌==◌, leb, length, length-append,
  take-length_append, drop-length_append, true, false,
}
use streamlation.Prelude.Text.{Bytes, Lacks}
use streamlation.Prelude.Result.{ok, err}
use streamlation.Net.{NetError, Conn, read_full, line_end, short, set_deadline, write}

leb-length_append : (xs ys : Bytes) → leb (length xs) (length (xs ++ ys)) ≡ true
leb-length_append xs ys = ground (arith, length-append xs ys)

module _ {ℓ} {E : Type ℓ} (wrap : NetError → E) where
  pub read_full-append :
      (c : Conn) (xs ys : Bytes)
      → read_full wrap (length xs) (record c { input = xs ++ ys })
        ≡ (ok xs, record c { input = ys })
  unfolding read_full
  read_full-append c xs ys =
      rw (leb-length_append xs ys, take-length_append xs ys, drop-length_append xs ys)

  pub read_full-short :
      (c : Conn) (n : ℕ)
      → length c.input < n
      → read_full wrap n c ≡ (err (wrap (short c.input c.ending)), record c { input = [] })
  unfolding read_full
  read_full-short c n h = let e : leb n (length c.input) ≡ false = ground arith in rw e

module _ {ℓ} {E : Type ℓ} (wrap : NetError → E) where
  pub set_deadline-none : (c : Conn) → c.deadline_fault ≡ none → set_deadline wrap c ≡ (ok tt, c)
  unfolding set_deadline
  set_deadline-none c h = ground arith

  pub write-none :
      (b : Bytes) (c : Conn)
      → c.send_fault ≡ none
      → write wrap b c ≡ (ok tt, record c { output = c.output ++ b })
  unfolding write
  write-none b c h = ground arith

pub line_end-append :
    (line rest : Bytes)
    → Lacks b'\n' line
    → line_end (line ++ b'\n' ∷ rest) ≡ some (line ++ b'\n' ∷ [], rest)
unfolding line_end
line_end-append [] rest h = refl
line_end-append (c ∷ line) rest h =
    let e : (c == b'\n') ≡ false = ground (arith, h.0) in rw (e, line_end-append line rest h.1)

pub line_end-Lacks : (s : Bytes) → Lacks b'\n' s → line_end s ≡ none
unfolding line_end
line_end-Lacks [] h = refl
line_end-Lacks (c ∷ s) h =
    let e : (c == b'\n') ≡ false = ground (arith, h.0) in rw (e, line_end-Lacks s h.1)
