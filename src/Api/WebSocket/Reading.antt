-- ===== src/Api/WebSocket/Reading.antt =====
-- The reading loop of apps/api/cmd/server/status.go over the frames that a client sends.
use streamlation.Prelude.{
  ℕ, zero, suc, ◌%◌, ◌^◌, ◌≡◌, ◌≤◌, ◌<◌, refl, ap, sym, ◌∙◌, false, ◌≢◌, Option, none, some, List,
  [], ◌∷◌, ◌++◌, ◌==◌, if◌then◌else◌, length, arith, append_assoc, append-nil, length-append,
  Bool-cases, Option-cases, ltb, inl, inr,
}
use streamlation.Prelude.Text.{Bytes}
use streamlation.Prelude.Result.{Result, ok, err}
use streamlation.Net.{NetError, Conn, Io, read_byte, Healthy}
use streamlation.Net.Laws.{set_deadline-none, write-none}
use streamlation.Api.WebSocket.{
  Stop, Alive, net, closed, frame, frame_length, int64, discard_payload, on_opcode, read_loop,
  read_frame, websocket_read_loop,
}
use streamlation.Api.WebSocket.Frames.{client_frame, IsKey, read_frame-client_frame}

pub record ClientFrame : Type 0 where
  pub first : ℕ
  pub key : Option Bytes
  pub payload : Bytes

abbrev pub AreFrames : List ClientFrame → Type 0
AreFrames [] = Unit
AreFrames (f ∷ fs) = IsKey f.key × (length f.payload < 2 ^ 63) × AreFrames fs

unfoldable pub frames : List ClientFrame → Bytes
frames [] = []
frames (f ∷ fs) = client_frame f.first f.key f.payload ++ frames fs

-- A final frame of opcode 10 without a mask and a payload.
abbrev pub pong : Bytes
pong = 138 ∷ 0 ∷ []

-- One check later.
unfoldable later : Alive → Alive
later none = none
later (some zero) = some zero
later (some (suc n)) = some n

-- The answer to a frame with this first byte, in front of the rest.
unfoldable answer : ℕ → Bytes × Result Stop (Unit {0}) → Bytes × Result Stop (Unit {0})
answer first rest =
    if first % 16 == 8
    then ([], err closed)
    else if first % 16 == 9
    then (pong ++ rest.0, rest.1)
    else rest

-- What is written back, and how the loop ends, where the context is found alive so many times and
-- reading behind the frames meets `e`: a pong for each ping in front of the first close frame and
-- of the check that finds the context ended.
unfoldable pub answers : NetError → Alive → List ClientFrame → Bytes × Result Stop (Unit {0})
unfolding later answer
answers e (some zero) fs = ([], ok tt)
answers e alive [] = ([], err (net e))
answers e alive (f ∷ fs) = answer f.first (answers e (later alive) fs)

at : Conn → NetError → Bytes → Bytes → Conn
at c e out s = record c { input = s; output = out; ending = e }

-- The loop ends with the outcome and with the output of `r`, behind the output `out`.
abbrev pub Answered :
    Bytes → Bytes × Result Stop (Unit {0}) → Result Stop (Unit {0}) × Conn → Type 0
Answered out r s = (s.0 ≡ r.1) × (s.1.output ≡ out ++ r.0)

read_loop-cons :
    (fuel : ℕ) (alive : Alive) (c : Conn) (e : NetError) (out : Bytes) (f : ClientFrame)
    (rest : Bytes)
    → alive ≢ some 0
    → Healthy c
    → IsKey f.key
    → length f.payload < 2 ^ 63
    → read_loop (suc fuel) alive (at c e out (client_frame f.first f.key f.payload ++ rest))
      ≡ on_opcode (read_loop fuel (later alive)) (f.first % 16) (at c e out rest)
unfolding read_loop at later
read_loop-cons fuel (some zero) c e out f rest a h k l = absurd (a refl)
read_loop-cons fuel none c e out f rest a h k l = rw (
  set_deadline-none net (at c e out (client_frame f.first f.key f.payload ++ rest)) h.1,
  read_frame-client_frame f.first f.key f.payload rest (at c e out []) k l,
)
read_loop-cons fuel (some (suc n)) c e out f rest a h k l = rw (
  set_deadline-none net (at c e out (client_frame f.first f.key f.payload ++ rest)) h.1,
  read_frame-client_frame f.first f.key f.payload rest (at c e out []) k l,
)

read_loop-nil :
    (fuel : ℕ) (alive : Alive) (c : Conn) (e : NetError) (out : Bytes)
    → alive ≢ some 0
    → Healthy c
    → read_loop (suc fuel) alive (at c e out []) ≡ (err (net e), at c e out [])
unfolding read_loop at read_frame read_byte
read_loop-nil fuel (some zero) c e out a h = absurd (a refl)
read_loop-nil fuel none c e out a h = rw (set_deadline-none net (at c e out []) h.1)
read_loop-nil fuel (some (suc n)) c e out a h = rw (set_deadline-none net (at c e out []) h.1)

length-client_frame : (f : ClientFrame) → 1 ≤ length (client_frame f.first f.key f.payload)
unfolding client_frame
length-client_frame f = elim (Option-cases f.key) [
  | inl k ↦ rw k (omega arith)
  | inr (key, k) ↦ rw k (omega arith)
]

on_opcode-answer :
    (next : Io Stop (Unit {0})) (first : ℕ) (c : Conn) (out : Bytes)
    (rest : Bytes × Result Stop (Unit {0}))
    → c.send_fault ≡ none
    → ((out : Bytes) → Answered out rest (next (record c { output = out })))
    → Answered out (answer first rest) (on_opcode next (first % 16) (record c { output = out }))
unfolding on_opcode answer frame frame_length
on_opcode-answer next first c out rest h step = elim (Bool-cases (first % 16 == 8)) [
  | inl a ↦ rw a (refl, sym (append-nil out))
  | inr a ↦ rw a (elim (Bool-cases (first % 16 == 9)) [
    | inl b ↦
        let sent = write-none net pong (record c { output = out }) h in
        let (outcome, output) = step (out ++ pong) in
        rw (b, sent) (outcome, output ∙ append_assoc out pong rest.0)
    | inr b ↦ rw b (step out)
  ])
]

frame-Answered :
    (f : ClientFrame) (fs : List ClientFrame) (fuel : ℕ) (alive : Alive) (c : Conn) (e : NetError)
    (out : Bytes)
    → alive ≢ some 0
    → Healthy c
    → IsKey f.key
    → length f.payload < 2 ^ 63
    → ((out : Bytes)
        → Answered out
            (answers e (later alive) fs)
            (read_loop fuel (later alive) (at c e out (frames fs))))
    → Answered out (answer f.first (answers e (later alive) fs)) (
        read_loop (suc fuel) alive (at c e out (client_frame f.first f.key f.payload ++ frames fs)))
unfolding at
frame-Answered f fs fuel alive c e out a h k l step =
    rw (read_loop-cons fuel alive c e out f (frames fs) a h k l) (
      on_opcode-answer (read_loop fuel (later alive)) f.first (at c e out (frames fs)) out
        (answers e (later alive) fs) h.0 step)

end-Answered :
    (fuel : ℕ) (alive : Alive) (c : Conn) (e : NetError) (out : Bytes)
    → alive ≢ some 0
    → Healthy c
    → Answered out ([], err (net e)) (read_loop (suc fuel) alive (at c e out []))
unfolding at
end-Answered fuel alive c e out a h = (
  ap (λ r. r.0) (read_loop-nil fuel alive c e out a h),
  ap (λ r. r.1.output) (read_loop-nil fuel alive c e out a h) ∙ sym (append-nil out),
)

shorter :
    (f : ClientFrame) (fs : List ClientFrame) (fuel : ℕ)
    → length (frames (f ∷ fs)) < suc fuel
    → length (frames fs) < fuel
unfolding frames
shorter f fs fuel l = omega (
  arith,
  l,
  length-client_frame f,
  length-append (client_frame f.first f.key f.payload) (frames fs),
)

read_loop-frames :
    (fs : List ClientFrame) (fuel : ℕ) (alive : Alive) (c : Conn) (e : NetError) (out : Bytes)
    → Healthy c
    → AreFrames fs
    → length (frames fs) < fuel
    → Answered out (answers e alive fs) (read_loop fuel alive (at c e out (frames fs)))
unfolding answers frames at read_loop later
read_loop-frames fs zero alive c e out h k l = absurd (omega arith)
read_loop-frames fs (suc fuel) (some zero) c e out h k l = (refl, sym (append-nil out))
read_loop-frames [] (suc fuel) none c e out h k l = end-Answered fuel none c e out (λ q. cc q) h
read_loop-frames [] (suc fuel) (some (suc n)) c e out h k l =
    end-Answered fuel (some (suc n)) c e out (λ q. cc q) h
read_loop-frames (f ∷ fs) (suc fuel) none c e out h k l =
    frame-Answered f fs fuel none c e out (λ q. cc q) h k.0 k.1
      λ out. read_loop-frames fs fuel none c e out h k.2 (shorter f fs fuel l)
read_loop-frames (f ∷ fs) (suc fuel) (some (suc n)) c e out h k l =
    frame-Answered f fs fuel (some (suc n)) c e out (λ q. cc q) h k.0 k.1
      λ out. read_loop-frames fs fuel (some n) c e out h k.2 (shorter f fs fuel l)

-- Over a working connection on which a client sends any frames that it can send, behind which
-- reading meets the error `e`, and for a context that is found alive any number of times: exactly
-- one pong is written for each ping in front of the first close frame and of the check that finds
-- the context ended, every other frame is passed over, and the loop stops at that check, at the
-- close frame, or with the error.
pub websocket_read_loop-frames :
    (fs : List ClientFrame) (alive : Alive) (c : Conn) (e : NetError)
    → Healthy c
    → AreFrames fs
    → Answered c.output
        (answers e alive fs)
        (websocket_read_loop alive (record c { input = frames fs; ending = e }))
unfolding websocket_read_loop at
websocket_read_loop-frames fs alive c e h k =
    read_loop-frames fs (suc (length (frames fs))) alive c e c.output h k (omega arith)

-- Finding: a frame whose length of 64 bits has its top bit set is passed over without its payload,
-- for the length becomes a negative int64. The bytes behind it, which the client controls, are read
-- as the next frame, where the protocol forbids such a length.
pub discard_payload_negative :
    (n : ℕ) (c : Conn) → 2 ^ 63 ≤ n → n < 2 ^ 64 → discard_payload (int64 n) c ≡ (ok tt, c)
unfolding discard_payload int64
discard_payload_negative n c h k = let e : ltb n (2 ^ 63) ≡ false = ground arith in rw e
