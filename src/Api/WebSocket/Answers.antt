-- ===== src/Api/WebSocket/Answers.antt =====
-- What a browser gets of sessionStatusHandler of apps/api/cmd/server/status.go, against the
-- handshake and the frames of RFC 6455.
use streamlation.Prelude.{
  ◌≡◌, ◌≢◌, ◌∙◌, refl, sym, ap, true, false, none, some, List, [], ◌∷◌, ◌++◌, append_assoc,
  append-nil, arith, All, leb, length, Bool-cases, inl, inr,
}
use streamlation.Prelude.Text.{
  Bytes, text, equal, equal_iff, to_lower, has_prefix, strip_prefix-append,
}
use streamlation.Prelude.Result.{Result, ok, err}
use streamlation.Net.{Conn}
use streamlation.Prelude.Word.{put_uint16}
use streamlation.Net.Laws.{write-none}
use streamlation.Api.Input.Valid.{Within, IsIdByte, matches_id_complete}
use streamlation.Api.Handlers.{SessionStatusEvent}
use streamlation.Api.WebSocket.{frame, frame_length, text_frame, close_frame}
use streamlation.Api.WebSocket.Frames.{client_frame, seven_bits, extension}
use streamlation.Api.WebSocket.Handshake.{
  Upgrade, contains, check_upgrade, compute_accept_key, response, Received, event, error, done,
  whole, sent, close_with, Subscription, refused, subscribed, on_written, on_marshaled,
  write_events, on_stream_closed, on_upgraded, on_checked, session_status_handler,
}

-- A final text frame without a mask.
text_frame-client_frame : (payload : Bytes) → text_frame payload ≡ client_frame 129 none payload
unfolding text_frame frame frame_length client_frame seven_bits extension
text_frame-client_frame payload = elim (Bool-cases (leb (length payload) 125)) [
  | inl a ↦ rw a refl
  | inr a ↦
      rw a
        (elim (Bool-cases (leb (length payload) 65535)) [ inl b ↦ rw b refl | inr b ↦ rw b refl ])
]

contains-has_prefix : (part s : Bytes) → has_prefix part s ≡ true → contains part s ≡ true
unfolding contains
contains-has_prefix part [] h = h
contains-has_prefix part (c ∷ s) h = rw h refl

has_prefix-append : (part behind : Bytes) → has_prefix part (part ++ behind) ≡ true
unfolding has_prefix
has_prefix-append part behind = rw (has_prefix, strip_prefix-append part behind) refl

contains-append : (part before behind : Bytes) → contains part (before ++ (part ++ behind)) ≡ true
unfolding contains
contains-append part [] behind =
    contains-has_prefix part (part ++ behind) (has_prefix-append part behind)
contains-append part (c ∷ before) behind =
    let ih = contains-append part before behind in ground (arith, ih)

-- What the upgrade asks of a request: GET, a session's id of 8 to 64 letters, digits, dashes and
-- underscores, a Connection that names `upgrade` and an Upgrade that is `websocket`, in letters of
-- either case, and a key.
pub record IsUpgrade (r : Upgrade) : Type 0 where
  pub before : Bytes
  pub behind : Bytes
  pub method : r.method ≡ text "GET"
  pub id : All IsIdByte r.session_id
  pub size : Within 8 64 (length r.session_id)
  pub connection : to_lower r.connection ≡ before ++ (text "upgrade" ++ behind)
  pub upgrade : to_lower r.upgrade ≡ text "websocket"
  pub key : r.key ≢ []

check_upgrade-none : (r : Upgrade) → IsUpgrade r → check_upgrade r ≡ none
unfolding check_upgrade
check_upgrade-none r u =
    let method = (equal_iff r.method (text "GET")).1 u.method in
    let id = matches_id_complete r.session_id u.id u.size in
    let connection : contains (text "upgrade") (to_lower r.connection) ≡ true =
      ap (contains (text "upgrade")) u.connection
      ∙ contains-append (text "upgrade") u.before u.behind in
    let upgrade = (equal_iff (to_lower r.upgrade) (text "websocket")).1 u.upgrade in
    elim (Bool-cases (equal r.key [])) [
      | inl e ↦ absurd (u.key ((equal_iff r.key []).0 e))
      | inr e ↦ rw (method, id, connection, upgrade, e) refl
    ]

-- The response of the handshake, with the digest of the key and the GUID of RFC 6455.
abbrev pub accepted : (Bytes → Bytes) → Bytes → Bytes
accepted digest key =
    text
      "HTTP/1.1 101 Switching Protocols\r\nUpgrade: websocket\r\nConnection: Upgrade\r\nSec-WebSocket-Accept: "
    ++ (digest (key ++ text "258EAFA5-E914-47DA-95CA-C5AB0DC85B11") ++ text "\r\n\r\n")

-- The close frames of the codes 1000 and 1011.
abbrev pub normal_closure : Bytes
normal_closure = 136 ∷ 2 ∷ 3 ∷ 232 ∷ []

abbrev pub internal_error : Bytes
internal_error = 136 ∷ 2 ∷ 3 ∷ 243 ∷ []

response-accepted :
    (digest : Bytes → Bytes) (key : Bytes) → response digest key ≡ accepted digest key
unfolding response compute_accept_key
response-accepted digest key = refl

close_frame-normal : close_frame 1000 ≡ normal_closure
unfolding close_frame frame frame_length put_uint16
close_frame-normal = refl

close_frame-internal : close_frame 1011 ≡ internal_error
unfolding close_frame frame frame_length put_uint16
close_frame-internal = refl

module _ (marshal : SessionStatusEvent → Result Bytes Bytes) where
  frame_of : Result Bytes Bytes → Bytes
  unfolding client_frame
  frame_of (ok payload) = client_frame 129 none payload
  frame_of (err e) = []

  -- The final text frames of the events in front of the first thing that ends the loop; an event
  -- that cannot be marshaled has none.
  unfoldable pub frames_of : List Received → Bytes
  unfolding frame_of
  frames_of [] = []
  frames_of (event none ∷ rest) = []
  frames_of (event (some e) ∷ rest) = frame_of (marshal e) ++ frames_of rest
  frames_of (error none ∷ rest) = frames_of rest
  frames_of (error (some e) ∷ rest) = []
  frames_of (done ∷ rest) = []

  on_marshaled-frame_of :
      (r : Result Bytes Bytes) (next : Conn → Conn) (c : Conn)
      → c.send_fault ≡ none
      → on_marshaled marshal r next c ≡ next (sent c (frame_of r))
  unfolding on_marshaled on_written sent frame_of
  on_marshaled-frame_of (err e) next c h =
      ap (λ o. next (record c { output = o })) (sym (append-nil c.output))
  on_marshaled-frame_of (ok payload) next c h =
      rw (write-none whole (text_frame payload) c h, text_frame-client_frame payload) refl

  write_events-frames_of :
      (received : List Received) (c : Conn)
      → c.send_fault ≡ none
      → write_events marshal received c ≡ sent c (frames_of received)
  unfolding write_events frames_of sent
  write_events-frames_of [] c h = ap (λ o. record c { output = o }) (sym (append-nil c.output))
  write_events-frames_of (event none ∷ rest) c h =
      ap (λ o. record c { output = o }) (sym (append-nil c.output))
  write_events-frames_of (event (some e) ∷ rest) c h =
      on_marshaled-frame_of (marshal e) (write_events marshal rest) c h
      ∙ write_events-frames_of rest (sent c (frame_of (marshal e))) h
      ∙ ap (λ o. record c { output = o })
          (append_assoc c.output (frame_of (marshal e)) (frames_of rest))
  write_events-frames_of (error none ∷ rest) c h = write_events-frames_of rest c h
  write_events-frames_of (error (some e) ∷ rest) c h =
      ap (λ o. record c { output = o }) (sym (append-nil c.output))
  write_events-frames_of (done ∷ rest) c h =
      ap (λ o. record c { output = o }) (sym (append-nil c.output))

  upgraded :
      (digest : Bytes → Bytes) (r : Upgrade) (subscription : Subscription)
      (received : List Received) (c : Conn)
      → IsUpgrade r
      → c.send_fault ≡ none
      → session_status_handler marshal digest r subscription received (ok c)
        ≡ ok (on_upgraded marshal subscription received (ok tt, sent c (accepted digest r.key)))
  unfolding session_status_handler on_checked sent
  upgraded digest r subscription received c u h =
      ap (λ o. on_checked marshal digest r subscription received o (ok c)) (check_upgrade-none r u)
      ∙ ap (λ p. ok (on_upgraded marshal subscription received p))
          (write-none whole (response digest r.key) c h)
      ∙ ap (λ t. ok (on_upgraded marshal subscription received (ok tt, sent c t)))
          (response-accepted digest r.key)

  -- Over a connection that takes every write, an upgrade is answered with the handshake's response,
  -- which carries the digest of the key and the GUID, then the text frames of the events in their
  -- order, up to the first error, the end of the stream or that of the context. If the stream's
  -- Close returns, a close frame 1000 follows; if it does not, nothing does. If the subscription
  -- fails, the response is followed by a close frame 1011 alone.
  pub session_status_handler-frames_of :
      (digest : Bytes → Bytes) (r : Upgrade) (received : List Received) (c : Conn)
      → IsUpgrade r
      → c.send_fault ≡ none
      → (session_status_handler marshal digest r (subscribed true) received (ok c)
          ≡ ok (sent (sent (sent c (accepted digest r.key)) (frames_of received)) normal_closure))
        × (session_status_handler marshal digest r (subscribed false) received (ok c)
            ≡ ok (sent (sent c (accepted digest r.key)) (frames_of received)))
        × (session_status_handler marshal digest r refused received (ok c)
            ≡ ok (sent (sent c (accepted digest r.key)) internal_error))
  unfolding on_upgraded on_stream_closed close_with sent
  session_status_handler-frames_of digest r received c u h =
      let answered : Conn = sent c (accepted digest r.key) in
      let events = write_events-frames_of received answered h in
      (
        upgraded digest r (subscribed true) received c u h
            ∙ ap (λ d. ok (close_with 1000 d)) events
            ∙ ap (λ p. ok p.1)
                (write-none whole (close_frame 1000) (sent answered (frames_of received)) h)
            ∙ ap (λ f. ok (sent (sent answered (frames_of received)) f)) close_frame-normal,
        upgraded digest r (subscribed false) received c u h ∙ ap (λ d. ok d) events,
        upgraded digest r refused received c u h
            ∙ ap (λ p. ok p.1) (write-none whole (close_frame 1011) answered h)
            ∙ ap (λ f. ok (sent answered f)) close_frame-internal,
      )
