-- ===== src/Tests/Upgrade.antt =====
-- A witness of the theorem on sessionStatusHandler of apps/api/cmd/server/status.go.
use streamlation.Prelude.{◌≡◌, refl, arith, true, false, none, some, List, [], ◌∷◌}
use streamlation.Prelude.Text.{Bytes, text, to_lower}
use streamlation.Prelude.Result.{Result, ok}
use streamlation.Api.Handlers.{SessionStatusEvent}
use streamlation.Api.Input.{matches_id}
use streamlation.Api.Input.Valid.{matches_id_sound}
use streamlation.Api.WebSocket.Handshake.{
  Upgrade, Received, event, error, done, sent, subscribed, refused, session_status_handler,
}
use streamlation.Api.WebSocket.Answers.{
  IsUpgrade, accepted, normal_closure, internal_error, frames_of, session_status_handler-frames_of,
}
use streamlation.Tests.Data.{idle, demo}

abbrev request : Upgrade
unfolding text
request = record {
  method = text "GET";
  session_id = demo.id;
  connection = text "keep-alive, Upgrade";
  upgrade = text "WebSocket";
  key = b'k' ∷ [];
}

request-IsUpgrade : IsUpgrade request
unfolding text to_lower matches_id
request-IsUpgrade = record {
  before = text "keep-alive, ";
  behind = [];
  method = refl;
  id = (matches_id_sound demo.id refl).0;
  size = (omega arith, omega arith);
  connection = refl;
  upgrade = refl;
  key = λ e. cc e;
}

-- In place of SHA-1 and base64.
abbrev same_text : Bytes → Bytes
same_text key = key

abbrev detail_of : SessionStatusEvent → Result Bytes Bytes
detail_of e = ok e.detail

abbrev hello : SessionStatusEvent
hello = record { session_id = demo.id; stage = []; state = []; detail = b'h' ∷ b'i' ∷ [] }

abbrev received : List Received
received = event (some hello) ∷ error none ∷ done ∷ []

session_status_handler-frames_of_example :
    (session_status_handler detail_of same_text request (subscribed true) received (ok idle)
      ≡ ok (
          sent
            (sent (sent idle (accepted same_text request.key)) (frames_of detail_of received))
            normal_closure))
    × (session_status_handler detail_of same_text request (subscribed false) received (ok idle)
        ≡ ok (sent (sent idle (accepted same_text request.key)) (frames_of detail_of received)))
    × (session_status_handler detail_of same_text request refused received (ok idle)
        ≡ ok (sent (sent idle (accepted same_text request.key)) internal_error))
session_status_handler-frames_of_example =
    session_status_handler-frames_of detail_of same_text request received idle request-IsUpgrade
      refl
