-- ===== src/Tests/Startup.antt =====
-- Witnesses of the theorems on the startup of packages/go/backend/postgres and on the pipeline.
use streamlation.Prelude.{◌≡◌, refl, arith, Bool, true, false, some, List, [], ◌∷◌, ◌++◌, map, All}
use streamlation.Prelude.Text.{text, equal}
use streamlation.Prelude.Word.{uint32}
use streamlation.Prelude.Result.{ok}
use streamlation.Postgres.Row.{handle_authentication}
use streamlation.Postgres.Client.{startup}
use streamlation.Postgres.Client.Frames.{Message, frame}
use streamlation.Postgres.Client.Sync.{stream}
use streamlation.Postgres.Connect.{Url, Config, config_of}
use streamlation.Postgres.Connect.Ready.{IsWelcome, packet, startup-ready}
use streamlation.Api.Handlers.{SessionStatusEvent}
use streamlation.Pipeline.{Step, event_of, sequential_stub}
use streamlation.Pipeline.Progress.{Reported, sequential_stub-Reported}
use streamlation.Tests.Data.{idle, demo}

-- An authentication that is no demand, and a parameter's status.
abbrev welcome : List Message
welcome = (b'R', 0 ∷ 0 ∷ 0 ∷ 0 ∷ []) ∷ (b'S', []) ∷ []

welcome-IsWelcome : All IsWelcome welcome
unfolding handle_authentication uint32
welcome-IsWelcome = (
  (λ e. refl, λ e. omega (arith, e), λ e. omega (arith, e), omega arith),
  ((λ e. absurd (omega (arith, e)), λ e. omega (arith, e), λ e. omega (arith, e), omega arith), tt),
)

startup-ready_example :
    startup
      (b'u' ∷ [])
      (b'd' ∷ [])
      (record idle { input = stream welcome ++ (frame (b'Z', []) ++ (9 ∷ [])) })
    ≡ (ok tt, record idle { input = 9 ∷ []; output = packet (b'u' ∷ []) (b'd' ∷ []) })
startup-ready_example =
    startup-ready (b'u' ∷ []) (b'd' ∷ []) welcome [] (9 ∷ []) idle (refl, refl) welcome-IsWelcome
      (omega arith)

abbrev local : Url
local = record {
  scheme = text "postgres";
  hostname = [];
  port = [];
  username = [];
  path = b'/' ∷ [];
  sslmode = [];
}

abbrev configured : Config
configured = record {
  addr = text "127.0.0.1:5432";
  user = text "postgres";
  database = text "postgres";
}

local-configured : config_of local ≡ ok configured
unfolding config_of text equal
local-configured = refl

abbrev steps : List Step
steps =
    record { stage = text "asr"; state = text "running"; detail = []; delay = 5 }
    ∷ record { stage = text "asr"; state = text "done"; detail = []; delay = 0 }
    ∷ []

abbrev add : SessionStatusEvent → List SessionStatusEvent → Bool × List SessionStatusEvent
add e w = (true, w ++ e ∷ [])

sequential_stub-Reported_example :
    let s =
      sequential_stub {W = List SessionStatusEvent}
        (λ w. false)
        (λ d w. (true, w))
        steps
        demo
        (some add)
        [] in
    Reported (map (event_of demo) steps) [] s.0 s.1
sequential_stub-Reported_example =
    sequential_stub-Reported (λ w. false) (λ d w. (true, w)) (λ w. w) add (λ d w. refl)
      (λ e w. refl) demo steps []
