-- ===== src/GraphQl/WebSocket/Session.antt =====
-- wsHandler.go, lines 56-295: the two goroutines of a WebSocket session and the channels by which
-- each learns of the other's end. A turn lets one goroutine go on to its next wait: from its select
-- into a read, or from its read, with or without an error, on; a read that has not returned leaves
-- all as it is. The connections are closed only after both goroutines have returned, so the end of
-- one does not end a read of the other. Closing a closed channel panics.
pub mod Ending
use api_firewall.Base.{Bool, true, false, List, [], ◌∷◌, if◌then◌else◌}

pub data Pc : Type 0 where
  selecting : Pc
  transferring : Pc
  finished : Pc

pub record Session : Type 0 where
  pub client : Pc
  pub backend : Pc
  pub err_client : Bool  -- whether the channel is closed
  pub err_backend : Bool
  pub panicked : Bool

-- How the reading and the writing of a message goes; `waits` is a read that has not returned yet.
pub data Transfer : Type 0 where
  succeeds fails waits : Transfer

pub data Turn : Type 0 where
  client_turn : Transfer → Turn
  backend_turn : Transfer → Turn

abbrev pub start : Session
start = record {
  client = selecting;
  backend = selecting;
  err_client = false;
  err_backend = false;
  panicked = false;
}

close_client : Session → Session
close_client s =
    if s.err_client
    then record s { panicked = true }
    else record s { err_client = true; client = finished }

close_backend : Session → Session
close_backend s =
    if s.err_backend
    then record s { panicked = true }
    else record s { err_backend = true; backend = finished }

step_client : Pc → Transfer → Session → Session
unfolding close_client
step_client selecting t s =
    if s.err_backend then close_client s else record s { client = transferring }
step_client transferring succeeds s = record s { client = selecting }
step_client transferring fails s = close_client s
step_client transferring waits s = s
step_client finished t s = s

step_backend : Pc → Transfer → Session → Session
unfolding close_backend
step_backend selecting t s =
    if s.err_client then close_backend s else record s { backend = transferring }
step_backend transferring succeeds s = record s { backend = selecting }
step_backend transferring fails s = close_backend s
step_backend transferring waits s = s
step_backend finished t s = s

unfoldable pub step : Session → Turn → Session
unfolding step_client step_backend
step s (client_turn t) = step_client s.client t s
step s (backend_turn t) = step_backend s.backend t s

-- The session under a schedule.
unfoldable pub run : List Turn → Session → Session
unfolding step
run [] s = s
run (t ∷ ts) s = run ts (step s t)
