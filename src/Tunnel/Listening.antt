-- ===== src/Tunnel/Listening.antt =====
-- `RunListener` of tunnel/tunnel.go, by the results of the calls of `Accept`.
pub mod Serves
use cli.Base.{String, ◌≡◌, Bool, true, false, Option, none, some, List, [], ◌∷◌, ◌++◌}

-- One turn of an accept loop: what `Accept` returns, what the context says then, and how the wait
-- ends that follows a timeout.
pub data Accepted : Type 0 where
  -- A connection, by the address of its peer.
  accepted : String → Accepted
  -- An error, and the context is done.
  cancelled : Accepted
  -- A timeout: the wait of the backoff ends, or the context is done before.
  waited cancelled_waiting : Accepted
  -- Any other error, by its text.
  failed : String → Accepted

-- How the loop goes on: `returned` with the error, if any.
pub data Progress : Type 0 where
  running : Progress
  returned : Option String → Progress

-- The connections that are served, each by a goroutine of its own.
pub record Loop : Type 0 where
  pub served : List String
  pub progress : Progress

abbrev pub finish : Loop → Option String → Loop
finish s e = record s { progress = returned e }

-- The error of a done context is `context.Canceled`.
unfoldable pub turn : Accepted → Loop → Loop
turn (accepted peer) s = record s { served = s.served ++ peer ∷ [] }
turn cancelled s = finish s none
turn waited s = s
turn cancelled_waiting s = finish s (some "context canceled")
turn (failed e) s = finish s (some e)

abbrev of_turn : (Loop → Loop) → Loop → Progress → Loop
of_turn rest s running = rest s
of_turn rest s (returned e) = s

-- The loop over the results of the calls.
unfoldable pub turns : List Accepted → Loop → Loop
unfolding turn
turns [] s = s
turns (a ∷ rest) s = of_turn (turns rest) (turn a s) (turn a s).progress

abbrev pub no_listener : String → Loop
no_listener e = record { served = []; progress = returned (some e) }

-- `net.Listen` first: its error, if any, is returned.
unfoldable pub run_listener : Option String → List Accepted → Loop
unfolding turns
run_listener (some e) results = no_listener e
run_listener none results = turns results (record { served = []; progress = running })
