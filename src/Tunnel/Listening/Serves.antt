-- ===== src/Tunnel/Listening/Serves.antt =====
-- What the accept loop serves and returns, against the list of results alone.
use cli.Base.{String, ◌≡◌, ap, ◌∙◌, sym, none, some, List, [], ◌∷◌, ◌++◌}
use cli.Base.Lists.{append_assoc, append_nil}
use cli.Tunnel.Listening.{
  Accepted, accepted, cancelled, waited, cancelled_waiting, failed, Progress, running, returned,
  Loop, turn, turns, run_listener,
}

-- The peers before the first result that ends the loop.
unfoldable pub peers : List Accepted → List String
peers [] = []
peers (accepted peer ∷ rest) = peer ∷ peers rest
peers (waited ∷ rest) = peers rest
peers (cancelled ∷ rest) = []
peers (cancelled_waiting ∷ rest) = []
peers (failed e ∷ rest) = []

-- How the first result that ends the loop ends it.
unfoldable pub ending : List Accepted → Progress
ending [] = running
ending (accepted peer ∷ rest) = ending rest
ending (waited ∷ rest) = ending rest
ending (cancelled ∷ rest) = returned none
ending (cancelled_waiting ∷ rest) = returned (some "context canceled")
ending (failed e ∷ rest) = returned (some e)

abbrev outcome : List String → List Accepted → Loop
outcome before results = record { served = before ++ peers results; progress = ending results }

abbrev ended : List String → Progress → Loop
ended before p = record { served = before; progress = p }

turns-outcome :
    (results : List Accepted) (before : List String)
    → turns results (ended before running) ≡ outcome before results
unfolding turns turn peers ending
turns-outcome [] before = ap (λ l. ended l running) (sym (append_nil before))
turns-outcome (accepted peer ∷ rest) before =
    turns-outcome rest (before ++ peer ∷ [])
    ∙ ap (λ l. ended l (ending rest)) (append_assoc before peer (peers rest))
turns-outcome (waited ∷ rest) before = turns-outcome rest before
turns-outcome (cancelled ∷ rest) before =
    ap (λ l. ended l (returned none)) (sym (append_nil before))
turns-outcome (cancelled_waiting ∷ rest) before =
    ap (λ l. ended l (returned (some "context canceled"))) (sym (append_nil before))
turns-outcome (failed e ∷ rest) before =
    ap (λ l. ended l (returned (some e))) (sym (append_nil before))

-- When it can listen, `RunListener` serves exactly the connections that are accepted before the
-- first result that ends it, in order, and returns as that result says: no error for an error of a
-- cancelled context, the context's error when it is cancelled in a wait, and any other error as it is.
pub run_listener-serves :
    (results : List Accepted)
    → run_listener none results ≡ record { served = peers results; progress = ending results }
unfolding run_listener
run_listener-serves results = turns-outcome results []
