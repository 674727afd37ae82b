-- ===== src/Api/Events.antt =====
-- api/events.go: the broadcaster of connection events.
--
-- The goroutine `run` takes one input after the other. What happens at each of its inner `select`
-- statements is up to the others, and is an argument: the outcome of a send. What it does to the
-- channels of its subscribers is in `log`, the newest first. A uuid is a string.
pub mod Closing
pub mod Leaving
pub mod Broadcast
pub mod Safe
pub mod Delivery
use cli.Base.{
  ℕ, suc, String, ◌≡◌, Bool, true, false, not, ◌&&◌, ◌||◌, Option, none, some, List, [], ◌∷◌, ◌++◌,
  ◌==◌, bind, if◌then◌else◌,
}
use cli.Base.Maps.{Map, lookup, insert, delete}
use cli.Proto.Records.{ConnectionStatusUpdate}

pub record Subscriber : Type 0 where
  pub uuid : String
  pub conn_id : String

pub data Action : Type 0 where
  send : String → ConnectionStatusUpdate → Action
  close : String → Action

pub record Events : Type 0 where
  pub by_id : Map (Map Subscriber)
  pub history : Map (List ConnectionStatusUpdate)
  pub log : List Action

abbrev pub no_events : Events
no_events = record { by_id = []; history = []; log = [] }

-- `gone`: the subscriber's context is done, or an update was not received in time. `stopped`: the
-- context of the broadcaster is done.
pub data Outcome : Type 0 where
  delivered gone stopped : Outcome

-- The cases of a `select`.
abbrev pub by_outcome {ℓ} : {A : Type ℓ} → Outcome → A → A → A → A
by_outcome delivered a b c = a
by_outcome gone a b c = b
by_outcome stopped a b c = c

-- The channel of a subscriber is nil, since it was closed.
unfoldable pub is_closed : String → List Action → Bool
is_closed u [] = false
is_closed u (send v evt ∷ log) = is_closed u log
is_closed u (close v ∷ log) = v == u || is_closed u log

unfoldable pub close_channel : String → List Action → List Action
unfolding is_closed
close_channel u log = if is_closed u log then log else close u ∷ log

abbrev pub map_or_new : Option (Map Subscriber) → Map Subscriber
map_or_new none = []
map_or_new (some m) = m

unfoldable pub subscribe : Subscriber → Events → Events
subscribe s e = record e {
  by_id = insert s.conn_id (insert s.uuid s (map_or_new (lookup s.conn_id e.by_id))) e.by_id;
}

-- `delete(e.byID[sub.connID], sub.UUID)`
abbrev pub without :
    Subscriber → Map (Map Subscriber) → Option (Map Subscriber) → Map (Map Subscriber)
without s by_id none = by_id
without s by_id (some m) = insert s.conn_id (delete s.uuid m) by_id

unfoldable pub unsubscribe : Subscriber → Events → Events
unfolding close_channel
unsubscribe s e = record e {
  by_id = without s e.by_id (lookup s.conn_id e.by_id);
  log = close_channel s.uuid e.log;
}

unfoldable pub close_subscribers : Map Subscriber → List Action → List Action
close_subscribers [] log = log
close_subscribers ((u, s) ∷ m) log = close_subscribers m (close_channel s.uuid log)

unfoldable pub close_all : Map (Map Subscriber) → List Action → List Action
close_all [] log = log
close_all ((id, m) ∷ by_id) log = close_all by_id (close_subscribers m log)

unfoldable pub shutdown : Events → Events
unfolding close_all close_subscribers close_channel
shutdown e = record e { by_id = []; log = close_all e.by_id e.log }

-- The loop of `update` over the subscribers: the log, and the subscribers to clean up. When the
-- broadcaster is stopped, it returns before the clean-up.
unfoldable pub send_all :
    ConnectionStatusUpdate
    → (String → Outcome)
    → Map Subscriber
    → List Subscriber
    → List Action
    → List Action × List Subscriber
send_all evt outcome [] cleanup log = (log, cleanup)
send_all evt outcome ((u, s) ∷ m) cleanup log =
    let sent = send_all evt outcome m cleanup (send s.uuid evt ∷ log) in
    let dropped = send_all evt outcome m (cleanup ++ s ∷ []) log in
    by_outcome (outcome s.uuid) sent dropped (log, [])

unfoldable pub unsubscribe_all : List Subscriber → Events → Events
unfolding unsubscribe
unsubscribe_all [] e = e
unsubscribe_all (s ∷ cleanup) e = unsubscribe_all cleanup (unsubscribe s e)

abbrev pub after_sends : Events → List Action × List Subscriber → Events
after_sends e (log, cleanup) = unsubscribe_all cleanup (record e { log = log })

unfoldable pub update : ConnectionStatusUpdate → (String → Outcome) → Events → Events
unfolding send_all unsubscribe_all
update evt outcome e =
    after_sends e (send_all evt outcome (map_or_new (lookup evt.id e.by_id)) [] e.log)

abbrev pub events_of : Option (List ConnectionStatusUpdate) → List ConnectionStatusUpdate
events_of none = []
events_of (some evts) = evts

unfoldable pub record_event : ConnectionStatusUpdate → Events → Events
record_event evt e = record e {
  history = insert evt.id (events_of (lookup evt.id e.history) ++ evt ∷ []) e.history;
}

-- The loop that sends the history to a new subscriber; the flag says whether `run` goes on.
unfoldable pub send_history :
    Subscriber → (ℕ → Outcome) → ℕ → List ConnectionStatusUpdate → Events → Events × Bool
unfolding shutdown unsubscribe
send_history s outcome n [] e = (e, true)
send_history s outcome n (evt ∷ evts) e =
    let sent = send_history s outcome (suc n) evts (record e { log = send s.uuid evt ∷ e.log }) in
    by_outcome (outcome n) sent (unsubscribe s e, true) (shutdown e, false)

pub data Input : Type 0 where
  done : Input
  updated : ConnectionStatusUpdate → (String → Outcome) → Input
  reset : String → Input
  subscribed : Subscriber → (ℕ → Outcome) → Input

-- One turn of the loop of `run`.
unfoldable pub turn : Input → Events → Events × Bool
unfolding shutdown update record_event subscribe send_history
turn done e = (shutdown e, false)
turn (updated evt outcome) e = (update evt outcome (record_event evt e), true)
turn (reset id) e = (record e { history = delete id e.history }, true)
turn (subscribed s outcome) e =
    send_history s outcome 0 (events_of (lookup s.conn_id e.history)) (subscribe s e)

-- `e.byID[id][u]`
abbrev pub member : String → String → Events → Option Subscriber
member id u e = bind (lookup id e.by_id) (lookup u)

-- A subscriber that was made with a new uuid.
pub record IsNew (s : Subscriber) (e : Events) : Type 0 where
  pub unclosed : is_closed s.uuid e.log ≡ false
  pub absent : (id : String) → member id s.uuid e ≡ none

abbrev pub Admits : Input → Events → Type 0
Admits done e = Unit
Admits (updated evt outcome) e = Unit
Admits (reset id) e = Unit
Admits (subscribed s outcome) e = IsNew s e

-- The states that `run` goes through, and whether it still runs.
pub data Reach : Events → Bool → Type 0 where
  start : Reach no_events true
  next : (e : Events) (i : Input) → Reach e true → Admits i e → Reach (turn i e).0 (turn i e).1
