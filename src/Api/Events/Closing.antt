-- ===== src/Api/Events/Closing.antt =====
-- The channels of the broadcaster of api/events.go: what is safe to do with them, and the end of all.
use cli.Base.{
  String, ◌≡◌, Bool, true, false, not, ◌&&◌, ◌||◌, some, List, [], ◌∷◌, ◌==◌, arith, eq_iff,
}
use cli.Base.Maps.{Unique, Map, lookup, lookup-nil}
use cli.Api.Events.{
  by_outcome, Subscriber, Action, send, close, Events, Outcome, delivered, gone, stopped, is_closed,
  close_channel, close_subscribers, close_all, shutdown, member,
}

-- Every send and every close of the log is on a channel that was open then: in Go, anything else
-- panics.
unfoldable pub fine : List Action → Bool
unfolding is_closed
fine [] = true
fine (send u evt ∷ log) = not (is_closed u log) && fine log
fine (close u ∷ log) = not (is_closed u log) && fine log

pub by_outcome-each :
    {A : Type 0} (P : A → Type 0) (o : Outcome) (a b c : A)
    → P a
    → P b
    → P c
    → P (by_outcome o a b c)
by_outcome-each P delivered a b c p q r = p
by_outcome-each P gone a b c p q r = q
by_outcome-each P stopped a b c p q r = r

pub record Safe (e : Events) : Type 0 where
  pub fine_log : fine e.log ≡ true
  -- A subscriber is filed under its own names, and its channel is open.
  pub filed :
      (id u : String) (s : Subscriber)
      → member id u e ≡ some s
      → (s.uuid ≡ u) × (s.conn_id ≡ id) × (is_closed u e.log ≡ false)
  -- A uuid is filed under one connection.
  pub apart :
      (id j u : String) (s t : Subscriber) → member id u e ≡ some s → member j u e ≡ some t → id ≡ j
  pub unique : (id : String) (m : Map Subscriber) → lookup id e.by_id ≡ some m → Unique m

pub close_channel-fine :
    (u : String) (log : List Action) → fine log ≡ true → fine (close_channel u log) ≡ true
unfolding close_channel fine
close_channel-fine u log h = ground (arith, h)

pub is_closed-close_channel :
    (u v : String) (log : List Action)
    → is_closed v (close_channel u log) ≡ u == v || is_closed v log
unfolding close_channel is_closed
is_closed-close_channel u v log = ground (arith, eq_iff u v)

close_subscribers-fine :
    (m : Map Subscriber) (log : List Action)
    → fine log ≡ true
    → fine (close_subscribers m log) ≡ true
unfolding close_subscribers
close_subscribers-fine [] log h = h
close_subscribers-fine ((u, s) ∷ m) log h =
    close_subscribers-fine m (close_channel s.uuid log) (close_channel-fine s.uuid log h)

close_all-fine :
    (by_id : Map (Map Subscriber)) (log : List Action)
    → fine log ≡ true
    → fine (close_all by_id log) ≡ true
unfolding close_all
close_all-fine [] log h = h
close_all-fine ((id, m) ∷ by_id) log h =
    close_all-fine by_id (close_subscribers m log) (close_subscribers-fine m log h)

pub shutdown-Safe : (e : Events) → Safe e → Safe (shutdown e)
unfolding shutdown
shutdown-Safe e h = record {
  fine_log = close_all-fine e.by_id e.log h.fine_log;
  filed = λ id u s there. absurd (ground (arith, there, lookup-nil {V = Map Subscriber} id));
  apart =
      λ id j u s t there more. absurd (ground (arith, there, lookup-nil {V = Map Subscriber} id));
  unique = λ id m there. absurd (ground (arith, there, lookup-nil {V = Map Subscriber} id));
}
