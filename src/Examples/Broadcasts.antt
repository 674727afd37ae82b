-- ===== src/Examples/Broadcasts.antt =====
-- An event before there is a subscriber, two subscribers, an event that one of them misses, and the
-- end of the broadcaster.
use cli.Base.{ℕ, String, ◌≡◌, refl, subst, true, none, [], ◌∷◌, ◌++◌, ◌==◌, is_some, if◌then◌else◌}
use cli.Base.Maps.{lookup, insert, delete}
use cli.Proto.Records.{ConnectionStatusUpdate, listening, connected, ConnectionStatus}
use cli.Api.Events.{
  Subscriber, send, close, Events, no_events, Outcome, delivered, gone, is_closed, close_channel,
  subscribe, unsubscribe, close_subscribers, close_all, shutdown, send_all, unsubscribe_all, update,
  record_event, send_history, done, updated, subscribed, turn, member, IsNew, Reach,
}
use cli.Api.Events.Closing.{Safe}
use cli.Api.Events.Safe.{Reach-Safe}
use cli.Api.Events.Delivery.{received, turn-received}

abbrev event : ConnectionStatus → ConnectionStatusUpdate
event s = record { id = "db"; peer_addr = none; status = s; last_error = none; auth_url = none }

abbrev sub : String → Subscriber
sub u = record { uuid = u; conn_id = "db" }

abbrev all_received : String → Outcome
all_received u = delivered

abbrev all_sent : ℕ → Outcome
all_sent n = delivered

-- The second subscriber does not receive in time.
abbrev only_first : String → Outcome
only_first u = if u == "1" then delivered else gone

abbrev first : Events
first = (turn (updated (event listening) all_received) no_events).0

abbrev second : Events
second = (turn (subscribed (sub "1") all_sent) first).0

abbrev third : Events
third = (turn (subscribed (sub "2") all_sent) second).0

abbrev fourth : Events
fourth = (turn (updated (event connected) only_first) third).0

abbrev last : Events
last = (turn done fourth).0

sub_1-IsNew : IsNew (sub "1") first
unfolding turn update record_event send_all unsubscribe_all is_closed lookup insert
sub_1-IsNew = record { unclosed = refl; absent = λ id. refl }

the_log :
    last.log
    ≡ close "1"
      ∷ close "2"
      ∷ send "1" (event connected)
      ∷ send "2" (event listening)
      ∷ send "1" (event listening)
      ∷ []
unfolding turn update record_event subscribe unsubscribe close_channel close_subscribers close_all
    shutdown send_history send_all unsubscribe_all is_closed lookup insert delete
the_log = refl

goes_on : (turn (subscribed (sub "1") all_sent) first).1 ≡ true
unfolding turn update record_event subscribe send_history lookup insert send_all unsubscribe_all
goes_on = refl

reach_first : Reach first true
unfolding turn
reach_first = Reach.next no_events (updated (event listening) all_received) Reach.start tt

reach_second : Reach second true
reach_second =
    subst (Reach second) goes_on
      (Reach.next first (subscribed (sub "1") all_sent) reach_first sub_1-IsNew)

Reach-Safe_example : Safe second
Reach-Safe_example = Reach-Safe reach_second

turn-received_example :
    received "1" (turn (updated (event connected) all_received) second).0.log ≡ (
      if is_some (member "db" "1" second)
      then received "1" second.log ++ event connected ∷ []
      else received "1" second.log)
turn-received_example =
    turn-received (event connected) all_received (λ u. refl) second "1" reach_second
