-- ===== src/Api/Events/Broadcast.antt =====
-- The channels of api/events.go in a broadcast.
use cli.Base.{
  String, ◌≡◌, refl, sym, subst, ◌∙◌, ap, true, false, Option, some, List, [], ◌∷◌, ◌++◌, arith,
  Option-cases, inl, inr, ◌⊎◌,
}
use cli.Base.Maps.{values, Map, lookup}
use cli.Base.Maps.Values.{values-lookup}
use cli.Base.Lists.{In, In-append}
use cli.Proto.Records.{ConnectionStatusUpdate}
use cli.Api.Events.{
  Subscriber, Action, send, Events, Outcome, is_closed, map_or_new, send_all, update, member,
}
use cli.Api.Events.Closing.{fine, by_outcome-each, Safe}
use cli.Api.Events.Leaving.{unsubscribe_all-Safe}

-- The sends close nothing.
is_closed-send_all :
    (evt : ConnectionStatusUpdate) (outcome : String → Outcome) (m : Map Subscriber)
    (cleanup : List Subscriber) (log : List Action) (v : String)
    → is_closed v (send_all evt outcome m cleanup log).0 ≡ is_closed v log
unfolding send_all is_closed
is_closed-send_all evt outcome [] cleanup log v = refl
is_closed-send_all evt outcome ((u, s) ∷ m) cleanup log v =
    by_outcome-each (λ (r : List Action × List Subscriber). is_closed v r.0 ≡ is_closed v log)
      (outcome s.uuid) _ _ _ (is_closed-send_all evt outcome m cleanup (send s.uuid evt ∷ log) v)
      (is_closed-send_all evt outcome m (cleanup ++ s ∷ []) log v) refl

send_all-fine :
    (evt : ConnectionStatusUpdate) (outcome : String → Outcome) (m : Map Subscriber)
    (cleanup : List Subscriber) (log : List Action)
    → ((s : Subscriber) → In s (values m) → is_closed s.uuid log ≡ false)
    → fine log ≡ true
    → fine (send_all evt outcome m cleanup log).0 ≡ true
unfolding send_all values
send_all-fine evt outcome [] cleanup log unclosed h = h
send_all-fine evt outcome ((u, s) ∷ m) cleanup log unclosed h =
    by_outcome-each (λ (r : List Action × List Subscriber). fine r.0 ≡ true) (outcome s.uuid) _ _ _
      (send_all-fine evt outcome m cleanup (send s.uuid evt ∷ log)
        (λ t i. unfold is_closed in unclosed t (inr i))
        (unfold fine in ground (arith, h, unclosed s (inl refl))))
      (send_all-fine evt outcome m (cleanup ++ s ∷ []) log (λ t i. unclosed t (inr i)) h) h

-- Only subscribers of the event's connection are cleaned up.
send_all-cleanup :
    (evt : ConnectionStatusUpdate) (outcome : String → Outcome) (m : Map Subscriber)
    (cleanup : List Subscriber) (log : List Action) (t : Subscriber)
    → In t (send_all evt outcome m cleanup log).1
    → In t cleanup ⊎ In t (values m)
unfolding send_all values
send_all-cleanup evt outcome [] cleanup log t = inl
send_all-cleanup evt outcome ((u, s) ∷ m) cleanup log t =
    by_outcome-each
      (λ (r : List Action × List Subscriber). In t r.1 → In t cleanup ⊎ ((s ≡ t) ⊎ In t (values m)))
      (outcome s.uuid) _ _ _
      (λ i. ground (arith, send_all-cleanup evt outcome m cleanup (send s.uuid evt ∷ log) t i))
      (λ i. ground (
        arith,
        send_all-cleanup evt outcome m (cleanup ++ s ∷ []) log t i,
        In-append t cleanup (s ∷ []),
      ))
      (λ i. absurd i)

member-values :
    (e : Events) (id : String) (s : Subscriber)
    → Safe e
    → In s (values (map_or_new (lookup id e.by_id)))
    → member id s.uuid e ≡ some s
unfolding values
member-values e id s h i = elim (Option-cases (lookup id e.by_id)) [
  | inl absent ↦
      absurd (subst (λ (o : Option (Map Subscriber)). In s (values (map_or_new o))) absent i)
  | inr (m, there) ↦
      let held : In s (values m) =
        subst (λ (o : Option (Map Subscriber)). In s (values (map_or_new o))) there i in
      let (u, at) = (values-lookup m s (h.unique id m there)).0 held in
      let filed : member id u e ≡ some s = ground (arith, there, at) in
      ap (λ w. member id w e) (h.filed id u s filed).0 ∙ filed
]

-- A broadcast.
pub update-Safe :
    (evt : ConnectionStatusUpdate) (outcome : String → Outcome) (e : Events)
    → Safe e
    → Safe (update evt outcome e)
unfolding update
update-Safe evt outcome e h =
    let m = map_or_new (lookup evt.id e.by_id) in
    let r = send_all evt outcome m [] e.log in
    let sent : Safe (record e { log = r.0 }) = record {
      fine_log =
          send_all-fine evt outcome m [] e.log
            (λ s i. (h.filed evt.id s.uuid s (member-values e evt.id s h i)).2) h.fine_log;
      filed = λ id u s there.
          let (a, b, c) = h.filed id u s there in
          (a, b, is_closed-send_all evt outcome m [] e.log u ∙ c);
      apart = h.apart;
      unique = h.unique;
    } in
    unsubscribe_all-Safe r.1 (record e { log = r.0 })
      (λ s i id t there. elim (send_all-cleanup evt outcome m [] e.log s i) [
        | inl none_yet ↦ absurd none_yet
        | inr held ↦
            let at = member-values e evt.id s h held in
            h.apart id evt.id s.uuid t s there at ∙ sym (h.filed evt.id s.uuid s at).1
      ])
      sent
