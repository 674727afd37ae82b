-- ===== src/Api/Events/Leaving.antt =====
-- A subscriber of the broadcaster of api/events.go leaves.
use cli.Base.{
  String, ◌≡◌, refl, subst, ◌&&◌, none, some, List, [], ◌∷◌, ◌==◌, if◌then◌else◌, arith, eq_iff,
  Bool-cases, Option-cases, inl, inr,
}
use cli.Base.Maps.{Unique, delete-Unique, Map, lookup, delete, lookup-insert, lookup-delete}
use cli.Base.Lists.{In}
use cli.Api.Events.{Subscriber, Events, close_channel, unsubscribe, unsubscribe_all, member}
use cli.Api.Events.Closing.{Safe, close_channel-fine, is_closed-close_channel}

member-unsubscribe :
    (s : Subscriber) (e : Events) (id u : String)
    → member id u (unsubscribe s e)
      ≡ (if s.conn_id == id && s.uuid == u then none else member id u e)
unfolding unsubscribe
member-unsubscribe s e id u = elim (Option-cases (lookup s.conn_id e.by_id)) [
  | inl absent ↦ ground (arith, absent, eq_iff s.conn_id id)
  | inr (m, there) ↦ ground (
    arith,
    there,
    eq_iff s.conn_id id,
    lookup-insert s.conn_id id (delete s.uuid m) e.by_id,
    lookup-delete s.uuid u m,
  )
]

-- Wherever the uuid of the subscriber is filed, it is under the subscriber's own connection.
abbrev pub Own : Subscriber → Events → Type 0
Own s e = (id : String) (t : Subscriber) → member id s.uuid e ≡ some t → id ≡ s.conn_id

log-unsubscribe : (s : Subscriber) (e : Events) → (unsubscribe s e).log ≡ close_channel s.uuid e.log
unfolding unsubscribe
log-unsubscribe s e = refl

Unique-unsubscribe :
    (s : Subscriber) (e : Events)
    → Safe e
    → (id : String) (m : Map Subscriber) → lookup id (unsubscribe s e).by_id ≡ some m
    → Unique m
unfolding unsubscribe
Unique-unsubscribe s e h id m there = elim (Option-cases (lookup s.conn_id e.by_id)) [
  | inl absent ↦ h.unique id m (ground (arith, absent, there))
  | inr (n, held) ↦ elim (Bool-cases (s.conn_id == id)) [
    | inr other ↦
        h.unique id m
          (ground (arith, held, there, other, lookup-insert s.conn_id id (delete s.uuid n) e.by_id))
    | inl same ↦
        let is : delete s.uuid n ≡ m =
          ground (arith, held, there, same, lookup-insert s.conn_id id (delete s.uuid n) e.by_id) in
        subst Unique is (delete-Unique s.uuid n (h.unique s.conn_id n held))
  ]
]

pub unsubscribe-Safe : (s : Subscriber) (e : Events) → Own s e → Safe e → Safe (unsubscribe s e)
unsubscribe-Safe s e own h = record {
  fine_log = rw (log-unsubscribe s e) (close_channel-fine s.uuid e.log h.fine_log);
  filed = λ id u t there. ground (
    arith,
    there,
    member-unsubscribe s e id u,
    h.filed id u t,
    own id t,
    eq_iff s.conn_id id,
    eq_iff s.uuid u,
    log-unsubscribe s e,
    is_closed-close_channel s.uuid u e.log,
  );
  apart = λ id j u t v there more. ground (
    arith,
    there,
    more,
    member-unsubscribe s e id u,
    member-unsubscribe s e j u,
    h.apart id j u t v,
  );
  unique = Unique-unsubscribe s e h;
}

pub unsubscribe_all-Safe :
    (cleanup : List Subscriber) (e : Events)
    → ((s : Subscriber) → In s cleanup → Own s e)
    → Safe e
    → Safe (unsubscribe_all cleanup e)
unfolding unsubscribe_all
unsubscribe_all-Safe [] e own h = h
unsubscribe_all-Safe (s ∷ cleanup) e own h =
    unsubscribe_all-Safe cleanup (unsubscribe s e)
      (λ t i id v there.
        own t (inr i) id v (ground (arith, member-unsubscribe s e id t.uuid, there)))
      (unsubscribe-Safe s e (own s (inl refl)) h)
