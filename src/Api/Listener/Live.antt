-- ===== src/Api/Listener/Live.antt =====
-- The contexts of the listeners of api/listener.go: which are live, and which were cancelled.
use cli.Base.{
  ℕ, suc, ◌≤◌, ◌<◌, ◌≡◌, refl, String, none, some, List, [], ◌∷◌, ◌++◌, is_some, if◌then◌else◌,
  nat_eq, arith, eq_iff, Bool-cases, Option-cases, inl, inr,
}
use cli.Base.Maps.{lookup, lookup-insert, lookup-delete}
use cli.Api.Listener.{
  Entry, Listeners, cancel_context, listening_at, set_listening, set_not_listening,
}

-- How often a context was cancelled.
abbrev pub times : ℕ → List ℕ → ℕ
times n [] = 0
times n (m ∷ ms) = if nat_eq n m then suc (times n ms) else times n ms

pub times-snoc :
    (n m : ℕ) (ms : List ℕ)
    → times n (ms ++ m ∷ []) ≡ (if nat_eq n m then suc (times n ms) else times n ms)
times-snoc n m [] = refl
times-snoc n m (k ∷ ms) = ground (arith, times-snoc n m ms)

-- Over the contexts made so far, those below `next`: every entry holds a context of its own, which
-- was not cancelled, and no context was cancelled twice.
pub record AreLive (next : ℕ) (l : Listeners) : Type 0 where
  pub live :
      (id : String) (e : Entry) (n : ℕ)
      → lookup id l.entries ≡ some e
      → e.cancel ≡ some n
      → (n < next) × (times n l.cancelled ≡ 0)
  pub apart :
      (id j : String) (e f : Entry) (n : ℕ)
      → lookup id l.entries ≡ some e
      → lookup j l.entries ≡ some f
      → e.cancel ≡ some n
      → f.cancel ≡ some n
      → id ≡ j
  pub made : (n : ℕ) → next ≤ n → times n l.cancelled ≡ 0
  pub once : (n : ℕ) → times n l.cancelled ≤ 1

pub no_listeners-AreLive : AreLive 0 (record { entries = []; cancelled = [] })
unfolding lookup
no_listeners-AreLive = record {
  live = λ id e n there c. absurd (ground (arith, there));
  apart = λ id j e f n there more c d. absurd (ground (arith, there));
  made = λ n h. refl;
  once = λ n. omega arith;
}

-- A context that is made and cancelled before it is stored.
pub cancel_context-AreLive :
    (next : ℕ) (l : Listeners) → AreLive next l → AreLive (suc next) (cancel_context next l)
cancel_context-AreLive next l h = record {
  live = λ id e n there c. ground (arith, h.live id e n there c, times-snoc n next l.cancelled);
  apart = h.apart;
  made = λ n k. ground (arith, h.made n (omega (arith, k)), times-snoc n next l.cancelled);
  once = λ n. ground (arith, h.once n, h.made next (omega arith), times-snoc n next l.cancelled);
}

-- A listener that starts with a context of its own.
pub set_listening-AreLive :
    (id addr : String) (next : ℕ) (l : Listeners)
    → AreLive next l
    → (set_listening id next addr l).1 ≡ none
    → AreLive (suc next) (set_listening id next addr l).0
unfolding set_listening
set_listening-AreLive id addr next l h fine =
    let new : Entry = record { cancel = some next; status = listening_at addr } in
    elim (Bool-cases (is_some (lookup id l.entries))) [
      | inl there ↦ absurd (ground (arith, there, fine))
      | inr free ↦ rw free (record {
        live = λ j e n there c.
            ground (arith, h.live j e n, h.made next, c, there, lookup-insert id j new l.entries);
        apart = λ i j e f n there more c d. ground (
          arith,
          eq_iff id i,
          eq_iff id j,
          lookup-insert id i new l.entries,
          lookup-insert id j new l.entries,
          there,
          more,
          c,
          d,
          h.live i e n,
          h.live j f n,
          h.apart i j e f n,
        );
        made = λ n k. h.made n (omega (arith, k));
        once = h.once;
      })
    ]

-- A listener that is stopped: its context is cancelled, for the first time.
pub set_not_listening-AreLive :
    (id : String) (next : ℕ) (l : Listeners)
    → AreLive next l
    → AreLive next (set_not_listening id l).0
unfolding set_not_listening
set_not_listening-AreLive id next l h = elim (Option-cases (lookup id l.entries)) [
  | inl gone ↦ rw gone h
  | inr (e, there) ↦ elim (Bool-cases e.status.listening) [
    | inr idle ↦ rw there (rw idle h)
    | inl busy ↦ elim (Option-cases e.cancel) [
      | inl no_cancel ↦ rw there (rw busy (rw no_cancel h))
      | inr (n, c) ↦ rw there (
          rw busy (
            rw c (record {
              live = λ j f m more d. ground (
                arith,
                eq_iff id j,
                lookup-delete id j l.entries,
                more,
                h.live j f m,
                h.apart id j e f m there,
                c,
                d,
                times-snoc m n l.cancelled,
              );
              apart = λ i j f g m one two p q. ground (
                arith,
                lookup-delete id i l.entries,
                lookup-delete id j l.entries,
                one,
                two,
                h.apart i j f g m,
                p,
                q,
              );
              made = λ m k.
                  ground (arith, h.made m k, h.live id e n there c, times-snoc m n l.cancelled);
              once =
                  λ m. ground (arith, h.once m, h.live id e n there c, times-snoc m n l.cancelled);
            })))
    ]
  ]
]
