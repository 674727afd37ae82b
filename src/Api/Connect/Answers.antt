-- ===== src/Api/Connect/Answers.antt =====
-- What the handler `Update` of api/listener_server.go answers, and what a failed connect leaves.
use cli.Base.{
  ℕ, ◌≤◌, ◌<◌, String, ◌≡◌, refl, Bool, true, false, ◌||◌, Option, none, some, List, [], ◌∷◌,
  is_some, arith, ap, sym, subst, ◌∙◌, Bool-cases, Option-cases, inl, inr,
}
use cli.Base.Lists.{contains}
use cli.Base.Maps.{Map, lookup, insert, lookup-insert, lookup-nil}
use cli.Proto.Records.{Record, ListenerStatus, ListenerUpdateRequest}
use cli.Api.Config.{Config}
use cli.Api.Listener.{Listeners}
use cli.Api.Listener.Live.{AreLive, times, times-snoc}
use cli.Api.Connect.{
  Network, Settings, Server, connect_tunnel, connect_one, connect_loop, disconnect_one,
  disconnect_loop, update,
}
use cli.Api.Connect.Step.{listens, Step, connect_one-Step}

-- The answers after an answer for `id`.
answers-insert :
    (id j : String) (ids : List String) (status : ListenerStatus) (answers : Map ListenerStatus)
    (b : Bool)
    → b ≡ contains j ids || is_some (lookup j (insert id status answers))
    → b ≡ contains j (id ∷ ids) || is_some (lookup j answers)
unfolding contains
answers-insert id j ids status answers b e = ground (arith, e, lookup-insert id j status answers)

disconnect_loop-answers :
    (ids : List String) (answers : Map ListenerStatus) (l : Listeners) (j : String)
    → is_some (lookup j (disconnect_loop ids answers l).1)
      ≡ contains j ids || is_some (lookup j answers)
unfolding disconnect_loop contains
disconnect_loop-answers [] answers l j = refl
disconnect_loop-answers (id ∷ ids) answers l j =
    let (l', status) = disconnect_one id l in
    answers-insert id j ids status answers _
      (disconnect_loop-answers ids (insert id status answers) l' j)

-- Every stored record has a connection.
abbrev pub Connectable : Config → Type 0
Connectable c = (id : String) (r : Record) → lookup id c.by_id ≡ some r → is_some r.conn ≡ true

module _ {W : Type 0} where
  -- The answers of a loop that did not panic.
  abbrev answered_by :
      Map ListenerStatus → Option (Server W × Map ListenerStatus) → Map ListenerStatus
  answered_by m none = m
  answered_by m (some (t, n)) = n

  Step-config :
      (id : String) (s : Server W) (p : Server W × ListenerStatus)
      → Step id s p
      → p.0.config ≡ s.config
  Step-config id s _ (Step.already busy) = refl
  Step-config id s _ (Step.refused idle message) = refl
  Step-config id s _ (Step.gave_up idle u message w) = refl
  Step-config id s _ (Step.tracked idle no_udp tun addr w fine) = refl
  Step-config id s _ (Step.untracked idle for_udp tun addr w) = refl

  module _ (net : Network W) (x : Settings) where
    connect_loop-answers :
        (ids : List String) (answers : Map ListenerStatus) (s : Server W)
        (p : Server W × Map ListenerStatus) (j : String)
        → connect_loop net x ids answers s ≡ some p
        → is_some (lookup j p.1) ≡ contains j ids || is_some (lookup j answers)
    unfolding connect_loop contains
    connect_loop-answers [] answers s p j e =
        ap (λ (o : Option (Server W × Map ListenerStatus)). is_some (lookup j (answered_by p.1 o)))
          (sym e)
    connect_loop-answers (id ∷ ids) answers s p j e = elim (Option-cases (connect_one net x id s)) [
      | inl panicked ↦ absurd (ground (arith, panicked, e))
      | inr ((t, status), went) ↦
          answers-insert id j ids status answers _
            (connect_loop-answers ids (insert id status answers) t p j (ground (arith, went, e)))
    ]

    -- When `Update` does not panic, it answers for exactly the ids of the request.
    pub update-answers :
        (req : ListenerUpdateRequest) (s t : Server W) (answers : Map ListenerStatus) (j : String)
        → update net x req s ≡ some (t, answers)
        → is_some (lookup j answers) ≡ contains j req.connection_ids
    unfolding update
    update-answers req s t answers j e = elim (Bool-cases req.connected) [
      | inl on ↦ ground (
        arith,
        connect_loop-answers req.connection_ids [] s (t, answers) j (ground (arith, on, e)),
        lookup-nil {V = ListenerStatus} j,
      )
      | inr off ↦ ground (
        arith,
        ap (λ (o : Option (Server W × Map ListenerStatus)). lookup j (answered_by [] o)) e,
        off,
        disconnect_loop-answers req.connection_ids [] s.listeners j,
        lookup-nil {V = ListenerStatus} j,
      )
    ]

    connect_one-total :
        (id : String) (s : Server W)
        → Connectable s.config
        → (p : Server W × ListenerStatus) × (connect_one net x id s ≡ some p)
    unfolding connect_one connect_tunnel
    connect_one-total id s h = elim (Option-cases (connect_one net x id s)) [
      | inr done ↦ done
      | inl panicked ↦ elim (Option-cases (lookup id s.config.by_id)) [
        | inl gone ↦ absurd (ground (arith, gone, panicked))
        | inr (r, there) ↦ elim (Option-cases r.conn) [
          | inl no_conn ↦ absurd (ground (arith, h id r there, no_conn))
          | inr (c, some_conn) ↦ absurd (ground (arith, there, some_conn, panicked))
        ]
      ]
    ]

    connect_loop-total :
        (ids : List String) (answers : Map ListenerStatus) (s : Server W)
        → Connectable s.config
        → (p : Server W × Map ListenerStatus) × (connect_loop net x ids answers s ≡ some p)
          × (p.0.config ≡ s.config)
    unfolding connect_loop
    connect_loop-total [] answers s h = ((s, answers), refl, refl)
    connect_loop-total (id ∷ ids) answers s h =
        let ((t, status), went) = connect_one-total id s h in
        let kept : t.config ≡ s.config =
          Step-config id s (t, status) (connect_one-Step id s net x (t, status) went) in
        let (p, done, same) =
          connect_loop-total ids (insert id status answers) t (subst Connectable (sym kept) h) in
        (p, ground (arith, went, done), same ∙ kept)

    -- When every stored record has a connection, `Update` does not panic, whatever ids are asked for,
    -- and leaves the configuration as it is.
    pub update-total :
        (req : ListenerUpdateRequest) (s : Server W)
        → Connectable s.config
        → (t : Server W) × (answers : Map ListenerStatus) × (update net x req s ≡ some (t, answers))
          × (t.config ≡ s.config)
    unfolding update
    update-total req s h = elim (Bool-cases req.connected) [
      | inl on ↦
          let ((t, answers), done, same) = connect_loop-total req.connection_ids [] s h in
          (t, answers, ground (arith, on, done), same)
      | inr off ↦
          let (l, given) = disconnect_loop req.connection_ids [] s.listeners in
          (record s { listeners = l }, given, ground (arith, off), refl)
    ]

  Step-failed :
      (id : String) (s : Server W) (p : Server W × ListenerStatus)
      → Step id s p
      → AreLive s.next s.listeners
      → listens id s ≡ false
      → is_some p.1.last_error ≡ true
      → (p.0.listeners.entries ≡ s.listeners.entries)
        × (p.0.tasks ≡ s.tasks)
        × ((n : ℕ) → s.next ≤ n → n < p.0.next → times n p.0.listeners.cancelled ≡ 1)
  Step-failed id s _ (Step.already busy) h idle bad = absurd (ground (arith, busy, idle))
  Step-failed id s _ (Step.refused idle' message) h idle bad =
      (refl, refl, λ n a b. absurd (omega (arith, a, b)))
  Step-failed id s _ (Step.gave_up idle' u message w) h idle bad = (
    refl,
    refl,
    λ n a b. ground (arith, a, b, h.made n a, times-snoc n s.next s.listeners.cancelled),
  )
  Step-failed id s _ (Step.tracked idle' no_udp tun addr w fine) h idle bad =
      absurd (ground (arith, bad))
  Step-failed id s _ (Step.untracked idle' for_udp tun addr w) h idle bad =
      absurd (ground (arith, bad))

  -- Over live contexts: a connect of an id that is not listening, and that is answered by an error,
  -- leaves the table of listeners and starts no goroutine, and every context that it made is
  -- cancelled, once.
  pub connect_one-failed :
      (net : Network W) (x : Settings) (id : String) (s t : Server W) (status : ListenerStatus)
      → connect_one net x id s ≡ some (t, status)
      → AreLive s.next s.listeners
      → listens id s ≡ false
      → is_some status.last_error ≡ true
      → (t.listeners.entries ≡ s.listeners.entries)
        × (t.tasks ≡ s.tasks)
        × ((n : ℕ) → s.next ≤ n → n < t.next → times n t.listeners.cancelled ≡ 1)
  connect_one-failed net x id s t status e h idle bad =
      Step-failed id s (t, status) (connect_one-Step id s net x (t, status) e) h idle bad
