-- ===== src/Api/Connect/Step.antt =====
-- What one turn of `connectLocked` may do, as a step relation.
use cli.Base.{
  suc, String, ◌≡◌, refl, ap, subst, Bool, true, false, Option, none, some, [], ◌∷◌, ◌++◌, arith,
  Bool-cases, inl, inr,
}
use cli.Base.Maps.{lookup}
use cli.Base.Results.{Result, ok, err}
use cli.Proto.Records.{Connection, Record, ListenerStatus}
use cli.Tunnel.Config.{TunnelConfig}
use cli.Api.Errors.{ConfigError, text}
use cli.Api.Tunnels.{TunnelError}
use cli.Api.Listener.{Listeners, listening_at, set_listening, get_listener_status}
use cli.Api.Connect.{
  Network, Settings, accept_loop, udp_sessions, Server, failed_status, is_udp, give_up, of_set,
  of_listen, of_listen_udp, of_resolve, of_tunnel, of_conn, of_record, connect_tcp_tunnel,
  connect_udp_tunnel, connect_tunnel, answer, answered, connect_one,
}

-- The protocol of a stored record is UDP.
abbrev pub udp_conn : Option Connection → Bool
udp_conn none = false
udp_conn (some c) = is_udp c.protocol

abbrev pub udp_record : Option Record → Bool
udp_record none = false
udp_record (some r) = udp_conn r.conn

some_inj {ℓ} : {A : Type ℓ} {a b : A} → some a ≡ some b → a ≡ b
some_inj {A} {a} e = ap (or_else a) e
  where
    or_else : A → Option A → A
    or_else a none = a
    or_else a (some b) = b

module _ {W : Type 0} (id : String) (s : Server W) where
  abbrev pub udp_stored : Bool
  udp_stored = udp_record (lookup id s.config.by_id)

  abbrev pub listens : Bool
  listens = (get_listener_status id s.listeners).listening

  pub data Step : Server W × ListenerStatus → Type 0 where
    already : listens ≡ true → Step (s, get_listener_status id s.listeners)
    refused : listens ≡ false → (message : String) → Step (s, failed_status message)
    gave_up :
        listens ≡ false
        → (update message : String) (w : W)
        → Step (
          give_up id s.next update (record s { next = suc s.next; world = w }),
          failed_status message,
        )
    tracked :
        listens ≡ false
        → udp_stored ≡ false
        → (tun : TunnelConfig) (addr : String) (w : W)
        → (set_listening id s.next addr s.listeners).1 ≡ none
        → Step (
          record s {
            listeners = (set_listening id s.next addr s.listeners).0;
            next = suc s.next;
            tasks = s.tasks ++ accept_loop id s.next tun addr ∷ [];
            world = w;
          },
          listening_at addr,
        )
    untracked :
        listens ≡ false
        → udp_stored ≡ true
        → (tun : TunnelConfig) (addr : String) (w : W)
        → Step (
          record s {
            next = suc s.next;
            tasks = s.tasks ++ udp_sessions id s.next tun addr ∷ [];
            world = w;
          },
          listening_at addr,
        )

  abbrev pack : Server W × Result String String → Server W × ListenerStatus
  pack (t, r) = (t, answer r)

  abbrev made : W → Server W
  made w = record s { next = suc s.next; world = w }

  module _ (net : Network W) (x : Settings) (idle : listens ≡ false) where
    of_set-Step :
        udp_stored ≡ false
        → (tun : TunnelConfig) (addr : String) (w : W) (r : Listeners × Option ConfigError)
        → set_listening id s.next addr s.listeners ≡ r
        → Step (pack (of_set id tun s.next addr (made w) r))
    of_set-Step no_udp tun addr w (l, some e) h = Step.gave_up idle _ (text e) w
    of_set-Step no_udp tun addr w (l, none) h =
        subst
          (λ m. Step (
            record s {
              listeners = m;
              next = suc s.next;
              tasks = s.tasks ++ accept_loop id s.next tun addr ∷ [];
              world = w;
            },
            listening_at addr,
          ))
          (ap (λ p. p.0) h) (Step.tracked idle no_udp tun addr w (ap (λ p. p.1) h))

    of_listen-Step :
        udp_stored ≡ false
        → (tun : TunnelConfig) (v : W) (r : W × Result String String)
        → Step (pack (of_listen id tun s.next (made v) r))
    of_listen-Step no_udp tun v (w, err e) = Step.gave_up idle _ e w
    of_listen-Step no_udp tun v (w, ok addr) = of_set-Step no_udp tun addr w _ refl

    of_listen_udp-Step :
        udp_stored ≡ true
        → (tun : TunnelConfig) (addr : String) (v : W) (r : W × Option String)
        → Step (pack (of_listen_udp id tun s.next addr (made v) r))
    of_listen_udp-Step for_udp tun addr v (w, some e) = Step.gave_up idle _ e w
    of_listen_udp-Step for_udp tun addr v (w, none) = Step.untracked idle for_udp tun addr w

    of_resolve-Step :
        udp_stored ≡ true
        → (tun : TunnelConfig) (v : W) (r : W × Result String String)
        → Step (pack (of_resolve net id tun s.next (made v) r))
    of_resolve-Step for_udp tun v (w, err e) = Step.gave_up idle _ e w
    of_resolve-Step for_udp tun v (w, ok addr) =
        of_listen_udp-Step for_udp tun addr w (net.listen_udp addr w)

    of_tunnel-Step :
        (for_udp : Bool) (r : Result TunnelError (TunnelConfig × String))
        → udp_stored ≡ for_udp
        → Step (pack (of_tunnel net x id for_udp s r))
    unfolding connect_tcp_tunnel connect_udp_tunnel
    of_tunnel-Step for_udp (err e) h = Step.refused idle _
    of_tunnel-Step true (ok (tun, addr)) h =
        of_resolve-Step h tun s.world (net.resolve_udp_addr addr s.world)
    of_tunnel-Step false (ok (tun, addr)) h = of_listen-Step h tun s.world (net.listen addr s.world)

    of_conn-Step :
        (c : Option Connection) (p : Server W × ListenerStatus)
        → udp_stored ≡ udp_conn c
        → answered (of_conn net x id s c) ≡ some p
        → Step p
    of_conn-Step none p h e = absurd (ground (arith, e))
    of_conn-Step (some c) p h e = subst Step (some_inj e) (of_tunnel-Step (is_udp c.protocol) _ h)

    of_record-Step :
        (r : Option Record) (p : Server W × ListenerStatus)
        → lookup id s.config.by_id ≡ r
        → answered (of_record net x id s r) ≡ some p
        → Step p
    of_record-Step none p h e = subst Step (some_inj e) (Step.refused idle _)
    of_record-Step (some r) p h e = of_conn-Step r.conn p (ap udp_record h) e

  pub connect_one-Step :
      (net : Network W) (x : Settings) (p : Server W × ListenerStatus)
      → connect_one net x id s ≡ some p
      → Step p
  unfolding connect_one connect_tunnel
  connect_one-Step net x p e = elim (Bool-cases listens) [
    | inl busy ↦ subst Step (some_inj (ground (arith, busy, e))) (Step.already busy)
    | inr idle ↦
        of_record-Step net x idle (lookup id s.config.by_id) p refl (ground (arith, idle, e))
  ]
