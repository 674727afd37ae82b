-- ===== src/Tunnel/Http/Tokens.antt =====
-- The tokens that the requests of a UDP session carry, from `runWithJWT` through the fallback to the
-- tunnelers.
use cli.Base.{
  suc, ℕ, suc, ◌≡◌, sym, subst, ◌⊎◌, inl, inr, String, Bool, true, false, ◌||◌, Option, none, some,
  List, [], ◌∷◌, ◌++◌, if◌then◌else◌,
}
use cli.Base.Results.{Result, ok, err}
use cli.Jwt.{JwtError, expired, invalid, not_found, other, Cache}
use cli.Tunnel.Config.{TunnelConfig}
use cli.Tunnel.Errors.{unauthorized, unavailable, unauthenticated, is, Error}
use cli.Tunnel.Fallback.{Shared}
use cli.Tunnel.Fallback.Keeps.{Leaves, tunnel_udp-Leaves}
use cli.Tunnel.Run.{
  State, run_with_jwt, call, finish, login, after_call, of_load, logged_in, stored_call,
}
use cli.Tunnel.Http.{
  Action, connecting, connected, disconnected, sent, opened, closed, Request, Peer,
}
use cli.Tunnel.Http.Tunnelers.{Method, tunnel}
use cli.Tunnel.Http.Sessions.{talk, Bears, Talk, unsent, refused, served, tunnel-talks}
use cli.Tunnel.Http.Deployed.{Network, session_tunnel, session_handler, run_udp, ran}

-- The request carries one of the tokens.
abbrev pub BearsOne : List String → Request → Type 0
BearsOne [] q = ⊥
BearsOne (jwt ∷ jwts) q = Bears jwt q ⊎ BearsOne jwts q

-- Every request of the actions does.
abbrev pub AllBear : List String → List Action → Type 0
AllBear jwts [] = Unit
AllBear jwts (sent q ∷ xs) = BearsOne jwts q × AllBear jwts xs
AllBear jwts (connecting ∷ xs) = AllBear jwts xs
AllBear jwts (connected ∷ xs) = AllBear jwts xs
AllBear jwts (disconnected e ∷ xs) = AllBear jwts xs
AllBear jwts (opened x ∷ xs) = AllBear jwts xs
AllBear jwts (closed x ∷ xs) = AllBear jwts xs

BearsOne-more :
    (jwts more : List String) (q : Request) → BearsOne jwts q → BearsOne (jwts ++ more) q
BearsOne-more [] more q h = absurd h
BearsOne-more (j ∷ jwts) more q (inl h) = inl h
BearsOne-more (j ∷ jwts) more q (inr h) = inr (BearsOne-more jwts more q h)

BearsOne-last :
    (jwts : List String) (jwt : String) (q : Request) → Bears jwt q → BearsOne (jwts ++ jwt ∷ []) q
BearsOne-last [] jwt q h = inl h
BearsOne-last (j ∷ jwts) jwt q h = inr (BearsOne-last jwts jwt q h)

AllBear-more :
    (jwts more : List String) (xs : List Action) → AllBear jwts xs → AllBear (jwts ++ more) xs
AllBear-more jwts more [] h = tt
AllBear-more jwts more (sent q ∷ xs) h =
    (BearsOne-more jwts more q h.0, AllBear-more jwts more xs h.1)
AllBear-more jwts more (connecting ∷ xs) h = AllBear-more jwts more xs h
AllBear-more jwts more (connected ∷ xs) h = AllBear-more jwts more xs h
AllBear-more jwts more (disconnected e ∷ xs) h = AllBear-more jwts more xs h
AllBear-more jwts more (opened x ∷ xs) h = AllBear-more jwts more xs h
AllBear-more jwts more (closed x ∷ xs) h = AllBear-more jwts more xs h

AllBear-append :
    (jwts : List String) (xs ys : List Action)
    → AllBear jwts xs
    → AllBear jwts ys
    → AllBear jwts (xs ++ ys)
AllBear-append jwts [] ys h k = k
AllBear-append jwts (sent q ∷ xs) ys h k = (h.0, AllBear-append jwts xs ys h.1 k)
AllBear-append jwts (connecting ∷ xs) ys h k = AllBear-append jwts xs ys h k
AllBear-append jwts (connected ∷ xs) ys h k = AllBear-append jwts xs ys h k
AllBear-append jwts (disconnected e ∷ xs) ys h k = AllBear-append jwts xs ys h k
AllBear-append jwts (opened x ∷ xs) ys h k = AllBear-append jwts xs ys h k
AllBear-append jwts (closed x ∷ xs) ys h k = AllBear-append jwts xs ys h k

AllBear-talk : (jwts : List String) (xs : List Action) → AllBear jwts (talk xs) → AllBear jwts xs
AllBear-talk jwts [] h = tt
AllBear-talk jwts (sent q ∷ xs) h = (h.0, AllBear-talk jwts xs h.1)
AllBear-talk jwts (connecting ∷ xs) h = AllBear-talk jwts xs h
AllBear-talk jwts (connected ∷ xs) h = AllBear-talk jwts xs h
AllBear-talk jwts (disconnected e ∷ xs) h = AllBear-talk jwts xs h
AllBear-talk jwts (opened x ∷ xs) h = AllBear-talk jwts xs h
AllBear-talk jwts (closed x ∷ xs) h = AllBear-talk jwts xs h

Talk-AllBear :
    (peer : Peer) (jwts : List String) (jwt : String) (xs : List Action) (e : Option Error)
    → Talk peer jwt xs e
    → AllBear (jwts ++ jwt ∷ []) xs
Talk-AllBear peer jwts jwt _ _ (unsent e) = tt
Talk-AllBear peer jwts jwt _ _ (refused q e b) = (BearsOne-last jwts jwt q b, tt)
Talk-AllBear peer jwts jwt _ _ (served q e b r) = (BearsOne-last jwts jwt q b, tt)

module _ (peers : ℕ → Peer) (cfg : TunnelConfig) (jwts : List String) (jwt : String) where
  abbrev Covered : Shared Method Network → Type 0
  Covered s = AllBear (jwts ++ jwt ∷ []) s.world.log

  run_udp-Covered :
      (m : Method) (s : Shared Method Network) → Covered s → Covered (run_udp peers cfg jwt m s).0
  run_udp-Covered m s h =
      let r = tunnel m (peers s.world.runs) cfg jwt in
      let (rest, starts, says) = tunnel-talks m (peers s.world.runs) cfg jwt in
      let fine : AllBear (jwts ++ jwt ∷ []) (talk r.actions) =
        subst (AllBear (jwts ++ jwt ∷ [])) (sym starts)
          (Talk-AllBear (peers s.world.runs) jwts jwt rest r.error says) in
      AllBear-append (jwts ++ jwt ∷ []) s.world.log r.actions h
        (AllBear-talk (jwts ++ jwt ∷ []) r.actions fine)

  ran-Covered :
      (s : Shared Method Network) (o : Option (Shared Method Network × Option Error))
      → Covered s
      → Leaves (run_udp peers cfg jwt) Covered run_udp-Covered (λ s h. h) o
      → Covered (ran s o).0
  ran-Covered s none h k = h
  ran-Covered s (some r) h k = k

  -- A session's tunnel, from a network all of whose requests are covered.
  session-Covered :
      (s : Shared Method Network) → Covered s → Covered (ran s (session_tunnel peers cfg jwt s)).0
  session-Covered s h =
      ran-Covered s (session_tunnel peers cfg jwt s) h
        (tunnel_udp-Leaves (run_udp peers cfg jwt) Covered run_udp-Covered (λ x k. k) 3 s h)

module _ {C : Type 0} (c : Cache C) (key : String)
    (get_jwt : Shared Method Network → Shared Method Network × Result Error String)
    (peers : ℕ → Peer) (cfg : TunnelConfig)
    (quiet : (s : Shared Method Network) → (get_jwt s).0.world.log ≡ s.world.log) where
  abbrev handler : String → Shared Method Network → Shared Method Network × Option Error
  handler raw_jwt s = ran s (session_tunnel peers cfg raw_jwt s)

  -- Every request so far carries one of the tokens that the handler was called with.
  abbrev pub IsCovered : State C (Shared Method Network) → Type 0
  IsCovered s = AllBear s.calls s.world.world.log

  call-IsCovered :
      (jwt : String) (s : State C (Shared Method Network))
      → IsCovered s
      → IsCovered (call c key handler get_jwt jwt s).0
  unfolding call
  call-IsCovered jwt s h =
      session-Covered peers cfg s.calls jwt s.world
        (AllBear-more s.calls (jwt ∷ []) s.world.world.log h)

  either-IsCovered :
      (b : Bool) (x y : State C (Shared Method Network) × Option Error)
      → IsCovered x.0
      → IsCovered y.0
      → IsCovered (if b then x else y).0
  either-IsCovered true x y h k = h
  either-IsCovered false x y h k = k

  finish-IsCovered :
      (x : State C (Shared Method Network) × Option Error)
      → IsCovered x.0
      → IsCovered (finish c key handler get_jwt x).0
  unfolding finish
  finish-IsCovered (s, none) h = h
  finish-IsCovered (s, some e) h =
      either-IsCovered (is (some e) unavailable || is (some e) unauthorized) (s, some e)
        (record s { cache = (c.delete_jwt key s.cache).0 }, some e) h h

  stored_call-IsCovered :
      (s : State C (Shared Method Network)) (jwt : String) (r : C × Option String)
      → IsCovered s
      → IsCovered (stored_call c key handler get_jwt s jwt r).0
  stored_call-IsCovered s jwt (cache, some e) h = h
  stored_call-IsCovered s jwt (cache, none) h =
      finish-IsCovered (call c key handler get_jwt jwt (record s { cache = cache }))
        (call-IsCovered jwt (record s { cache = cache }) h)

  logged_in-IsCovered :
      (s : State C (Shared Method Network)) (r : Result Error String)
      → IsCovered s
      → IsCovered (logged_in c key handler get_jwt s r).0
  logged_in-IsCovered s (err e) h = h
  logged_in-IsCovered s (ok jwt) h = stored_call-IsCovered s jwt (c.store_jwt key jwt s.cache) h

  login-IsCovered :
      (s : State C (Shared Method Network))
      → IsCovered s
      → IsCovered (login c key handler get_jwt s).0
  unfolding login
  login-IsCovered s h =
      logged_in-IsCovered (record s { world = (get_jwt s.world).0; logins = suc s.logins })
        (get_jwt s.world).1 (subst (AllBear s.calls) (sym (quiet s.world)) h)

  after_call-IsCovered :
      (x : State C (Shared Method Network) × Option Error)
      → IsCovered x.0
      → IsCovered (after_call c key handler get_jwt x).0
  unfolding after_call
  after_call-IsCovered (s, e) h =
      either-IsCovered (is e unauthenticated) (login c key handler get_jwt s)
        (finish c key handler get_jwt (s, e)) (login-IsCovered s h) (finish-IsCovered (s, e) h)

  called-IsCovered :
      (jwt : String) (s : State C (Shared Method Network))
      → IsCovered s
      → IsCovered (after_call c key handler get_jwt (call c key handler get_jwt jwt s)).0
  called-IsCovered jwt s h =
      after_call-IsCovered (call c key handler get_jwt jwt s) (call-IsCovered jwt s h)

  of_load-IsCovered :
      (s : State C (Shared Method Network)) (r : String × Option JwtError)
      → IsCovered s
      → IsCovered (of_load c key handler get_jwt s r).0
  of_load-IsCovered s (jwt, some (other e)) h = h
  of_load-IsCovered s (jwt, some expired) h = called-IsCovered jwt s h
  of_load-IsCovered s (jwt, some invalid) h = called-IsCovered jwt s h
  of_load-IsCovered s (jwt, some not_found) h = called-IsCovered jwt s h
  of_load-IsCovered s (jwt, none) h = called-IsCovered jwt s h

  -- Where a login makes no run of a tunneler (`quiet`): when every request so far carries one of
  -- the tokens that the handler was called with, the same holds behind a session's handler, whatever
  -- the cache answers, the login returns and the networks do.
  pub session_handler-IsCovered :
      (s : State C (Shared Method Network))
      → IsCovered s
      → IsCovered (session_handler c key get_jwt peers cfg s).0
  unfolding session_handler run_with_jwt
  session_handler-IsCovered s h = of_load-IsCovered s (c.load_jwt key s.cache) h
