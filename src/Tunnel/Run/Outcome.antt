-- ===== src/Tunnel/Run/Outcome.antt =====
-- What a run of `runWithJWT` does: its calls, and what it leaves in the cache.
use cli.Base.{
  ◌⊎◌, ap, ◌-◌, ℕ, suc, ◌+◌, ◌≤◌, ◌≡◌, refl, ◌≢◌, String, Bool, true, false, ◌||◌, Option, none,
  some, List, [], ◌∷◌, ◌++◌, arith, Bool-cases, inl, inr,
}
use cli.Base.Lists.{length}
use cli.Base.Results.{Result, Result-cases}
use cli.Jwt.{JwtError, expired, invalid, not_found, Cache, CacheLaws, Decoder}
use cli.Tunnel.Errors.{unavailable, unauthenticated, unauthorized, Error, is}
use cli.Tunnel.Run.{State, run_with_jwt}

length-snoc : (xs : List String) (x : String) → length (xs ++ x ∷ []) ≡ suc (length xs)
length-snoc [] x = refl
length-snoc (y ∷ xs) x = ap suc (length-snoc xs x)

module _ {C W : Type 0} (c : Cache C) (key : String) (handler : String → W → W × Option Error)
    (get_jwt : W → W × Result Error String) where
  abbrev run : State C W → State C W × Option Error
  run = run_with_jwt c key handler get_jwt

  -- The token of the first call, the world behind that call, and what the login returns there.
  abbrev first_jwt : State C W → String
  first_jwt s = (c.load_jwt key s.cache).0

  abbrev login_result : State C W → Result Error String
  login_result s = (get_jwt (handler (first_jwt s) s.world).0).1

  -- A run makes at most two calls of the handler and one login, and a second call only after a
  -- login.
  pub run-bounds :
      (s : State C W)
      → (length (run s).0.calls ≤ length s.calls + 1 + ((run s).0.logins - s.logins))
        × (s.logins ≤ (run s).0.logins)
        × ((run s).0.logins ≤ suc s.logins)
  unfolding run_with_jwt
  run-bounds s =
      let one = s.calls ++ first_jwt s ∷ [] in
      elim (Result-cases (login_result s)) [
        | inl (x, got) ↦ ground (arith, length-snoc s.calls (first_jwt s), length-snoc one x, got)
        | inr (e, failed) ↦ ground (arith, length-snoc s.calls (first_jwt s), failed)
      ]

  module _ (d : Decoder) (now : ℕ) (laws : CacheLaws d now c) where
    -- The outcomes after which the token is not deleted.
    abbrev keeps : Option Error → Bool
    keeps none = true
    keeps (some e) = is (some e) unavailable || is (some e) unauthorized

    -- Over a cache that keeps its promises: when a run succeeds, or ends as unavailable or
    -- unauthorized, the cache holds under the key the token that the handler was called with last.
    pub run-keeps_token :
        (s : State C W)
        → keeps (run s).1 ≡ true
        → (before : List String) × (jwt : String) × ((run s).0.calls ≡ before ++ jwt ∷ [])
          × ((c.load_jwt key (run s).0.cache).0 ≡ jwt)
    unfolding run_with_jwt
    run-keeps_token s k =
        let one = s.calls ++ first_jwt s ∷ [] in
        elim (Bool-cases (is (handler (first_jwt s) s.world).1 unauthenticated)) [
          | inr last ↦ (s.calls, first_jwt s, ground (arith, k, last), ground (arith, k, last))
          | inl again ↦ elim (Result-cases (login_result s)) [
            | inl (x, got) ↦ (
              one,
              x,
              ground (arith, k, again, got),
              ground (arith, k, again, got, laws.load-store key x s.cache),
            )
            | inr (e, failed) ↦ (
              s.calls,
              first_jwt s,
              ground (arith, k, again, failed),
              ground (arith, k, again, failed),
            )
          ]
        ]

    -- Over a cache that keeps its promises and whose deletions succeed: when the last thing that a
    -- run did is a call of the handler, and that ended in any other error than unavailable or
    -- unauthorized, the cache does not hold a token under the key.
    pub run-drops_token :
        (s : State C W) (e : Error)
        → ((x : C) → (c.delete_jwt key x).1 ≡ none)
        → (run s).1 ≡ some e
        → keeps (some e) ≡ false
        → length (run s).0.calls + s.logins ≡ suc (length s.calls) + (run s).0.logins
        → c.load_jwt key (run s).0.cache ≡ ("", some not_found)
    unfolding run_with_jwt
    run-drops_token s e deletes ends k by_call =
        let one = s.calls ++ first_jwt s ∷ [] in
        elim (Bool-cases (is (handler (first_jwt s) s.world).1 unauthenticated)) [
          | inr last ↦ ground (
            arith,
            last,
            ends,
            k,
            by_call,
            length-snoc s.calls (first_jwt s),
            laws.load-delete key s.cache (deletes s.cache),
          )
          | inl again ↦ elim (Result-cases (login_result s)) [
            | inl (x, got) ↦
                let filled = (c.store_jwt key x s.cache).0 in
                ground (
                  arith,
                  again,
                  got,
                  ends,
                  k,
                  by_call,
                  length-snoc s.calls (first_jwt s),
                  length-snoc one x,
                  laws.load-delete key filled (deletes filled),
                )
            | inr (f, failed) ↦
                ground (arith, again, failed, ends, k, by_call, length-snoc s.calls (first_jwt s))
          ]
        ]

    -- Over a cache that keeps its promises, a run touches no other key of the cache, however it
    -- ends.
    pub run-other_keys :
        (s : State C W) (j : String) → key ≢ j → c.load_jwt j (run s).0.cache ≡ c.load_jwt j s.cache
    unfolding run_with_jwt
    run-other_keys s j n = elim (Result-cases (login_result s)) [
      | inl (x, got) ↦
          let filled = (c.store_jwt key x s.cache).0 in
          ground (
            arith,
            got,
            laws.load-store_other key j x s.cache n,
            laws.load-delete_other key j filled n,
            laws.load-delete_other key j s.cache n,
          )
      | inr (f, failed) ↦ ground (arith, failed, laws.load-delete_other key j s.cache n)
    ]

  -- A token that is loaded as expired or invalid is still what the handler is called with first.
  pub run-passes_expired :
      (s : State C W) (jwt : String) (x : JwtError)
      → c.load_jwt key s.cache ≡ (jwt, some x)
      → (x ≡ expired) ⊎ (x ≡ invalid)
      → (handler jwt s.world).1 ≡ none
      → ((run s).0.calls ≡ s.calls ++ jwt ∷ []) × ((run s).1 ≡ none)
  unfolding run_with_jwt
  run-passes_expired s jwt x e kind accepted = ground (arith, e, kind, accepted)
