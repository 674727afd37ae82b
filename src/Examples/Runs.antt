-- ===== src/Examples/Runs.antt =====
-- Runs with a cached token, against a proxy that takes one token only, and a login.
use cli.Base.{
  ℕ, ap, suc, ◌+◌, ◌≡◌, refl, ◌≢◌, String, false, Option, none, some, List, [], ◌∷◌, ◌++◌, ◌==◌,
  if◌then◌else◌, eq_iff, arith,
}
use cli.Base.Lists.{length}
use cli.Base.Results.{Result, ok}
use cli.Base.Maps.{Map, lookup, insert}
use cli.Jwt.{expired, not_found, Cache, check_expiry}
use cli.Jwt.Memory.{memory_cache, memory_cache-CacheLaws, load_jwt, store_jwt, delete_jwt}
use cli.Tunnel.Errors.{unauthenticated, Error, plain}
use cli.Tunnel.Run.{State, run_with_jwt, call, finish, login, after_call}
use cli.Tunnel.Run.Outcome.{run-keeps_token, run-drops_token}
use cli.Examples.Jwts.{decoder}

abbrev now : ℕ
now = 2000000000

abbrev cache : Cache (Map String)
cache = memory_cache decoder now

-- The world counts the calls of the proxy, which takes the token "new" only.
abbrev proxy : String → ℕ → ℕ × Option Error
proxy jwt n = (suc n, if jwt == "new" then none else plain unauthenticated "unauthenticated")

abbrev log_in : ℕ → ℕ × Result Error String
log_in n = (n, ok "new")

-- A proxy that fails for a reason of its own.
abbrev broken : String → ℕ → ℕ × Option Error
broken jwt n = (suc n, some (record { sentinel = none; message = "reset" }))

abbrev start : State (Map String) ℕ
start = record { cache = insert "key" "old" []; world = 0; calls = []; logins = 0 }

abbrev run : State (Map String) ℕ × Option Error
run = run_with_jwt cache "key" proxy log_in start

twice :
    (run.0.calls ≡ "old" ∷ "new" ∷ []) × (lookup "key" run.0.cache ≡ some "new") × (run.1 ≡ none)
unfolding run_with_jwt call finish login after_call load_jwt store_jwt delete_jwt lookup insert
    check_expiry
twice = (refl, refl, refl)

run_ok : run.1 ≡ none
run_ok = let (a, b, c) = twice in c

run-keeps_token_example :
    (before : List String) × (jwt : String) × (run.0.calls ≡ before ++ jwt ∷ [])
    × ((cache.load_jwt "key" run.0.cache).0 ≡ jwt)
run-keeps_token_example =
    run-keeps_token cache "key" proxy log_in decoder now (memory_cache-CacheLaws decoder now) start
      (rw run_ok refl)

abbrev failed_run : State (Map String) ℕ × Option Error
failed_run = run_with_jwt cache "key" broken log_in start

failed : failed_run.1 ≡ some (record { sentinel = none; message = "reset" })
unfolding run_with_jwt call finish login after_call load_jwt store_jwt delete_jwt lookup insert
    check_expiry
failed = refl

one_call : length failed_run.0.calls + 0 ≡ 1 + failed_run.0.logins
unfolding run_with_jwt call finish login after_call load_jwt store_jwt delete_jwt lookup insert
    check_expiry
one_call = refl

deletes : (x : Map String) → (cache.delete_jwt "key" x).1 ≡ none
unfolding delete_jwt
deletes x = refl

run-drops_token_example : cache.load_jwt "key" failed_run.0.cache ≡ ("", some not_found)
run-drops_token_example =
    run-drops_token cache "key" broken log_in decoder now (memory_cache-CacheLaws decoder now) start
      (record { sentinel = none; message = "reset" }) deletes failed refl one_call

keys_apart : (k : String) → k ≡ "key" → k ≢ "other"
keys_apart k e f =
    let same : (k == "key") ≡ false = ap (λ s. s == "key") f in
    absurd (ground (arith, eq_iff k "key", e, same))

loaded_old : cache.load_jwt "key" start.cache ≡ ("old", some expired)
unfolding load_jwt lookup insert check_expiry
loaded_old = refl
