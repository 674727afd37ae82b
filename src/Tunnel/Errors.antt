-- ===== src/Tunnel/Errors.antt =====
-- The errors of tunnel/tunnel.go, and the status codes that stand for them.
use cli.Base.{ℕ, String, Bool, true, false, ◌||◌, Option, none, some, nat_eq, if◌then◌else◌}

-- The errors that `errors.Is` looks for.
pub data Sentinel : Type 0 where
  unavailable unauthenticated unauthorized unsupported : Sentinel

-- An error: the sentinel that it is or wraps, if any, and its text.
pub record Error : Type 0 where
  pub sentinel : Option Sentinel
  pub message : String

abbrev pub same : Sentinel → Sentinel → Bool
same unavailable unavailable = true
same unauthenticated unauthenticated = true
same unauthorized unauthorized = true
same unsupported unsupported = true
same _ _ = false

abbrev pub wraps : Option Sentinel → Sentinel → Bool
wraps none s = false
wraps (some t) s = same t s

-- `errors.Is(err, s)`, false for nil.
abbrev pub is : Option Error → Sentinel → Bool
is none s = false
is (some e) s = wraps e.sentinel s

abbrev pub plain : Sentinel → String → Option Error
plain s message = some (record { sentinel = some s; message = message })

-- The text of the default case holds the code.
unfoldable pub http_status_code_to_error : ℕ → Option Error
http_status_code_to_error code =
    if nat_eq code 200
    then none
    else if nat_eq code 503
    then plain unavailable "unavailable"
    else if nat_eq code 301 || nat_eq code 302 || nat_eq code 307 || nat_eq code 308
    then plain unauthenticated "unauthenticated"
    else if nat_eq code 403
    then plain unauthorized "unauthorized"
    else some (record { sentinel = none; message = "invalid http response code" })
