-- ===== src/Examples/Fallbacks.antt =====
-- Three ways to tunnel: the first is not supported, the second fails, the third is never tried.
use cli.Base.{ℕ, ◌≡◌, refl, Option, some, List, [], ◌∷◌, nat_eq, if◌then◌else◌, arith}
use cli.Tunnel.Errors.{unsupported, unavailable, Error, plain}
use cli.Tunnel.Fallback.{
  Shared, Alone, tunnel_udp, first_supported, tunnel_udp-first_supported, attempt,
}

-- The world lists the tunnelers that ran.
abbrev tunnel : ℕ → Shared ℕ (List ℕ) → Shared ℕ (List ℕ) × Option Error
tunnel t s = (
  record s { world = t ∷ s.world },
  if nat_eq t 3 then plain unsupported "unsupported" else plain unavailable "unavailable",
)

abbrev start : Shared ℕ (List ℕ)
start = record { tunnelers = 3 ∷ 2 ∷ 1 ∷ []; world = [] }

second :
    tunnel_udp tunnel 4 start
    ≡ some (record { tunnelers = 2 ∷ 1 ∷ []; world = 2 ∷ 3 ∷ [] }, plain unavailable "unavailable")
unfolding tunnel_udp attempt
second = refl

alone : Alone tunnel
alone t s = refl

tunnel_udp-first_supported_example :
    tunnel_udp tunnel 4 start ≡ some (first_supported tunnel (3 ∷ 2 ∷ 1 ∷ []) start)
tunnel_udp-first_supported_example =
    tunnel_udp-first_supported tunnel (3 ∷ 2 ∷ 1 ∷ []) 4 start alone refl (omega arith)
