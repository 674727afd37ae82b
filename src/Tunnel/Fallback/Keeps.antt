-- ===== src/Tunnel/Fallback/Keeps.antt =====
-- Properties of the shared state of tunnel/tunnel_fallback.go.
use cli.Base.{ℕ, zero, suc, Bool, true, false, Option, none, some, List, [], ◌∷◌, if◌then◌else◌}
use cli.Tunnel.Errors.{Error}
use cli.Tunnel.Fallback.{Shared, dropped, retries, attempt, tunnel_udp}

-- A property of the shared state that every run of a tunneler keeps.
module _ {T W : Type 0} (tunnel : T → Shared T W → Shared T W × Option Error)
    (P : Shared T W → Type 0) (runs : (t : T) (s : Shared T W) → P s → P (tunnel t s).0)
    (drops : (s : Shared T W) → P s → P (dropped tunnel s)) where
  abbrev pub Leaves : Option (Shared T W × Option Error) → Type 0
  Leaves none = Unit
  Leaves (some r) = P r.0

  either-Leaves :
      (b : Bool) (x y : Option (Shared T W × Option Error))
      → Leaves x
      → Leaves y
      → Leaves (if b then x else y)
  either-Leaves true x y h k = h
  either-Leaves false x y h k = k

  attempt-Leaves :
      (retry : Shared T W → Option (Shared T W × Option Error))
      → ((s : Shared T W) → P s → Leaves (retry s))
      → (s : Shared T W) (ts : List T) → P s
      → Leaves (attempt tunnel retry s ts)
  unfolding attempt
  attempt-Leaves retry k s [] h = h
  attempt-Leaves retry k s (t ∷ ts) h =
      let h' = runs t s h in
      either-Leaves (retries tunnel (t ∷ ts) (tunnel t s).0 (tunnel t s).1)
        (retry (dropped tunnel (tunnel t s).0)) (some (tunnel t s))
        (k (dropped tunnel (tunnel t s).0) (drops (tunnel t s).0 h')) h'

  -- Whatever the fuel, `TunnelUDP` keeps the property.
  pub tunnel_udp-Leaves : (fuel : ℕ) (s : Shared T W) → P s → Leaves (tunnel_udp tunnel fuel s)
  unfolding tunnel_udp
  tunnel_udp-Leaves zero s h = tt
  tunnel_udp-Leaves (suc fuel) s h =
      attempt-Leaves (tunnel_udp tunnel fuel) (tunnel_udp-Leaves fuel) s s.tunnelers h
