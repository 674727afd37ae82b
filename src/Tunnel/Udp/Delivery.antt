-- ===== src/Tunnel/Udp/Delivery.antt =====
-- What becomes of the datagrams that the session manager reads.
use cli.Base.{ℕ, ◌≡◌, refl, false, Option, none, some, List}
use cli.Tunnel.Udp.{Varint}
use cli.Tunnel.Udp.Table.{IsValid}
use cli.Tunnel.Udp.Turns.{Ends, of_Ends, steps-Ends}
use cli.Tunnel.Udp.Manager.{Manager, start, done, Event, step, steps}
use cli.Tunnel.Udp.Order.{on_the_way, Conserves, conserves}
use cli.Tunnel.Udp.Sessions.{step-IsValid, start-IsValid}
use cli.Tunnel.Udp.Received.{received, sent_to, Receives, receives}
use cli.Tunnel.Udp.Dropped.{Ended, Drops, drops}

by_result :
    (P : Manager → Type 0) (o : Option Manager) → ((n : Manager) → o ≡ some n → P n) → Ends P o
by_result P none k = tt
by_result P (some n) k = k n refl

abbrev IsFair : Manager → Type 0
IsFair m = IsValid m × Conserves m × Receives m × Drops m

module _ (v : Varint) (max : ℕ) where
  step-IsFair : (e : Event) (m : Manager) → IsFair m → Ends IsFair (step v max e m)
  step-IsFair e m h =
      let (w, c, g, k) = h in
      by_result IsFair (step v max e m) λ n r. (
        of_Ends IsValid (step v max e m) n (step-IsValid v max e m w) r,
        conserves v max e m n c r,
        receives v max e m n w g r,
        drops v max e m n w k r,
      )

  start-IsFair : IsFair start
  start-IsFair = (start-IsValid, λ d. refl, λ i. refl, λ d. tt)

  -- After any turns in any order, while the context is not done: the datagrams that were settled,
  -- and those on their way, are those that arrived, in the order of their arrival; what a session
  -- has read, and what its channel holds, are the datagrams that were sent to it, in their order; and a
  -- datagram was dropped only where the handler of its session has returned.
  pub steps-delivers :
      (es : List Event) (m : Manager)
      → steps v max es start ≡ some m
      → done m ≡ false
      → (on_the_way m ≡ m.arrived)
        × ((i : ℕ) → received (m.objects i) ≡ sent_to i m.log)
        × Ended m.objects m.log
  steps-delivers es m r d =
      let (_, c, g, k) =
        of_Ends IsFair (steps v max es start) m
          (steps-Ends v max IsFair step-IsFair es start start-IsFair) r in
      (c d, g, k d)
