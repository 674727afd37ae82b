-- ===== src/Tunnel/Udp/Turns.antt =====
-- Properties that the turns of the session manager keep.
use cli.Base.{subst, ℕ, ◌≡◌, Bool, true, false, Option, none, some, List, [], ◌∷◌}
use cli.Tunnel.Udp.{Varint}
use cli.Tunnel.Udp.Manager.{continue, Manager, Event, step, steps, when}

-- The turn, if it is taken, ends in a state with the property.
abbrev pub Ends : (Manager → Type 0) → Option Manager → Type 0
Ends P none = Unit
Ends P (some m) = P m

pub Ends-when : (P : Manager → Type 0) (b : Bool) (m : Manager) → P m → Ends P (when b m)
Ends-when P true m h = h
Ends-when P false m h = tt

continue-Ends :
    (P : Manager → Type 0) (f : Manager → Option Manager)
    → ((n : Manager) → P n → Ends P (f n))
    → (o : Option Manager) → Ends P o
    → Ends P (continue f o)
continue-Ends P f k none h = tt
continue-Ends P f k (some n) h = k n h

pub of_Ends :
    (P : Manager → Type 0) (o : Option Manager) (m : Manager) → Ends P o → o ≡ some m → P m
of_Ends P o m h e = subst (Ends P) e h

module _ (v : Varint) (max : ℕ) where
  -- A property that every turn keeps, kept by any turns in any order.
  pub steps-Ends :
      (P : Manager → Type 0)
      → ((e : Event) (m : Manager) → P m → Ends P (step v max e m))
      → (es : List Event) (m : Manager) → P m
      → Ends P (steps v max es m)
  unfolding steps
  steps-Ends P k [] m h = h
  steps-Ends P k (e ∷ es) m h =
      continue-Ends P (steps v max es) (steps-Ends P k es) (step v max e m) (k e m h)
