-- ===== src/Tunnel/Udp/Table.antt =====
-- The invariant of the session manager: the dispatcher's map, the sessions, and what they own.
use cli.Base.{
  ℕ, suc, ◌≤◌, ◌≡◌, String, Bool, true, false, Option, none, some, List, [], ◌∷◌, ◌++◌, nat_eq,
  Bool-cases, inl, inr, arith, eq_iff,
}
use cli.Base.Maps.{Map, lookup, insert, delete, lookup-insert, lookup-delete}
use cli.Tunnel.Udp.{UdpDatagram}
use cli.Tunnel.Udp.Manager.{
  Phase, running, finished, gone, Session, Dispatcher, selecting, handing, dispatch_over, Manager,
  set, new_udp_session,
}

abbrev pub addr_at : Option Session → Option String
addr_at none = none
addr_at (some s) = some s.addr

abbrev pub not_gone : Phase → Bool
not_gone running = true
not_gone finished = true
not_gone gone = false

-- The goroutine of the session has not ended.
abbrev pub live : Option Session → Bool
live none = false
live (some s) = not_gone s.phase

abbrev pub Owns : String → List UdpDatagram → Type 0
Owns a [] = Unit
Owns a (d ∷ ds) = (d.addr ≡ a) × Owns a ds

pub Owns-snoc :
    (a : String) (ds : List UdpDatagram) (d : UdpDatagram)
    → Owns a ds
    → d.addr ≡ a
    → Owns a (ds ++ d ∷ [])
Owns-snoc a [] d h e = (e, tt)
Owns-snoc a (x ∷ ds) d h e = (h.0, Owns-snoc a ds d h.1 e)

abbrev pub Owned : Option Session → Type 0
Owned none = Unit
Owned (some s) = Owns s.addr s.got × Owns s.addr s.inbox

abbrev pub Handed : (ℕ → Option Session) → Dispatcher → Type 0
Handed objects (handing i d) = addr_at (objects i) ≡ some d.addr
Handed objects selecting = Unit
Handed objects dispatch_over = Unit

pub record Core (sessions : Map ℕ) (objects : ℕ → Option Session) (created : ℕ) : Type 0 where
  pub entry : (a : String) (i : ℕ) → lookup a sessions ≡ some i → addr_at (objects i) ≡ some a
  pub listed :
      (i : ℕ) (a : String)
      → addr_at (objects i) ≡ some a
      → live (objects i) ≡ true
      → lookup a sessions ≡ some i
  pub fresh : (i : ℕ) → created ≤ i → objects i ≡ none

-- Every session in the map is there under its address; every session whose goroutine has not ended
-- is in the map; and what a session got, or is about to get, was sent from its address.
pub record Valid (sessions : Map ℕ) (objects : ℕ → Option Session) (created : ℕ)
    (dispatcher : Dispatcher) : Type 0 where
  pub core : Core sessions objects created
  pub owned : (i : ℕ) → Owned (objects i)
  pub handed : Handed objects dispatcher

abbrev pub IsValid : Manager → Type 0
IsValid m = Valid m.sessions m.objects m.created m.dispatcher

module _ (sessions : Map ℕ) (objects : ℕ → Option Session) (created : ℕ)
    (h : Core sessions objects created) where
  pub Core-new :
      (a : String)
      → lookup a sessions ≡ none
      → Core (insert a created sessions) (set created (new_udp_session a) objects) (suc created)
  Core-new a e = record {
    entry = λ b i x.
        ground (
          arith,
          x,
          e,
          lookup-insert a b created sessions,
          eq_iff a b,
          h.entry b i,
          h.fresh created,
        );
    listed = λ i b x l. ground (
      arith,
      x,
      l,
      e,
      lookup-insert a b created sessions,
      eq_iff a b,
      h.listed i b,
      h.fresh created,
    );
    fresh = λ i x. ground (arith, x, h.fresh i);
  }

  -- A session changes, but not its address.
  pub Core-set :
      (i : ℕ) (s t : Session)
      → objects i ≡ some s
      → t.addr ≡ s.addr
      → (not_gone t.phase ≡ true → not_gone s.phase ≡ true)
      → Core sessions (set i t objects) created
  Core-set i s t o e l = record {
    entry = λ b j x. ground (arith, x, o, e, h.entry b j);
    listed = λ j b x y. ground (arith, x, y, o, e, l, h.listed j b);
    fresh = λ j x. ground (arith, x, o, h.fresh j);
  }

  pub Core-stopped :
      (i : ℕ) (s t : Session)
      → objects i ≡ some s
      → t.addr ≡ s.addr
      → not_gone s.phase ≡ true
      → t.phase ≡ gone
      → Core (delete s.addr sessions) (set i t objects) created
  Core-stopped i s t o e l g = record {
    entry = λ b j x.
        ground (arith, x, o, e, lookup-delete s.addr b sessions, eq_iff s.addr b, h.entry b j);
    listed = λ j b x y. ground (
      arith,
      x,
      y,
      o,
      e,
      l,
      g,
      lookup-delete s.addr b sessions,
      eq_iff s.addr b,
      h.listed j b,
      h.listed i s.addr,
    );
    fresh = λ j x. ground (arith, x, o, h.fresh j);
  }

pub set-Owned :
    (objects : ℕ → Option Session) (i : ℕ) (s : Session)
    → ((j : ℕ) → Owned (objects j))
    → Owned (some s)
    → (j : ℕ) → Owned (set i s objects j)
set-Owned objects i s h k j = elim (Bool-cases (nat_eq i j)) [ inl e ↦ rw e k | inr e ↦ rw e (h j) ]

pub set-Handed :
    (objects : ℕ → Option Session) (i : ℕ) (s t : Session) (x : Dispatcher)
    → objects i ≡ some s
    → t.addr ≡ s.addr
    → Handed objects x
    → Handed (set i t objects) x
set-Handed objects i s t (handing j d) o e h = ground (arith, o, e, h)
set-Handed objects i s t selecting o e h = tt
set-Handed objects i s t dispatch_over o e h = tt
