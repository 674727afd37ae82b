-- ===== src/Tunnel/Fallback.antt =====
-- tunnel/tunnel_fallback.go: the tunnelers are tried in turn, and one that is not supported is
-- dropped for good.
--
-- The list of tunnelers is shared: while a tunneler runs, with the lock released, other sessions may
-- have dropped some of it. So a run of a tunneler is a parameter that changes the whole state.
pub mod Keeps
use cli.Base.{
  ◌∙◌, ℕ, zero, suc, ◌<◌, ◌≡◌, refl, ap, Bool, ◌&&◌, Option, none, some, List, [], ◌∷◌, arith,
  if◌then◌else◌, nat_eq, ltb, Bool-cases, inl, inr,
}
use cli.Base.Lists.{List-cases, length}
use cli.Tunnel.Errors.{unsupported, Error, is}

pub record Shared (T W : Type 0) : Type 0 where
  pub tunnelers : List T
  pub world : W

abbrev pub no_tunnelers : Error
no_tunnelers = record { sentinel = some unsupported; message = "unsupported: no tunnelers defined" }

abbrev behind_first {ℓ} : {A : Type ℓ} → List A → List A
behind_first [] = []
behind_first (x ∷ xs) = xs

module _ {T W : Type 0} (tunnel : T → Shared T W → Shared T W × Option Error) where
  -- The next tunneler is tried: the one that ran is not supported, it is not the last one, and the
  -- shared list is as long as when it was copied.
  abbrev pub retries : List T → Shared T W → Option Error → Bool
  retries ts s e = is e unsupported && nat_eq (length ts) (length s.tunnelers) && ltb 1 (length ts)

  abbrev pub dropped : Shared T W → Shared T W
  dropped s = record s { tunnelers = behind_first s.tunnelers }

  -- One call of `TunnelUDP`, with the copy of the list, over the recursive call.
  unfoldable pub attempt :
      (Shared T W → Option (Shared T W × Option Error))
      → Shared T W
      → List T
      → Option (Shared T W × Option Error)
  attempt retry s [] = some (s, some no_tunnelers)
  attempt retry s (t ∷ ts) =
      let (s', e) = tunnel t s in
      let again = retry (dropped s') in if retries (t ∷ ts) s' e then again else some (s', e)

  -- The recursive call is on fuel; `none` means that the fuel ran out.
  unfoldable pub tunnel_udp : ℕ → Shared T W → Option (Shared T W × Option Error)
  unfolding attempt
  tunnel_udp zero s = none
  tunnel_udp (suc fuel) s = attempt (tunnel_udp fuel) s s.tunnelers

  tunnel_udp-empty :
      (fuel : ℕ) (s : Shared T W)
      → s.tunnelers ≡ []
      → tunnel_udp (suc fuel) s ≡ some (s, some no_tunnelers)
  unfolding tunnel_udp
  tunnel_udp-empty fuel s e = ap (attempt (tunnel_udp fuel) s) e

  tunnel_udp-step :
      (fuel : ℕ) (s : Shared T W) (t : T) (ts : List T)
      → s.tunnelers ≡ t ∷ ts
      → tunnel_udp (suc fuel) s ≡ (
          if retries (t ∷ ts) (tunnel t s).0 (tunnel t s).1
          then tunnel_udp fuel (dropped (tunnel t s).0)
          else some (tunnel t s))
  unfolding tunnel_udp
  tunnel_udp-step fuel s t ts e = ap (attempt (tunnel_udp fuel) s) e

  length-behind_first : (xs : List T) (n : ℕ) → length xs ≡ suc n → length (behind_first xs) ≡ n
  length-behind_first [] n e = absurd (omega (arith, e))
  length-behind_first (x ∷ xs) n e = omega (arith, e)

  -- Fuel beyond the number of tunnelers is enough, whatever the tunnelers and the other sessions do
  -- to the shared list: every retry has one tunneler less.
  pub tunnel_udp-total :
      (fuel : ℕ) (s : Shared T W)
      → length s.tunnelers < fuel
      → (r : Shared T W × Option Error) × (tunnel_udp fuel s ≡ some r)
  tunnel_udp-total zero s h = absurd (omega arith)
  tunnel_udp-total (suc fuel) s h = elim (List-cases s.tunnelers) [
    | inl e ↦ ((s, some no_tunnelers), tunnel_udp-empty fuel s e)
    | inr (t, ts, e) ↦
        let s' = (tunnel t s).0 in
        elim (Bool-cases (retries (t ∷ ts) s' (tunnel t s).1)) [
          | inl more ↦
              let (r, done) = tunnel_udp-total fuel (dropped s') (
                omega (
                  arith,
                  h,
                  ap length e,
                  length-behind_first s'.tunnelers (length ts) (ground (arith, more)),
                )) in
              (r, tunnel_udp-step fuel s t ts e ∙ rw more done)
          | inr last ↦ (tunnel t s, tunnel_udp-step fuel s t ts e ∙ rw last refl)
        ]
  ]

  -- Without other sessions: a run of a tunneler leaves the shared list alone.
  abbrev pub Alone : Type 0
  Alone = (t : T) (s : Shared T W) → (tunnel t s).0.tunnelers ≡ s.tunnelers

  -- The reference: the first tunneler that is supported, or the last one, decides, and the list that
  -- stays begins with it.
  unfoldable pub first_supported : List T → Shared T W → Shared T W × Option Error
  first_supported [] s = (s, some no_tunnelers)
  first_supported (t ∷ []) s = tunnel t s
  first_supported (t ∷ u ∷ ts) s =
      let (s', e) = tunnel t s in
      let rest = first_supported (u ∷ ts) (record s' { tunnelers = u ∷ ts }) in
      if is e unsupported then rest else (s', e)

  first_supported-cons :
      (t u : T) (ts : List T) (s : Shared T W)
      → first_supported (t ∷ u ∷ ts) s ≡ (
          if is (tunnel t s).1 unsupported
          then first_supported (u ∷ ts) (record ((tunnel t s).0) { tunnelers = u ∷ ts })
          else tunnel t s)
  unfolding first_supported
  first_supported-cons t u ts s = refl

  -- When a run of a tunneler leaves the shared list alone, `TunnelUDP` returns what the first
  -- supported tunneler returns, or the last one if none is, and drops those before it for good.
  pub tunnel_udp-first_supported :
      (ts : List T) (fuel : ℕ) (s : Shared T W)
      → Alone
      → s.tunnelers ≡ ts
      → length ts < fuel
      → tunnel_udp fuel s ≡ some (first_supported ts s)
  tunnel_udp-first_supported ts zero s alone e h = absurd (omega arith)
  tunnel_udp-first_supported [] (suc fuel) s alone e h =
      tunnel_udp-empty fuel s e ∙ (unfold first_supported in refl)
  tunnel_udp-first_supported (t ∷ []) (suc fuel) s alone e h =
      tunnel_udp-step fuel s t [] e ∙ (unfold first_supported in ground arith)
  tunnel_udp-first_supported (t ∷ u ∷ ts) (suc fuel) s alone e h =
      let s' = (tunnel t s).0 in
      let left : s'.tunnelers ≡ t ∷ u ∷ ts = alone t s ∙ e in
      let next : Shared T W = record s' { tunnelers = u ∷ ts } in
      let same : dropped s' ≡ next =
        ap (λ (l : List T). record s' { tunnelers = behind_first l }) left in
      let rest : tunnel_udp fuel next ≡ some (first_supported (u ∷ ts) next) =
        tunnel_udp-first_supported (u ∷ ts) fuel next alone refl (omega arith) in
      tunnel_udp-step fuel s t (u ∷ ts) e
      ∙ ground
          (arith, ap length left, ap (tunnel_udp fuel) same, rest, first_supported-cons t u ts s)
