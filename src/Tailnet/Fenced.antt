-- ===== src/Tailnet/Fenced.antt =====
-- Calls of the dialer, and the order of its route checks and connections in the trace.
use womprat.Base.{
  Bytes, true, false, some, [], ◌∷◌, ◌≡◌, Result, ok, err, Bool-cases, Option-cases, ◌⊎◌, arith,
  inl, inr,
}
use womprat.Platform.{Addr}
use womprat.Tailnet.Defs.{
  Network, routed, opened, Trace, AddrPort, World, NetError, Action, is_routable, check_route,
  open_connection, ◌>>=◌, lift, continue, stack_connect,
}

-- the trace begins with a route check that passed
pub data Checked : Trace → Type 0 where
  checked : {ip : Addr} {h : Trace} → Checked (routed ip true ∷ h)

-- Every connection is opened directly after a route check that passed, to an address that is a
-- remote Tailscale route then; a check passes for such addresses only.
pub data Fenced (w : World) : Trace → Type 0 where
  start : Fenced w []
  refuse : {ip : Addr} {h : Trace} → Fenced w h → Fenced w (routed ip false ∷ h)
  check :
      {ip : Addr} {h : Trace}
      → is_routable w h ip ≡ true
      → Fenced w h
      → Fenced w (routed ip true ∷ h)
  connect :
      {network : Network} {address : Bytes} {target : AddrPort} {h : Trace}
      → Checked h
      → w.parse_addr_port address ≡ some target
      → is_routable w h target.addr ≡ true
      → Fenced w h
      → Fenced w (opened network address ∷ h)

module _ (w : World) where
  -- An action keeps a trace fenced.
  abbrev pub Keeps : {A : Type 0} → Action A → Type 0
  Keeps m = (h : Trace) → Fenced w h → Fenced w (m h).1

  -- It does so directly after a route check that passed.
  abbrev pub Opens : {A : Type 0} → Action A → Type 0
  Opens m = (h : Trace) → Checked h → Fenced w h → Fenced w (m h).1

  pub lift-Keeps : {A : Type 0} (f : Trace → Result NetError A) → Keeps (λ h. lift (f h) h)
  unfolding lift
  lift-Keeps f h t = t

  continue-Keeps :
      {A B : Type 0} (r : Result NetError A) (f : A → Action B)
      → ((a : A) → Keeps (f a))
      → Keeps (continue r f)
  continue-Keeps (ok a) f f-Keeps h t = f-Keeps a h t
  continue-Keeps (err e) f f-Keeps h t = t

  pub bind-Keeps :
      {A B : Type 0} (m : Action A) (f : A → Action B)
      → Keeps m
      → ((a : A) → Keeps (f a))
      → Keeps (m >>= f)
  unfolding ◌>>=◌
  bind-Keeps m f m-Keeps f-Keeps h t = continue-Keeps (m h).0 f f-Keeps (m h).1 (m-Keeps h t)

  pub bind-Opens :
      {A B : Type 0} (m : Action A) (f : A → Action B)
      → Opens m
      → ((a : A) → Keeps (f a))
      → Opens (m >>= f)
  unfolding ◌>>=◌
  bind-Opens m f m-Opens f-Keeps h c t = continue-Keeps (m h).0 f f-Keeps (m h).1 (m-Opens h c t)

  pub check_route-Opens :
      {A : Type 0} (ip : Addr) (k : Unit {0} → Action A)
      → ((a : Unit) → Opens (k a))
      → Keeps (check_route w ip >>= k)
  unfolding ◌>>=◌ check_route
  check_route-Opens ip k k-Opens h t = elim (Bool-cases (is_routable w h ip)) [
    | inl q ↦ rw q (k-Opens tt (routed ip true ∷ h) checked (check q t))
    | inr q ↦ rw q (refuse t)
  ]

  -- The stack is called for a routable target, or nothing happens.
  stack_connect-cases :
      (network : Network) (address : Bytes) (target : AddrPort) (h : Trace)
      → ((stack_connect w network address target h).1 ≡ h)
        ⊎ ((is_routable w h target.addr ≡ true)
            × ((stack_connect w network address target h).1 ≡ opened network address ∷ h))
  unfolding stack_connect
  stack_connect-cases network address target h = ground arith

  pub open_connection-Opens :
      (network : Network) (address : Bytes) → Opens (open_connection w network address)
  unfolding open_connection
  open_connection-Opens network address h c t = elim (Option-cases (w.parse_addr_port address)) [
    | inl q ↦ rw (open_connection, q) t
    | inr (target, q) ↦
        rw (open_connection, q)
          (elim (stack_connect-cases network address target h) [
            | inl e ↦ rw e t
            | inr (r, e) ↦ rw e (connect c q r t)
          ])
  ]
