-- ===== src/Process/Settling.antt =====
-- The loops over the ring in `rpc_server` and `transport_select` (luarpc.c, luarpc_socket.c), and the
-- acceptance of a client, come to an end.
pub mod Rounds
use luarpc.Base.{
  ℕ, zero, suc, ◌+◌, ◌<◌, ◌≡◌, Bool, true, false, Option, none, some, List, [], ◌∷◌, length, ◌==◌,
  ==_self, if◌then◌else◌, arith,
}
use luarpc.Machine.{Machine}
use luarpc.Transport.{Transport}
use luarpc.Lua.{Lua}
use luarpc.State.{Run, ok, throw, raise, fault, out_of_fuel, is_open}
use luarpc.Socket.{IoRun, finished, thrown, crashed, unfinished}
use luarpc.Socket.Lifecycle.{
  System, expect, and_next, set_file, transport_setnonblock, accepted, accept_on, transport_accept,
}
use luarpc.Nodes.Ring.{Chain, Ring}
use luarpc.Process.{
  Process, Network, Step, continues, raises, throws, breaks, out_of_rounds, and_on, transport_at,
  after_run, after_io, or_else, Act,
}
use luarpc.Process.Keeping.{Keeps, Stable}
use luarpc.Process.Loop.{
  on_transport, on_descriptor, gather_rounds, mark_rounds, selected, transport_select, dispatch_to,
  serve_rounds, sweep_rounds, remove, greet, new_worker, enlist, rpc_dispatch_accept,
  accept_waiting, tend, round, rounds, start_list,
}
use luarpc.Process.Serving.{serve_all, serve_rounds-serve_all}
use luarpc.Process.Sweeping.{remove-Ring, sweep_rounds-survivors}
use luarpc.Process.Survivors.{survivors, length-survivors}
use luarpc.Process.Visiting.{
  gather_rounds-Stable, transport_select-Stable, serve_rounds-Stable, greet-Stable,
}
use luarpc.Process.Listed.{
  Lists, Lists-Stable, Listed, enlist-Lists, sweep_rounds-Lists, round-Listed, rounds-Listed,
  Keeps-weaken, start_list-Listed,
}

-- The step does not run out of the rounds that a loop is given.
abbrev pub Settles : {P A : Type 0} → Step P A → Type 0
Settles out_of_rounds = ⊥
Settles _ = Unit {0}

pub Settles-and_on :
    {P A B : Type 0} (I : P → Type 0) (r : Step P A) (k : A → P → Step P B)
    → Keeps I r
    → Settles r
    → ((a : A) (p : P) → I p → Settles (k a p))
    → Settles (and_on r k)
Settles-and_on I (continues a p) k h s g = g a p h
Settles-and_on I (raises v p) k h s g = tt
Settles-and_on I (throws e p) k h s g = tt
Settles-and_on I breaks k h s g = tt
Settles-and_on I out_of_rounds k h s g = s

pub Settles-next :
    {P A B : Type 0} (r : Step P A) (k : A → P → Step P B)
    → Settles r
    → ((a : A) (p : P) → Settles (k a p))
    → Settles (and_on r k)
Settles-next (continues a p) k s g = g a p
Settles-next (raises v p) k s g = tt
Settles-next (throws e p) k s g = tt
Settles-next breaks k s g = tt
Settles-next out_of_rounds k s g = s

pub Settles-if :
    {P A : Type 0} (b : Bool) (r s : Step P A)
    → Settles r
    → Settles s
    → Settles (if b then r else s)
Settles-if true r s h g = h
Settles-if false r s h g = g

module _ {G W : Type 0} where
  pub Settles-or_else :
      {A : Type 0} (I : Process G W → Type 0) (r : Step (Process G W) A)
      (k : Process G W → Step (Process G W) A)
      → Keeps I r
      → Settles r
      → ((p : Process G W) → I p → Settles (k p))
      → Settles (or_else r k)
  Settles-or_else I (continues a p) k h s g = tt
  Settles-or_else I (raises v p) k h s g = tt
  Settles-or_else I (throws e p) k h s g = g p h
  Settles-or_else I breaks k h s g = tt
  Settles-or_else I out_of_rounds k h s g = s

  after_run-Settles :
      {A : Type 0} (t : ℕ) (p : Process G W) (r : Run G A) → Settles (after_run t p r)
  after_run-Settles t p (ok a s) = tt
  after_run-Settles t p (throw e s) = tt
  after_run-Settles t p (raise v s) = tt
  after_run-Settles t p fault = tt
  after_run-Settles t p out_of_fuel = tt

-- A call of the transport layer ends.
abbrev Returns : {W A : Type 0} → IoRun W A → Type 0
Returns unfinished = ⊥
Returns _ = Unit {0}

after_io-Settles :
    {G W A : Type 0} (t : ℕ) (p : Process G W) (r : IoRun W A)
    → Returns r
    → Settles (after_io t p r)
after_io-Settles t p (finished a u w) h = tt
after_io-Settles t p (thrown e u w) h = tt
after_io-Settles t p crashed h = tt
after_io-Settles t p unfinished h = h

module _ {W : Type 0} (sys : System W) where
  expect-Returns : (r : Bool × W) (t : Transport) (w : W) → Returns (expect sys r t w)
  unfolding expect
  expect-Returns (true, w') t w = tt
  expect-Returns (false, w') t w = tt

  accepted-Returns : (r : Option ℕ × W) (t : Transport) (w : W) → Returns (accepted sys r t w)
  unfolding accepted transport_setnonblock set_file
  accepted-Returns (none, w') t w = tt
  accepted-Returns (some n, w') t w = filed (sys.fdopen w' n)
    where
      filed :
          (r : Bool × W)
          → Returns (
              and_next
                (set_file sys r (record t { fd = some n }) w')
                λ _ t w. transport_setnonblock sys n t w)
      filed (true, v) =
          expect-Returns
            (sys.set_flags (sys.get_flags v n).1 n (sys.or_nonblock (sys.get_flags v n).0)) _ _
      filed (false, v) = tt

  transport_accept-Returns :
      (listener t : Transport) (w : W) → Returns (transport_accept sys listener t w)
  unfolding transport_accept
  transport_accept-Returns listener t w = on_listener listener.fd
    where
      on_listener : (d : Option ℕ) → Returns (accept_on sys d t w)
      on_listener none = tt
      on_listener (some l) = accepted-Returns (sys.accept w l) t w

module _ {G W : Type 0} (lua : Lua G) (m : Machine) (net : Network W) (d fuel : ℕ) where
  on_descriptor-Settles :
      {A : Type 0} (o : Option ℕ) (f : ℕ → Act G W A) (p : Process G W)
      → ((fd : ℕ) → Settles (f fd p))
      → Settles (on_descriptor lua m net d fuel o f p)
  unfolding on_descriptor
  on_descriptor-Settles none f p h = tt
  on_descriptor-Settles (some fd) f p h = h fd

  pub gather_rounds-Settles :
      (k a : ℕ) (socks : List ℕ) (p : Process G W) (xs : List (ℕ × ℕ))
      → Chain p.store a xs p.list
      → length xs < k
      → Settles (gather_rounds lua m net d fuel k a socks p)
  unfolding gather_rounds on_transport
  gather_rounds-Settles zero a socks p xs c l = absurd (omega arith)
  gather_rounds-Settles (suc k) a socks p [] (c, c') l = rw (c, ==_self p.list) tt
  gather_rounds-Settles (suc k) a socks p ((n, t) ∷ xs) (c₀, c₁, c₂, c₃, c₄, c₅, c) l =
      let inside : (n == p.list) ≡ false = ground arith in
      rw (c₀, inside, c₂)
        (on_descriptor-Settles (transport_at p t).fd _ p
          λ fd. gather_rounds-Settles k n (fd ∷ socks) p xs c (omega arith))

  mark_rounds-Settles :
      (k a : ℕ) (set : ℕ → Bool) (p : Process G W) (xs : List (ℕ × ℕ))
      → Chain p.store a xs p.list
      → length xs < k
      → Settles (mark_rounds lua m net d fuel k a set p)
  unfolding mark_rounds on_transport
  mark_rounds-Settles zero a set p xs c l = absurd (omega arith)
  mark_rounds-Settles (suc k) a set p [] (c, c') l = rw (c, ==_self p.list) tt
  mark_rounds-Settles (suc k) a set p ((n, t) ∷ xs) (c₀, c₁, c₂, c₃, c₄, c₅, c) l =
      let inside : (n == p.list) ≡ false = ground arith in
      rw (c₀, inside, c₂)
        (on_descriptor-Settles (transport_at p t).fd _ p
          λ fd. mark_rounds-Settles k n set _ xs c (omega arith))

  pub selected-Settles :
      (r : Option (ℕ → Bool) × W) (p : Process G W) (xs : List (ℕ × ℕ))
      → Ring p.store p.list xs
      → length xs < fuel
      → Settles (selected lua m net d fuel r p)
  unfolding selected
  selected-Settles (none, w) p xs r l = tt
  selected-Settles (some set, w) p xs r l =
      Settles-next (mark_rounds lua m net d fuel fuel p.list set (record p { world = w })) _
        (mark_rounds-Settles fuel p.list set (record p { world = w }) xs r.2 l) (λ _ q. tt)

  pub serve_all-Settles :
      (ts : List ℕ) (p : Process G W) → Settles (serve_all lua m net d fuel ts p)
  unfolding dispatch_to
  serve_all-Settles [] p = tt
  serve_all-Settles (t ∷ ts) p =
      Settles-next (dispatch_to lua m net d fuel t p) _ (after_run-Settles t p _)
        (λ _ q. serve_all-Settles ts q)

  pub greet-Settles :
      (server worker : ℕ) (p : Process G W) → Settles (greet lua m net d fuel server worker p)
  unfolding greet
  greet-Settles server worker p =
      Settles-next
        (after_io worker p
          (transport_accept net.sys (transport_at p server) (transport_at p worker) p.world))
        _
        (after_io-Settles worker p _ (
          transport_accept-Returns net.sys (transport_at p server) (transport_at p worker) p.world))
        λ _ q. after_run-Settles worker _ _
