-- ===== src/Process.antt =====
-- The server process (luarpc.c): the ring of its transports, the transports by their addresses, and
-- what they share.
pub mod Streams
pub mod Loop
pub mod Starting
pub mod Arguments
pub mod Keeping
pub mod Visiting
pub mod Endless
pub mod Listed
pub mod Greeting
pub mod Refusing
pub mod Settling
pub mod Serving
pub mod Survivors
pub mod Sweeping
use luarpc.Base.{
  ℕ, zero, suc, ◌+◌, Bytes, Bool, true, false, Option, none, some, List, [], ◌∷◌, ◌==◌, ◌&&◌, not,
  if◌then◌else◌, ◌≡◌, refl, ap, ◌∙◌, Bool-cases, inl, inr, arith,
}
use luarpc.Errors.{Exception}
use luarpc.Machine.{Machine}
use luarpc.Transport.{Transport, transport_create}
use luarpc.Lua.{Lua, Value}
use luarpc.State.{State, Run, ok, throw, raise, fault, out_of_fuel, Sent, is_open}
use luarpc.Socket.{IoRun, finished, thrown, crashed, unfinished}
use luarpc.Socket.Lifecycle.{
  System, transport_init, transport_accept, transport_close, transport_open_listener,
}
use luarpc.Nodes.{
  Store, update, transport_new_list, transport_insert_to_list, transport_remove_from_list,
}
use luarpc.Negotiate.{server_negotiate}
use luarpc.Server.{rpc_dispatch_worker}

-- A transport and its stream, as in `State`.
pub record Connection : Type 0 where
  pub tpt : Transport
  pub input : Bytes
  pub errno : ℕ
  pub output : Bytes
  pub broken : Option ℕ

-- `list` is the head of the ring (transport_list), and `fresh` the next transport that `malloc`
-- gives. `G` is the state of Lua, `W` that of the system.
pub record Process (G W : Type 0) : Type 0 where
  pub store : Store
  pub list : ℕ
  pub links : ℕ → Connection
  pub fresh : ℕ
  pub stray : List (ℕ × Sent)
  pub stack : List Value
  pub lua : G
  pub handler : Option ℕ
  pub world : W

-- The system calls, `select` on a list of descriptors, which gives those that are ready, or `none`
-- for a negative result, and what the peer on a descriptor sends before the link fails.
pub record Network (W : Type 0) : Type 0 where
  pub sys : System W
  pub select : List ℕ → W → Option (ℕ → Bool) × W
  pub arriving : ℕ → W → Connection

-- `raises` is a Lua error and `throws` an exception that leave the server, `breaks` undefined
-- behaviour, a failed assertion or the end of the C stack, and `out_of_rounds` the end of a bound.
pub data Step (P A : Type 0) : Type 0 where
  continues : A → P → Step P A
  raises : Value → P → Step P A
  throws : Exception → P → Step P A
  breaks : Step P A
  out_of_rounds : Step P A

abbrev pub and_on : {P A B : Type 0} → Step P A → (A → P → Step P B) → Step P B
and_on (continues a p) k = k a p
and_on (raises v p) k = raises v p
and_on (throws e p) k = throws e p
and_on breaks k = breaks
and_on out_of_rounds k = out_of_rounds

-- A change at one place that does not change what `g` reads there.
pub update-kept :
    {A B : Type 0} (g : A → B) (f : ℕ → A) (t : ℕ) (v : A) (u : ℕ)
    → g v ≡ g (f t)
    → g (update f t v u) ≡ g (f u)
update-kept g f t v u h = elim (Bool-cases (u == t)) [
  | inl e ↦ let same : t ≡ u = ground arith in rw e (h ∙ ap (λ x. g (f x)) same)
  | inr e ↦ rw e refl
]

module _ {G W : Type 0} where
  abbrev pub transport_at : Process G W → ℕ → Transport
  transport_at p t = (p.links t).tpt

  abbrev pub set_link : ℕ → Connection → Process G W → Process G W
  set_link t l p = record p { links = update p.links t l }

  abbrev pub set_tpt : ℕ → Transport → Process G W → Process G W
  set_tpt t u p = set_link t (record (p.links t) { tpt = u }) p

  -- The state that a command on the transport `t` works on, and the process after it.
  unfoldable pub view : ℕ → Process G W → State G
  view t p = record {
    tpt = (p.links t).tpt;
    self = t;
    input = (p.links t).input;
    errno = (p.links t).errno;
    output = (p.links t).output;
    broken = (p.links t).broken;
    peer_open = λ u. is_open (transport_at p u);
    stray = p.stray;
    stack = p.stack;
    lua = p.lua;
    handler = p.handler;
  }

  unfoldable pub put_back : ℕ → State G → Process G W → Process G W
  put_back t s p = record p {
    links = update p.links t (record {
      tpt = s.tpt;
      input = s.input;
      errno = s.errno;
      output = s.output;
      broken = s.broken;
    });
    stray = s.stray;
    stack = s.stack;
    lua = s.lua;
    handler = s.handler;
  }

  abbrev pub after_run : {A : Type 0} → ℕ → Process G W → Run G A → Step (Process G W) A
  after_run t p (ok a s) = continues a (put_back t s p)
  after_run t p (throw e s) = throws e (put_back t s p)
  after_run t p (raise v s) = raises v (put_back t s p)
  after_run t p fault = breaks
  after_run t p out_of_fuel = breaks

  -- A call of the transport layer on `t`.
  abbrev pub after_io : {A : Type 0} → ℕ → Process G W → IoRun W A → Step (Process G W) A
  after_io t p (finished a u w) = continues a (set_tpt t u (record p { world = w }))
  after_io t p (thrown e u w) = throws e (set_tpt t u (record p { world = w }))
  after_io t p crashed = breaks
  after_io t p unfinished = out_of_rounds

  -- Try { r } Catch( e ) { k }
  abbrev pub or_else :
      {A : Type 0}
      → Step (Process G W) A
      → (Process G W → Step (Process G W) A)
      → Step (Process G W) A
  or_else (continues a p) k = continues a p
  or_else (raises v p) k = raises v p
  or_else (throws e p) k = k p
  or_else breaks k = breaks
  or_else out_of_rounds k = out_of_rounds

-- A command on a process.
abbrev pub Act : (G W A : Type 0) → Type 0
Act G W A = Process G W → Step (Process G W) A
