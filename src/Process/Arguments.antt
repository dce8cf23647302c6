-- ===== src/Process/Arguments.antt =====
-- The arguments of `rpc_server` (luarpc.c), which `transport_open_listener` (luarpc_socket.c) checks.
use luarpc.Base.{
  ℕ, ◌<◌, ◌≡◌, refl, ◌∙◌, ℤ, pos, negsuc, Bytes, Bool, true, false, Option, none, some, length,
  ◌==◌, if◌then◌else◌, ==_self,
}
use luarpc.Machine.{Machine}
use luarpc.Transport.{Transport}
use luarpc.Lua.{Lua, Value}
use luarpc.State.{ok, raise}
use luarpc.Socket.Lifecycle
use luarpc.ErrorHandler.{check_num_args}
use luarpc.Functions.{Numbers, Values, argument}
use luarpc.Functions.Ports.{
  Casts, Checked, accepted, rejected, port_of, in_range, get_port_number, get_port_number-Checked,
}
use luarpc.Process.{
  Process, Network, Step, continues, raises, breaks, and_on, transport_at, view, put_back,
  after_run, after_io,
}
use luarpc.Process.Keeping.{Keeps, Keeps-if, Keeps-and_on}
use luarpc.Process.Starting.{new_server, listener_port, transport_open_listener, server_create}

module _ {G W : Type 0} (lua : Lua G) (m : Machine) (net : Network W) (d fuel : ℕ) (nums : Numbers)
    (values : Values) where
  -- Finding the port changes nothing that is looked at here.
  port_of-Keeps :
      (I : Process G W → Type 0) (o : Option Bytes) (p : Process G W)
      → I p
      → Keeps I (port_of nums values o p)
  port_of-Keeps I none p h = h
  port_of-Keeps I (some x) p h =
      Keeps-if I (nums.less x (nums.of_int (pos 0))) _ _ (λ _. h)
        λ _.
          Keeps-if I (nums.less (nums.of_int (pos 65535)) x) _ _ (λ _. h)
            (λ _. in_range-Keeps (nums.to_int x))
    where
      in_range-Keeps : (c : Option ℤ) → Keeps I (in_range nums values x c p)
      in_range-Keeps none = tt
      in_range-Keeps (some (pos n)) =
          Keeps-if I (nums.equal x (nums.of_int (pos n))) _ _ (λ _. h) (λ _. h)
      in_range-Keeps (some (negsuc n)) = tt

  counted-Keeps :
      (I : Process G W → Type 0) (b : Bool) (server n : ℕ) (v : Value) (p : Process G W)
      → I (put_back server (view server p) p)
      → Keeps I (after_run server p (if b then ok n (view server p) else raise v (view server p)))
  counted-Keeps I true server n v p h = h
  counted-Keeps I false server n v p h = h

  pub listener_port-Keeps :
      (server : ℕ) (p : Process G W)
      → Keeps (λ q. q.fresh ≡ p.fresh) (listener_port lua m net d fuel nums values server p)
  unfolding listener_port check_num_args get_port_number put_back view
  listener_port-Keeps server p =
      let I : Process G W → Type 0 = λ q. q.fresh ≡ p.fresh in
      Keeps-and_on I (after_run server p (check_num_args lua 2 (view server p))) _
        (counted-Keeps I (length p.stack == 2) server (length p.stack) _ p refl)
        λ _ q h. port_of-Keeps I (values.tonumber (argument nums values 1 q)) q h

  -- How `server_create` begins: a Lua error before any system call, or a listener for a port of 16
  -- bits, on the system as it was and the transport as `transport_init` left it; or, where the number
  -- of the port is NaN, an undefined cast.
  pub data Begins (u : Transport) (p : Process G W) (r : Step (Process G W) ℕ) : Type 0 where
    refused : (v : Value) (q : Process G W) → q.world ≡ p.world → r ≡ raises v q → Begins u p r
    opens :
        (port : ℕ) (q : Process G W)
        → port < 65536
        → q.world ≡ p.world
        → transport_at q p.fresh ≡ Lifecycle.transport_init net.sys u
        → r
          ≡ and_on
              (after_io p.fresh q
                (Lifecycle.transport_open_listener net.sys port (transport_at q p.fresh) q.world))
              (λ _. continues p.fresh)
        → Begins u p r
    undefined :
        (x : Bytes)
        → values.tonumber (argument nums values 1 (new_server lua m net d fuel nums values u p))
          ≡ some x
        → nums.equal x x ≡ false
        → r ≡ breaks
        → Begins u p r

  abbrev opening : ℕ → Step (Process G W) ℕ → Step (Process G W) ℕ
  opening server r =
      and_on
        (and_on r λ port q.
          after_io server q
            (Lifecycle.transport_open_listener net.sys port (transport_at q server) q.world))
        (λ _. continues server)

  Checked-Begins :
      (u : Transport) (p q : Process G W) (r : Step (Process G W) ℕ)
      → q.world ≡ p.world
      → transport_at q p.fresh ≡ Lifecycle.transport_init net.sys u
      → Checked nums
          (values.tonumber (argument nums values 1 (new_server lua m net d fuel nums values u p)))
          q
          r
      → Begins u p (opening p.fresh r)
  Checked-Begins u p q r e t (accepted {port} l) = opens port q l e t refl
  Checked-Begins u p q r e t (rejected {v}) = refused v q e refl
  Checked-Begins u p q r e t (Checked.undefined {d} o nan) = undefined d o nan refl

  counted-Begins :
      (u : Transport) (p q : Process G W) (b : Bool) (n : ℕ) (v : Value)
      → (let q' = put_back p.fresh (view p.fresh q) q in
          (q'.world ≡ p.world)
          × (transport_at q' p.fresh ≡ Lifecycle.transport_init net.sys u)
          × Checked nums
              (values.tonumber
                (argument nums values 1 (new_server lua m net d fuel nums values u p)))
              q'
              (get_port_number nums values 1 q'))
      → Begins u p (
          opening p.fresh (
            and_on
              (after_run p.fresh q (if b then ok n (view p.fresh q) else raise v (view p.fresh q)))
              λ _. get_port_number nums values 1))
  counted-Begins u p q true n v (e, t, c) = Checked-Begins u p _ _ e t c
  counted-Begins u p q false n v (e, t, c) = refused v _ e refl

  put_back-view :
      (t : ℕ) (q : Process G W) → transport_at (put_back t (view t q) q) t ≡ transport_at q t
  unfolding put_back view
  put_back-view t q = rw (==_self t, transport_at) refl

  new_server-init :
      (u : Transport) (p : Process G W)
      → transport_at (new_server lua m net d fuel nums values u p) p.fresh
        ≡ Lifecycle.transport_init net.sys u
  new_server-init u p = rw (==_self p.fresh, transport_at) refl

  -- Whatever arguments rpc_server is called with: either a Lua error is raised before any system call
  -- is made, or the listener is opened on a port below 65536, which the cast to 16 bits leaves as it
  -- is, by a transport as transport_init leaves it; or the number of the port is NaN, and the program
  -- runs into the undefined cast of it.
  pub server_create-Begins :
      (c : Casts nums) (u : Transport) (p : Process G W)
      → Begins u p (server_create lua m net d fuel nums values u p)
  unfolding server_create transport_open_listener listener_port check_num_args put_back view
  server_create-Begins c u p =
      let q = new_server lua m net d fuel nums values u p in
      let q' = put_back p.fresh (view p.fresh q) q in
      counted-Begins u p q (length q.stack == 2) (length q.stack) _ (
        refl,
        put_back-view p.fresh q ∙ new_server-init u p,
        get_port_number-Checked nums values c 1 q',
      )
