-- ===== src/Process/Loop.antt =====
-- `rpc_server` and `rpc_dispatch_accept` (luarpc.c), `transport_select` and `transport_delete`
-- (luarpc_socket.c). `fuel` bounds the rounds of each loop over the ring.
use luarpc.Base.{
  ℕ, zero, suc, ◌+◌, Bool, true, false, Option, none, some, List, [], ◌∷◌, ◌==◌, ◌&&◌, not,
  if◌then◌else◌,
}
use luarpc.Machine.{Machine}
use luarpc.Transport.{Transport, transport_create}
use luarpc.Lua.{Lua, Value}
use luarpc.State.{is_open}
use luarpc.Socket.Lifecycle.{transport_accept, transport_close}
use luarpc.Nodes.{Store, transport_new_list, transport_insert_to_list, transport_remove_from_list}
use luarpc.Negotiate.{server_negotiate}
use luarpc.Server.{rpc_dispatch_worker}
use luarpc.Process.Streams.{attach}
use luarpc.Process.{
  Process, Network, Step, continues, breaks, out_of_rounds, and_on, transport_at, set_tpt, view,
  after_run, after_io, or_else, Act,
}

module _ {G W : Type 0} (lua : Lua G) (m : Machine) (net : Network W) (d fuel : ℕ) where
  -- What `f` does with the transport of a node; only the head has none.
  unfoldable pub on_transport : {A : Type 0} → Option ℕ → (ℕ → Act G W A) → Act G W A
  on_transport none f p = breaks
  on_transport (some t) f p = f t p

  -- `free` gives back the transport, which is not used again here.
  unfoldable pub transport_delete : ℕ → Act G W (Unit {0})
  transport_delete t p = after_io t p (transport_close net.sys (transport_at p t) p.world)

  -- FD_SET and FD_ISSET with the descriptor -1 are undefined; the others are taken to be below
  -- FD_SETSIZE.
  unfoldable pub on_descriptor : {A : Type 0} → Option ℕ → (ℕ → Act G W A) → Act G W A
  on_descriptor none f p = breaks
  on_descriptor (some fd) f p = f fd p

  -- The first loop of `transport_select`, from behind `node`; `socks` is the set so far.
  unfoldable pub gather_rounds : (k node : ℕ) → List ℕ → Act G W (List ℕ)
  unfolding on_transport on_descriptor
  gather_rounds zero node socks p = out_of_rounds
  gather_rounds (suc k) node socks p =
      let n = p.store.next node in
      if n == p.list
      then continues socks p
      else on_transport (p.store.transport n)
          (λ t p. on_descriptor (transport_at p t).fd (λ fd. gather_rounds k n (fd ∷ socks)) p) p

  abbrev set_is_set : Bool → ℕ → Process G W → Process G W
  set_is_set b t p = set_tpt t (record (transport_at p t) { is_set = b }) p

  -- The second loop, `ready` being what `select` left in the set.
  unfoldable pub mark_rounds : (k node : ℕ) → (ℕ → Bool) → Act G W (Unit {0})
  unfolding on_transport on_descriptor
  mark_rounds zero node ready p = out_of_rounds
  mark_rounds (suc k) node ready p =
      let n = p.store.next node in
      if n == p.list
      then continues tt p
      else on_transport (p.store.transport n)
          (λ t p.
            on_descriptor (transport_at p t).fd
              (λ fd p. mark_rounds k n ready (set_is_set (ready fd) t p)) p)
          p

  -- `none` is a negative result.
  unfoldable pub selected : Option (ℕ → Bool) × W → Act G W Bool
  unfolding mark_rounds
  selected (none, w) p = continues false (record p { world = w })
  selected (some ready, w) p =
      and_on (mark_rounds fuel p.list ready (record p { world = w })) λ _. continues true

  -- Whether the result is above -1.
  unfoldable pub transport_select : Act G W Bool
  unfolding gather_rounds selected
  transport_select p =
      and_on (gather_rounds fuel p.list [] p) λ socks p. selected (net.select socks p.world) p

  unfoldable pub dispatch_to : ℕ → Act G W (Unit {0})
  dispatch_to t p = after_run t p (rpc_dispatch_worker lua m d (view t p))

  abbrev pub is_waiting : (server : ℕ) → Process G W → ℕ → Bool
  is_waiting server p t = (transport_at p t).is_set && not (t == server)

  unfoldable pub serve : (server t : ℕ) → Act G W (Unit {0})
  unfolding dispatch_to
  serve server t p = if is_waiting server p t then dispatch_to t p else continues tt p

  -- The first loop of `rpc_server` over the ring, from behind `node`.
  unfoldable pub serve_rounds : (server k node : ℕ) → Act G W (Unit {0})
  unfolding serve on_transport
  serve_rounds server zero node p = out_of_rounds
  serve_rounds server (suc k) node p =
      let n = p.store.next node in
      if n == p.list
      then continues tt p
      else on_transport (p.store.transport n)
          (λ t p. and_on (serve server t p) λ _. serve_rounds server k n) p

  -- What `transport_remove_from_list` gives, before the transport is deleted.
  abbrev pub removed : Process G W → Option (ℕ × Store) → Step (Process G W) ℕ
  removed p none = out_of_rounds
  removed p (some (r, s)) = continues r (record p { store = s })

  unfoldable pub remove : ℕ → Act G W ℕ
  unfolding transport_delete
  remove t p =
      and_on (removed p (transport_remove_from_list fuel p.list t p.store))
        λ r p. and_on (transport_delete t p) λ _. continues r

  -- The node behind which the sweep goes on: that in front of one that was removed.
  unfoldable pub sweep : (n t : ℕ) → Act G W ℕ
  unfolding remove
  sweep n t p = if (transport_at p t).must_die then remove t p else continues n p

  -- The second loop.
  unfoldable pub sweep_rounds : (k node : ℕ) → Act G W (Unit {0})
  unfolding sweep on_transport
  sweep_rounds zero node p = out_of_rounds
  sweep_rounds (suc k) node p =
      let n = p.store.next node in
      if n == p.list
      then continues tt p
      else on_transport (p.store.transport n) (λ t p. and_on (sweep n t p) λ r. sweep_rounds k r) p

  unfoldable pub greet : (server worker : ℕ) → Act G W (Unit {0})
  greet server worker p =
      and_on
        (after_io worker p
          (transport_accept net.sys (transport_at p server) (transport_at p worker) p.world))
        λ _ p.
          let q = attach net worker p in after_run worker q (server_negotiate m (view worker q))

  abbrev pub new_worker : Transport
  new_worker = record transport_create { timeout = transport_create.com_timeout }

  -- A new transport in front of the list.
  abbrev pub enlist : Transport → Process G W → Process G W
  enlist u p =
      let q = set_tpt p.fresh u p in
      record q { store = transport_insert_to_list p.list p.fresh p.store; fresh = p.fresh + 1 }

  unfoldable pub rpc_dispatch_accept : (server : ℕ) → Act G W (Unit {0})
  unfolding greet remove
  rpc_dispatch_accept server p =
      or_else (greet server p.fresh (enlist new_worker p))
        λ q. and_on (remove p.fresh q) λ _. continues tt

  unfoldable pub accept_waiting : (server : ℕ) → Act G W (Unit {0})
  unfolding rpc_dispatch_accept
  accept_waiting server p =
      if (transport_at p server).is_set then rpc_dispatch_accept server p else continues tt p

  -- What follows a `select` that did not fail.
  unfoldable pub tend : (server : ℕ) → Act G W (Unit {0})
  unfolding serve_rounds sweep_rounds accept_waiting
  tend server p =
      and_on (serve_rounds server fuel p.list p)
        λ _ p. and_on (sweep_rounds fuel p.list p) λ _. accept_waiting server

  -- A round of the loop of `rpc_server`.
  unfoldable pub round : (server : ℕ) → Act G W (Unit {0})
  unfolding transport_select tend
  round server p =
      and_on (transport_select p) λ ready p. if ready then tend server p else continues tt p

  -- As many rounds, and whether the server goes on after them: the loop is left where the transport
  -- of the server is closed.
  unfoldable pub rounds : (k server : ℕ) → Act G W Bool
  unfolding round
  rounds zero server p = continues true p
  rounds (suc k) server p =
      if is_open (transport_at p server)
      then (and_on (round server p) λ _. rounds k server)
      else continues false p

  abbrev new_list : Process G W → Process G W
  new_list p = let (head, s) = transport_new_list p.store in record p { store = s; list = head }

  -- The transport is put into the registry and from there on the stack again.
  abbrev pub anchor : Process G W → ℕ × Process G W
  anchor p = let (r, g) = lua.ref p.lua Value.userdata in (r, record p { lua = g })

  -- The list with the server's transport.
  abbrev pub start_list : (server : ℕ) → Process G W → Process G W
  start_list server p =
      let q = new_list p in record q { store = transport_insert_to_list q.list server q.store }

  unfoldable pub shut_down : (server shref : ℕ) → Act G W (Unit {0})
  shut_down server shref p =
      let q = record p { lua = lua.unref p.lua (some shref) } in
      after_io server q (transport_close net.sys (transport_at q server) q.world)

  unfoldable pub run_server : (k server : ℕ) → Act G W (Unit {0})
  unfolding rounds shut_down
  run_server k server p =
      let (shref, q) = anchor (start_list server p) in
      and_on (rounds k server q) λ on q. if on then out_of_rounds else shut_down server shref q
