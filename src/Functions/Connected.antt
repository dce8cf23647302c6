-- ===== src/Functions/Connected.antt =====
-- `rpc_client` (luarpc.c) for a server that is there and answers the handshake.
use luarpc.Base.{
  ℕ, ◌+◌, ◌<◌, ◌≡◌, refl, ap, ◌∙◌, pos, Bytes, true, none, some, [], ◌∷◌, ◌++◌, ==_self, arith,
}
use luarpc.Machine.{Machine}
use luarpc.Transport.{Transport}
use luarpc.Codes.{rpc_cmd_con}
use luarpc.Lua.{Lua, number, string, client}
use luarpc.State.{State, is_open}
use luarpc.Socket.{finished}
use luarpc.Socket.Lifecycle
use luarpc.Wire.Laws.{emit}
use luarpc.Negotiate.{client_negotiate, set_local, adopt}
use luarpc.Negotiate.Agreement.{hello, answer, client_run}
use luarpc.Variable.Name.{c_string}
use luarpc.Nodes.{update}
use luarpc.Process.{
  Process, Network, continues, and_on, transport_at, view, put_back, after_run, after_io, set_tpt,
  Act,
}
use luarpc.Process.Streams.{attach, streaming, attach-streaming, arrived, view-streaming}
use luarpc.Functions.{Numbers, Values, argument, opt_number, with_timeval}
use luarpc.Functions.Ports.{Ordered, port_of, port_of-whole, get_port_number}
use luarpc.Functions.Connecting.{
  Resolver, client_create, resolved, transport_open_connection, connect_client, named, set_timeouts,
  try_client, caught, rpc_client,
}
use luarpc.Functions.Timeouts.{Exact, set_tpt-at, timeval, timeval_from_ms-timeval}
use luarpc.Functions.Unresolved.{called}

module _ {G W : Type 0} (lua : Lua G) (m : Machine) (net : Network W) (nums : Numbers)
    (values : Values) (gethostbyname : Resolver W) (e : Exact nums) (o : Ordered nums) where
  -- What follows the port number.
  abbrev go_on : Bytes → ℕ → ℕ → Act G W (Unit {0})
  go_on host a port p =
      resolved lua m net nums values gethostbyname a port (gethostbyname (c_string host) p.world) p

  -- The host resolved to `ip`, and the connection made, `v` with the descriptor `fd`.
  pub record Reached (host : Bytes) (ip port : ℕ) (t v : Transport) (fd : ℕ) (w₀ w w' : W)
      : Type 0 where
    pub found : gethostbyname (c_string host) w₀ ≡ (some (true, ip), w)
    pub made : Lifecycle.transport_open_connection net.sys ip port t w ≡ finished tt v w'
    pub descriptor : v.fd ≡ some fd

  opened-streaming :
      (a port : ℕ) (host : Bytes) (ip fd : ℕ) (v : Transport) (w w' : W) (p : Process G W)
      → argument nums values 1 p ≡ string host
      → argument nums values 2 p ≡ number (nums.of_int (pos port))
      → port < 65536
      → lua.tolstring p.lua (string host) ≡ some host
      → values.tonumber (number (nums.of_int (pos port))) ≡ some (nums.of_int (pos port))
      → Reached host ip port (transport_at p a) v fd p.world w w'
      → transport_open_connection lua m net nums values gethostbyname a p
        ≡ continues tt (streaming net a fd v w' p)
  unfolding transport_open_connection resolved get_port_number
  opened-streaming a port host ip fd v w w' p a₁ a₂ l t n r =
      ap (λ x. named lua m net nums values gethostbyname a (lua.tolstring p.lua x) p) a₁
      ∙ ap (λ x. named lua m net nums values gethostbyname a x p) t
      ∙ ap (λ x. and_on x (go_on host a))
          (ap (λ x. port_of nums values (values.tonumber x) p) a₂
            ∙ ap (λ x. port_of nums values x p) n
            ∙ port_of-whole nums values e o port p l)
      ∙ ap (λ x. resolved lua m net nums values gethostbyname a port x p) r.found
      ∙ ap
          (λ x. and_on (after_io a (record p { world = w }) x) λ _ p. continues tt (attach net a p))
          r.made
      ∙ ap (continues tt) (attach-streaming net a fd v w' p r.descriptor)

  -- A client whose handshake has succeeded: its transport holds what was agreed on, the bytes behind
  -- the answer are still to be read, and the request has been written.
  pub record Shaken (a : ℕ) (v : Transport) (reply rest : Bytes) (before : Bytes) (q : Process G W)
      : Type 0 where
    pub agreed : transport_at q a ≡ adopt reply (set_local m v)
    pub unread : (q.links a).input ≡ rest
    pub written : (q.links a).output ≡ before ++ rpc_cmd_con ∷ hello m

  shaken :
      (ms : Machine) (st : Transport) (a fd : ℕ) (v : Transport) (rest : Bytes) (w : W)
      (p : Process G W)
      → is_open v ≡ true
      → (net.arriving fd w).input ≡ answer m ms st ++ rest
      → (net.arriving fd w).broken ≡ none
      → (let p₁ = streaming net a fd v w p in
          (q : Process G W) × (after_run a p₁ (client_negotiate m (view a p₁)) ≡ continues tt q)
          × (q.stack ≡ p.stack)
          × Shaken a v (answer m ms st) rest (net.arriving fd w).output q)
  unfolding view put_back
  shaken ms st a fd v rest w p op answers unbroken =
      let p₁ = streaming net a fd v w p in
      let c : State G = arrived net a fd v rest w p in
      let reply = answer m ms st in
      let s₁ = emit (rpc_cmd_con ∷ hello m) (record c { tpt = adopt reply (set_local m v) }) in
      (
        put_back a s₁ p₁,
        ap (λ s. after_run a p₁ (client_negotiate m s))
              (view-streaming net a fd v reply rest w p answers)
            ∙ ap (after_run a p₁)
                (client_run m ms c st (record { opened = op; unbroken = unbroken })),
        refl,
        record {
          agreed = rw (==_self a, transport_at) refl;
          unread = rw (==_self a) refl;
          written = rw (==_self a) refl;
        },
      )

  -- `rpc.client` with a host that resolves and a port, where the connection is made and a server
  -- answers the handshake: one result is returned, the handle on top of the stack, with default
  -- timeouts; its transport holds the settings of the answer, what follows the answer is unread, and
  -- the handshake's request has been written and nothing else.
  pub rpc_client-connected :
      (ms : Machine) (st u v : Transport) (port ip fd : ℕ) (host rest : Bytes) (w w' : W)
      (p : Process G W)
      → port < 65536
      → lua.tolstring p.lua (string host) ≡ some host
      → values.tonumber (number (nums.of_int (pos port))) ≡ some (nums.of_int (pos port))
      → Reached host ip port
          (set_timeouts lua m net nums values gethostbyname (timeval 1000) (timeval 3000) u)
          v
          fd
          p.world
          w
          w'
      → is_open v ≡ true
      → (net.arriving fd w').input ≡ answer m ms st ++ rest
      → (net.arriving fd w').broken ≡ none
      → (q : Process G W) × (rpc_client lua m net nums values gethostbyname u
            (called nums host port p)
          ≡ continues 1 q)
        × (q.stack ≡ client p.fresh ∷ (called nums host port p).stack)
        × Shaken p.fresh v (answer m ms st) rest (net.arriving fd w').output q
  unfolding rpc_client try_client caught client_create opt_number with_timeval connect_client
  rpc_client-connected ms st u v port ip fd host rest w w' p l t n r op answers unbroken =
      let a = p.fresh in
      let timed = set_timeouts lua m net nums values gethostbyname (timeval 1000) (timeval 3000) in
      let created = record (called nums host port p) {
        links =
            update p.links a
              (record { tpt = u; input = []; errno = 0; output = []; broken = none });
        stack = client a ∷ (called nums host port p).stack;
        fresh = a + 1;
      } in
      let ready = set_tpt a (timed (transport_at created a)) created in
      let at : transport_at ready a ≡ timed u =
        set_tpt-at nums values e a (timed (transport_at created a)) created
        ∙ ap timed
            (let own : transport_at created a ≡ u = rw (==_self a, transport_at) refl in own) in
      let r' : Reached host ip port (transport_at ready a) v fd p.world w w' = record {
        found = r.found;
        made = ap (λ x. Lifecycle.transport_open_connection net.sys ip port x w) at ∙ r.made;
        descriptor = r.descriptor;
      } in
      let done = shaken ms st a fd v rest w' ready op answers unbroken in
      (
        done.0,
        rw
            (
              timeval_from_ms-timeval nums e 1000 (omega arith) (omega (arith, e.time_wide)),
              timeval_from_ms-timeval nums e 3000 (omega arith) (omega (arith, e.time_wide)),
            )
            (ap (caught lua m net nums values gethostbyname) (
              ap
                (λ x.
                  and_on x
                    λ _ p. and_on (after_run a p (client_negotiate m (view a p))) λ _. continues 1)
                (opened-streaming a port host ip fd v w w' ready refl refl l t n r')
              ∙ ap (λ x. and_on x λ _. continues 1) done.1)),
        done.2,
        done.3,
      )
