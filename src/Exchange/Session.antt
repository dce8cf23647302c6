-- ===== src/Exchange/Session.antt =====
-- A session from its beginning: the handshake (`client_negotiate` and `server_negotiate` of
-- luarpc_protocol.c), then a call of a remote function over the link that it has set up.
use luarpc.Base.{ℕ, ◌^◌, ◌<◌, ◌≡◌, refl, ap, ◌∙◌, sym, Bytes, List, [], ◌∷◌, ◌++◌, length}
use luarpc.Codes.{rpc_cmd_con}
use luarpc.Machine.{Machine}
use luarpc.Transport.{Transport}
use luarpc.Lua.{Helper, Value, Lua}
use luarpc.State.{State, Cmd, ok, ◌>>◌, and_then}
use luarpc.Wire.Laws.{emit, feed, feed-append, emit-emit, Works}
use luarpc.Negotiate.{client_negotiate, server_negotiate, set_local, set_server, adopt, reconcile}
use luarpc.Negotiate.Agreement.{hello, answer, Agree, reconcile-Agree, client_run, server_run}
use luarpc.Helper.Remote.{joined, announced}
use luarpc.Variable.Name.{tokens}
use luarpc.Variable.Tree.{PathTo, Tree}
use luarpc.Variable.Lists.{HoldsAll, BuildsAll, pushed}
use luarpc.Client.{remote_call}
use luarpc.Client.Requests.{Usable, timed, in_com}
use luarpc.Server.{rpc_dispatch_worker}
use luarpc.Exchange.{Paired, exchange_call}

-- The transports of both ends after the handshake.
abbrev pub client_end : Machine → Machine → Transport → Transport → Transport
client_end m n c s = adopt (answer m n s) (set_local m c)

abbrev pub server_end : Machine → Machine → Transport → Transport
server_end m n s = reconcile n (hello m) (set_server n s)

module _ {G : Type 0} {A : Type 0} (m n : Machine) where
  -- A command of the client behind its handshake, whose answer and that of the handshake arrive
  -- together.
  client_session :
      (f : Cmd G A) (t : Transport) (rest : Bytes) (a : A) (c r : State G)
      → Works c
      → f (feed rest (emit (rpc_cmd_con ∷ hello m) (record c { tpt = client_end m n c.tpt t })))
        ≡ ok a r
      → (client_negotiate m >> f) (feed (answer m n t ++ rest) c) ≡ ok a r
  client_session f t rest a c r w run =
      ap (client_negotiate m >> f) (feed-append c (answer m n t) rest)
      ∙ ap (λ x. and_then x λ _. f)
          (client_run m n (feed rest c) t (record { opened = w.opened; unbroken = w.unbroken }))
      ∙ run

  server_session :
      (f : Cmd G A) (rest : Bytes) (a : A) (s r : State G)
      → Works s
      → f (feed rest (emit (answer m n s.tpt) (record s { tpt = server_end m n s.tpt }))) ≡ ok a r
      → (server_negotiate n >> f) (feed ((rpc_cmd_con ∷ hello m) ++ rest) s) ≡ ok a r
  server_session f rest a s r w run =
      ap (server_negotiate n >> f) (feed-append s (rpc_cmd_con ∷ hello m) rest)
      ∙ ap (λ x. and_then x λ _. f)
          (server_run m n (feed rest s) (record { opened = w.opened; unbroken = w.unbroken }))
      ∙ run

module _ {G H : Type 0} (here : Lua G) (there : Lua H) (m n : Machine) where
  -- Two ends whose links have just been opened, and a helper of the client's.
  pub record Fresh (h : Helper) (c : State G) (s : State H) : Type 0 where
    pub usable : Usable h c
    pub framed : announced h ≡ length (joined h)
    pub short : length (joined h) < 2 ^ 31
    pub client_works : Works c
    pub server_works : Works s
    pub client_size : m.sizeof_number < 128
    pub server_size : n.sizeof_number < 128

  -- What the handshake makes of them.
  Fresh-Paired :
      (h : Helper) (c : State G) (s : State H)
      → Fresh h c s
      → Paired here there m n h
          (emit (rpc_cmd_con ∷ hello m) (record c { tpt = client_end m n c.tpt s.tpt }))
          (emit (answer m n s.tpt) (record s { tpt = server_end m n s.tpt }))
  unfolding reconcile
  Fresh-Paired h c s f =
      let a : Agree m n (client_end m n c.tpt s.tpt) (server_end m n s.tpt) =
        reconcile-Agree m n c.tpt s.tpt f.client_size f.server_size in
      record {
        usable = record {
          chain = f.usable.chain;
          depth_lt = f.usable.depth_lt;
          own = f.usable.own;
        };
        framed = f.framed;
        short = f.short;
        client_linked = record {
          works = record { opened = f.client_works.opened; unbroken = f.client_works.unbroken };
          agree = refl;
        };
        server_linked = record {
          works = record { opened = f.server_works.opened; unbroken = f.server_works.unbroken };
          agree = refl;
        };
        same_order = a.client_little ∙ sym a.server_little;
      }

  -- `helper( args )` as the first thing of a session, between any two machines whose numbers have
  -- fewer than 128 bytes and whose links have just been opened, of a function that the server finds
  -- and that returns, for a helper of the client's whose length is announced rightly; arguments and
  -- results hold trees, and are built of them, under the settings of the handshake. There are a
  -- request and an answer such that the client, given the server's answer to the handshake and then
  -- that answer, writes its handshake and then that request, has built the trees of the results in
  -- order and returns their number; and the server, given exactly what the client writes, writes
  -- exactly what the client is given, having called the function with what it built of the arguments.
  pub session_call :
      (d e : ℕ) (h : Helper) (f : ℕ) (args : List Tree) (vs : List Value) (g₁ : H) (ws : List Value)
      (g₂ g₃ : H) (results : List Value) (ts : List Tree) (rs : List Value) (k : G) (c : State G)
      (s : State H)
      → HoldsAll here m (client_end m n c.tpt s.tpt) c.self d c.lua args vs
      → length args ≡ length vs
      → PathTo there (tokens (joined h)) s.lua (Value.function f) g₁
      → BuildsAll there n (server_end m n s.tpt) args g₁ ws g₂
      → there.pcall g₂ (Value.function f) ws ≡ (0, results, g₃)
      → HoldsAll there n (server_end m n s.tpt) s.self e g₃ ts results
      → BuildsAll here m (client_end m n c.tpt s.tpt) ts c.lua rs k
      → length args < 2 ^ 31
      → length ts < 2 ^ 31
      → length results ≡ length ts
      → Fresh h c s
      → (let c₀ : State G = record c { tpt = client_end m n c.tpt s.tpt } in
          let s₀ : State H = record s { tpt = server_end m n s.tpt; stack = []; lua = g₃ } in
          (ask reply : Bytes) × ((client_negotiate m >> remote_call here m d h vs)
              (feed (answer m n s.tpt ++ reply) c)
            ≡ ok
                (length ts)
                (emit ((rpc_cmd_con ∷ hello m) ++ ask) (timed in_com (pushed rs k c₀))))
          × ((server_negotiate n >> rpc_dispatch_worker there n e)
                (feed ((rpc_cmd_con ∷ hello m) ++ ask) s)
              ≡ ok tt (emit (answer m n s.tpt ++ reply) s₀)))
  session_call d e h f args vs g₁ ws g₂ g₃ results ts rs k c s hold same path build run holds builds
        la lt lr fresh =
      let c₀ : State G = record c { tpt = client_end m n c.tpt s.tpt } in
      let s₀ : State H = record s { tpt = server_end m n s.tpt; stack = []; lua = g₃ } in
      let x =
        exchange_call here there m n d e h f args vs g₁ ws g₂ g₃ results ts rs k
          (emit (rpc_cmd_con ∷ hello m) c₀)
          (emit (answer m n s.tpt) (record s { tpt = server_end m n s.tpt })) hold same path build
          run holds builds la lt lr (Fresh-Paired h c s fresh) in
      (
        x.0,
        x.1,
        client_session m n (remote_call here m d h vs) s.tpt x.1 (length ts) c _ fresh.client_works
              x.2
            ∙ ap (ok (length ts))
                (emit-emit (timed in_com (pushed rs k c₀)) (rpc_cmd_con ∷ hello m) x.0),
        server_session m n (rpc_dispatch_worker there n e) x.0 tt s _ fresh.server_works x.3
            ∙ ap (ok tt) (emit-emit s₀ (answer m n s.tpt) x.1),
      )
