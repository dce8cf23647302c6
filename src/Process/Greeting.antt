-- ===== src/Process/Greeting.antt =====
-- `rpc_dispatch_accept` (luarpc.c) for a client whose handshake is in order.
use luarpc.Base.{ℕ, ◌≡◌, ◌≢◌, refl, ap, ◌∙◌, Bytes, true, none, some, ◌∷◌, ◌++◌, ==_self}
use luarpc.Machine.{Machine}
use luarpc.Transport.{Transport}
use luarpc.Codes.{rpc_cmd_con}
use luarpc.Lua.{Lua}
use luarpc.State.{State, is_open}
use luarpc.Socket.{finished}
use luarpc.Socket.Lifecycle.{transport_accept}
use luarpc.Wire.Laws.{emit}
use luarpc.Negotiate.{server_negotiate, set_server, reconcile}
use luarpc.Negotiate.Agreement.{hello, answer, server_run}
use luarpc.Nodes.{update}
use luarpc.Nodes.Ring.{update-other}
use luarpc.Process.{
  Process, Network, Connection, continues, and_on, transport_at, view, put_back, after_run,
  after_io, or_else, Act,
}
use luarpc.Process.Streams.{attach, streaming, attach-streaming, arrived, view-streaming, opened-fd}
use luarpc.Process.Loop.{new_worker, remove, enlist, greet, rpc_dispatch_accept}

module _ {G W : Type 0} (lua : Lua G) (m : Machine) (net : Network W) (d fuel : ℕ) where
  -- What follows `transport_accept`.
  abbrev negotiated : ℕ → Unit {0} → Act G W (Unit {0})
  negotiated t _ p = let q = attach net t p in after_run t q (server_negotiate m (view t q))

  -- A connection that holds the transport `v`, and that of a state.
  abbrev held : ℕ → Transport → Process G W → Connection
  held t v p = record (p.links t) { tpt = v }

  abbrev answered : State G → Connection
  answered s = record {
    tpt = s.tpt;
    input = s.input;
    errno = s.errno;
    output = s.output;
    broken = s.broken;
  }

  -- Only the link of `t` changes.
  pub put_back-others :
      (t fd : ℕ) (v : Transport) (s : State G) (w : W) (p : Process G W) (a : ℕ)
      → a ≢ t
      → (put_back t s (streaming net t fd v w p)).links a ≡ p.links a
  unfolding put_back
  put_back-others t fd v s w p a ne =
      update-other (streaming net t fd v w p).links t (answered s) a ne
      ∙ update-other (update p.links t (held t v p)) t (record (net.arriving fd w) { tpt = v }) a ne
      ∙ update-other p.links t (held t v p) a ne

  -- A client that was accepted is enlisted, and then the handshake runs on its stream.
  pub greet-streaming :
      (server fd : ℕ) (v : Transport) (w : W) (p : Process G W)
      → server ≢ p.fresh
      → transport_accept net.sys (transport_at p server) (new_worker lua m net d fuel) p.world
        ≡ finished tt v w
      → v.fd ≡ some fd
      → (let p₀ = enlist lua m net d fuel (new_worker lua m net d fuel) p in
          let p₁ = streaming net p.fresh fd v w p₀ in
          greet lua m net d fuel server p.fresh p₀
          ≡ after_run p.fresh p₁ (server_negotiate m (view p.fresh p₁)))
  unfolding greet
  greet-streaming server fd v w p ne made f =
      let t = p.fresh in
      let p₀ = enlist lua m net d fuel (new_worker lua m net d fuel) p in
      let own : transport_at p₀ t ≡ new_worker lua m net d fuel =
        rw (==_self t, transport_at) refl in
      let listening : transport_at p₀ server ≡ transport_at p server =
        ap (λ (l : Connection). l.tpt) (update-other p.links t _ server ne) in
      ap (λ x. and_on (after_io t p₀ x) (negotiated t))
        (ap (λ u. transport_accept net.sys u (transport_at p₀ t) p₀.world) listening
          ∙ ap (λ u. transport_accept net.sys (transport_at p server) u p.world) own
          ∙ made)
      ∙ ap (λ q. after_run t q (server_negotiate m (view t q))) (attach-streaming net t fd v w p₀ f)

  -- What is left of the process `p` by the greeting of a client with the machine `mc`, which was
  -- accepted as `v` on `t`: the transport holds what was agreed on, the answer has been written on
  -- it, what follows the client's header is unread; the other transports are as they were.
  pub record Greeted (mc : Machine) (t : ℕ) (v : Transport) (before rest : Bytes)
      (p q : Process G W) : Type 0 where
    pub same_store : q.store ≡ p.store
    pub same_list : q.list ≡ p.list
    pub agreed : transport_at q t ≡ reconcile m (hello mc) (set_server m v)
    pub unread : (q.links t).input ≡ rest
    pub written : (q.links t).output ≡ before ++ answer mc m v
    pub others : (a : ℕ) → a ≢ t → q.links a ≡ p.links a
    pub same_stack : q.stack ≡ p.stack
    pub same_fresh : q.fresh ≡ p.fresh

  shaken :
      (mc : Machine) (t fd : ℕ) (v : Transport) (rest : Bytes) (w : W) (p : Process G W)
      → is_open v ≡ true
      → (net.arriving fd w).input ≡ (rpc_cmd_con ∷ hello mc) ++ rest
      → (net.arriving fd w).broken ≡ none
      → (let p₁ = streaming net t fd v w p in
          (q : Process G W) × (after_run t p₁ (server_negotiate m (view t p₁)) ≡ continues tt q)
          × Greeted mc t v (net.arriving fd w).output rest p q)
  unfolding view put_back
  shaken mc t fd v rest w p op sends unbroken =
      let p₁ = streaming net t fd v w p in
      let c : State G = arrived net t fd v rest w p in
      let s₁ = emit (answer mc m v) (record c { tpt = reconcile m (hello mc) (set_server m v) }) in
      (
        put_back t s₁ p₁,
        ap (λ s. after_run t p₁ (server_negotiate m s))
              (view-streaming net t fd v (rpc_cmd_con ∷ hello mc) rest w p sends)
            ∙ ap (after_run t p₁) (server_run mc m c (record { opened = op; unbroken = unbroken })),
        record {
          same_store = refl;
          same_list = refl;
          agreed = rw (==_self t, transport_at) refl;
          unread = rw (==_self t) refl;
          written = rw (==_self t) refl;
          others = put_back-others t fd v s₁ w p;
          same_stack = refl;
          same_fresh = refl;
        },
      )

  -- A client that was accepted and whose handshake is in order is enlisted: whatever its machine, the
  -- server goes on with it.
  pub rpc_dispatch_accept-Greeted :
      (server fd : ℕ) (mc : Machine) (v : Transport) (rest : Bytes) (w : W) (p : Process G W)
      → server ≢ p.fresh
      → transport_accept net.sys (transport_at p server) (new_worker lua m net d fuel) p.world
        ≡ finished tt v w
      → v.fd ≡ some fd
      → (net.arriving fd w).input ≡ (rpc_cmd_con ∷ hello mc) ++ rest
      → (net.arriving fd w).broken ≡ none
      → (q : Process G W) × (rpc_dispatch_accept lua m net d fuel server p ≡ continues tt q)
        × Greeted mc p.fresh v
            (net.arriving fd w).output
            rest
            (enlist lua m net d fuel (new_worker lua m net d fuel) p)
            q
  unfolding rpc_dispatch_accept
  rpc_dispatch_accept-Greeted server fd mc v rest w p ne made f sends unbroken =
      let t = p.fresh in
      let p₀ = enlist lua m net d fuel (new_worker lua m net d fuel) p in
      let done = shaken mc t fd v rest w p₀ (opened-fd v fd f) sends unbroken in
      (
        done.0,
        ap (λ x. or_else x (λ q. and_on (remove lua m net d fuel t q) λ _. continues tt))
            (greet-streaming server fd v w p ne made f ∙ done.1),
        done.2,
      )
