-- ===== src/Process/Refusing.antt =====
-- `rpc_dispatch_accept` (luarpc.c) for a client that does not begin with the handshake.
use luarpc.Base.{
  ℕ, ◌+◌, ◌<◌, ◌≡◌, ◌≢◌, refl, ap, true, [], ◌∙◌, Bytes, false, some, List, ◌∷◌, length, ==_self,
  ◌==◌, arith,
}
use mathlib.Core.Path.{subst}
use luarpc.Machine.{Machine}
use luarpc.Transport.{Transport}
use luarpc.Codes.{rpc_cmd_con}
use luarpc.Errors.{exception, nonfatal, err_header}
use luarpc.Lua.{Lua}
use luarpc.State.{State, throw, is_open}
use luarpc.Socket.{finished}
use luarpc.Socket.Lifecycle.{transport_accept}
use luarpc.Wire.Laws.{feed, read_uint8-feed}
use luarpc.Negotiate.{server_negotiate}
use luarpc.Nodes.Ring.{Ring, update-other}
use luarpc.Process.{
  Process, Network, continues, and_on, transport_at, view, put_back, after_run, throws, or_else,
}
use luarpc.Process.Loop.{new_worker, remove, enlist, rpc_dispatch_accept}
use luarpc.Process.Streams.{streaming, arrived, view-streaming, opened-fd}
use luarpc.Process.Greeting.{greet-streaming, put_back-others}
use luarpc.Process.Listed.{Lists, enlist-Lists}
use luarpc.Process.Sweeping.{remove-Ring, without}

module _ {G W : Type 0} (lua : Lua G) (m : Machine) (net : Network W) (d fuel : ℕ) where
  negotiate-refused :
      (b : ℕ) (s : State G)
      → b ≢ rpc_cmd_con
      → is_open s.tpt ≡ true
      → server_negotiate m (feed (b ∷ []) s) ≡ throw (exception nonfatal err_header) s
  unfolding server_negotiate
  negotiate-refused b s other op =
      let c : (b == rpc_cmd_con) ≡ false = ground arith in rw (read_uint8-feed s b op, c) refl

  refused_run :
      (t fd b : ℕ) (v : Transport) (rest : Bytes) (w : W) (p : Process G W)
      → is_open v ≡ true
      → (net.arriving fd w).input ≡ b ∷ rest
      → b ≢ rpc_cmd_con
      → (let p₁ = streaming net t fd v w p in
          (c : State G) × (after_run t p₁ (server_negotiate m (view t p₁))
            ≡ throws (exception nonfatal err_header) (put_back t c p₁))
          × (c.output ≡ (net.arriving fd w).output)
          × (c.stack ≡ p.stack))
  unfolding view
  refused_run t fd b v rest w p op sends other =
      let p₁ = streaming net t fd v w p in
      let c : State G = arrived net t fd v rest w p in
      (
        c,
        ap (λ s. after_run t p₁ (server_negotiate m s))
              (view-streaming net t fd v (b ∷ []) rest w p sends)
            ∙ ap (after_run t p₁) (negotiate-refused b c other op),
        refl,
        refl,
      )

  -- What the process `p` is after the refusal of the client that was accepted as `t`: the list has
  -- the same nodes and transports as before, the new transport's file is closed and nothing was
  -- written on it, and the other transports are as they were.
  pub record Refused (t : ℕ) (xs : List (ℕ × ℕ)) (before : Bytes) (p q : Process G W) : Type 0 where
    pub ring : Ring q.store q.list xs
    pub same_list : q.list ≡ p.list
    pub closed : (transport_at q t).file ≡ false
    pub unanswered : (q.links t).output ≡ before
    pub others : (a : ℕ) → a ≢ t → q.links a ≡ p.links a
    pub same_stack : q.stack ≡ p.stack

  -- A client that was accepted, and whose first byte is not RPC_CMD_CON, is taken out of the list
  -- again and closed, and the server goes on; a unit of fuel more than there are then transports is
  -- enough.
  pub rpc_dispatch_accept-Refused :
      (server fd b : ℕ) (v : Transport) (rest : Bytes) (w : W) (xs : List (ℕ × ℕ)) (p : Process G W)
      → Lists server xs p
      → length xs + 1 < fuel
      → transport_accept net.sys (transport_at p server) (new_worker lua m net d fuel) p.world
        ≡ finished tt v w
      → v.fd ≡ some fd
      → (net.arriving fd w).input ≡ b ∷ rest
      → b ≢ rpc_cmd_con
      → (q : Process G W) × (rpc_dispatch_accept lua m net d fuel server p ≡ continues tt q)
        × Refused p.fresh xs (net.arriving fd w).output p q
  unfolding rpc_dispatch_accept put_back
  rpc_dispatch_accept-Refused server fd b v rest w xs p i l made f sends other =
      let t = p.fresh in
      let u = new_worker lua m net d fuel in
      let p₀ = enlist lua m net d fuel u p in
      let p₁ = streaming net t fd v w p₀ in
      let apart : server ≢ t = λ e. let below = i.server_below in omega arith in
      let run = refused_run t fd b v rest w p₀ (opened-fd v fd f) sends other in
      let q₁ = put_back t run.0 p₁ in
      let ys = (p.store.free, t) ∷ xs in
      let r =
        remove-Ring lua m net d fuel t q₁ ys
          (let listed = enlist-Lists lua m net d fuel server u xs p i in listed.ring)
          (omega arith) in
      (
        without t r.0 r.1 q₁,
        ap (λ x. or_else x (λ q. and_on (remove lua m net d fuel t q) λ _. continues tt))
              (greet-streaming lua m net d fuel server fd v w p apart made f ∙ run.1)
            ∙ ap (λ x. and_on x λ _. continues tt) r.2,
        record {
          ring = subst (Ring r.0 p.list) (rw (==_self t) refl) r.3;
          same_list = refl;
          closed = rw (==_self t, transport_at) refl;
          unanswered = rw (==_self t, transport_at) (run.2);
          others = λ a ne.
              update-other q₁.links t _ a ne
              ∙ put_back-others lua m net d fuel t fd v run.0 w p₀ a ne
              ∙ update-other p.links t _ a ne;
          same_stack = run.3;
        },
      )
