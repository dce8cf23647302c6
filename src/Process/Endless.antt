-- ===== src/Process/Endless.antt =====
-- `rpc_server` (luarpc.c): its loop goes on as long as the server's transport has a descriptor.
use luarpc.Base.{
  ◌+◌, ℕ, zero, suc, ◌<◌, ◌≡◌, ◌≢◌, refl, ap, ◌∙◌, ==_self, true, false, Bool, if◌then◌else◌,
  Option, none, some, ◌==◌, arith,
}
use luarpc.Machine.{Machine}
use luarpc.Transport.{Transport}
use luarpc.Lua.{Lua}
use luarpc.State.{is_open}
use luarpc.Socket.{IoRun}
use luarpc.Socket.Lifecycle
use luarpc.Socket.Making.{Opens, ready, refused}
use luarpc.Socket.Opening.{Listening, Listening-Ready, opening-Opens}
use luarpc.Nodes.{Store, update, transport_remove_from_list}
use luarpc.Process.{
  Connection, Process, Network, Step, continues, out_of_rounds, and_on, transport_at, set_tpt,
  after_io, Act,
}
use luarpc.Process.Keeping.{
  Keeps, Ends, Keeps-and_on, GoesOn, GoesOn-and_on, Keeps-if, Listens, Stable, Listens-Stable,
  or_else-Keeps,
}
use luarpc.Process.Loop.{
  transport_select, serve_rounds, transport_delete, remove, removed, sweep, sweep_rounds, greet,
  new_worker, enlist, rpc_dispatch_accept, accept_waiting, tend, round, rounds, start_list, anchor,
  run_server, shut_down,
}
use luarpc.Process.Starting.{
  new_server, listener_port, transport_open_listener, server_create, rpc_server,
}
use luarpc.Functions.{Numbers, Values}
use luarpc.Process.Arguments.{listener_port-Keeps}
use luarpc.Process.Sweeping.{transport_delete-closes}
use luarpc.Process.Visiting.{
  on_transport-Stable, transport_select-Stable, serve_rounds-Stable, greet-Stable,
}

module _ {G W : Type 0} (lua : Lua G) (m : Machine) (net : Network W) (d fuel server : ℕ) where
  abbrev L : Process G W → Type 0
  L = Listens server

  st : Stable server L
  st = Listens-Stable server

  transport_delete-Listens :
      (t : ℕ) (p : Process G W) → L p → Keeps L (transport_delete lua m net d fuel t p)
  transport_delete-Listens t p l =
      let c = transport_delete-closes lua m net d fuel t p in
      rw c.1 (
        st.linked t (record (p.links t) { tpt = record (transport_at p t) { file = false } })
          (record p { world = c.0 }) (λ _. refl) l)

  removed-Listens :
      (o : Option (ℕ × Store)) (p : Process G W) → L p → Keeps L (removed lua m net d fuel p o)
  removed-Listens none p l = tt
  removed-Listens (some (r, s)) p l = l

  remove-Listens : (t : ℕ) (p : Process G W) → L p → Keeps L (remove lua m net d fuel t p)
  unfolding remove
  remove-Listens t p l =
      let found = transport_remove_from_list fuel p.list t p.store in
      Keeps-and_on L (removed lua m net d fuel p found) _ (removed-Listens found p l) λ r q h.
        Keeps-and_on L (transport_delete lua m net d fuel t q) _ (transport_delete-Listens t q h)
          (λ _ q' h'. h')

  sweep-Listens : (n t : ℕ) (p : Process G W) → L p → Keeps L (sweep lua m net d fuel n t p)
  unfolding sweep
  sweep-Listens n t p l =
      Keeps-if L (transport_at p t).must_die _ _ (λ _. remove-Listens t p l) (λ _. l)

  sweep_rounds-Listens :
      (k node : ℕ) (p : Process G W) → L p → Keeps L (sweep_rounds lua m net d fuel k node p)
  unfolding sweep_rounds
  sweep_rounds-Listens zero node p l = tt
  sweep_rounds-Listens (suc k) node p l =
      Keeps-if L (p.store.next node == p.list) _ _ (λ _. l)
        λ _.
          on_transport-Stable lua m net d fuel server L st (p.store.transport (p.store.next node)) _
            p l
            λ t.
              Keeps-and_on L (sweep lua m net d fuel (p.store.next node) t p) _
                (sweep-Listens (p.store.next node) t p l) (λ r q h. sweep_rounds-Listens k r q h)

  enlist-Listens : (u : Transport) (p : Process G W) → L p → L (enlist lua m net d fuel u p)
  enlist-Listens u p (o, b) =
      let other : (server == p.fresh) ≡ false = ground arith in
      (rw (other, transport_at) o, omega arith)

  accept_waiting-Listens :
      (p : Process G W) → L p → Keeps L (accept_waiting lua m net d fuel server p)
  unfolding accept_waiting rpc_dispatch_accept
  accept_waiting-Listens p l =
      let q₀ = enlist lua m net d fuel (new_worker lua m net d fuel) p in
      Keeps-if L (transport_at p server).is_set _ _
        (λ _.
          or_else-Keeps L L (greet lua m net d fuel server p.fresh q₀) _
            (greet-Stable lua m net d fuel server L st p.fresh q₀ (λ e. let b = l.1 in omega arith)
              (enlist-Listens (new_worker lua m net d fuel) p l))
            (λ q h. h)
            (λ q h.
              Keeps-and_on L (remove lua m net d fuel p.fresh q) _ (remove-Listens p.fresh q h)
                (λ _ q' h'. h')))
        (λ _. l)

  tend-Listens : (p : Process G W) → L p → Keeps L (tend lua m net d fuel server p)
  unfolding tend
  tend-Listens p l =
      Keeps-and_on L (serve_rounds lua m net d fuel server fuel p.list p) _
        (serve_rounds-Stable lua m net d fuel server L st fuel p.list p l)
        λ _ q h.
          Keeps-and_on L (sweep_rounds lua m net d fuel fuel q.list q) _
            (sweep_rounds-Listens fuel q.list q h) (λ _ q' h'. accept_waiting-Listens q' h')

  round-Listens : (p : Process G W) → L p → Keeps L (round lua m net d fuel server p)
  unfolding round
  round-Listens p l =
      Keeps-and_on L (transport_select lua m net d fuel p) _
        (transport_select-Stable lua m net d fuel server L st p l)
        (λ b q h. Keeps-if L b _ _ (λ _. tend-Listens q h) (λ _. h))

  -- After any rounds the server goes on, or an error has ended it.
  rounds-GoesOn : (k : ℕ) (p : Process G W) → L p → GoesOn (rounds lua m net d fuel k server p)
  unfolding rounds
  rounds-GoesOn zero p l = refl
  rounds-GoesOn (suc k) p l = rw l.0 (
      GoesOn-and_on L (round lua m net d fuel server p) _ (round-Listens p l)
        (λ _ q h. rounds-GoesOn k q h))

Ends-after :
    {P A : Type 0} (r : Step P Bool) (f : P → Step P A)
    → GoesOn r
    → Ends (and_on r λ on p. if on then out_of_rounds else f p)
Ends-after (continues true q) f h = tt
Ends-after (continues false q) f h = absurd (cc)
Ends-after (Step.raises v q) f h = tt
Ends-after (Step.throws x q) f h = tt
Ends-after Step.breaks f h = tt
Ends-after Step.out_of_rounds f h = tt

Ends-ne : {P A : Type 0} (r : Step P A) (a : A) (p : P) → Ends r → r ≢ continues a p
Ends-ne (continues b q) a p h e = h
Ends-ne (Step.raises v q) a p h e = cc
Ends-ne (Step.throws x q) a p h e = cc
Ends-ne Step.breaks a p h e = cc
Ends-ne Step.out_of_rounds a p h e = cc

module _ {G W : Type 0} (lua : Lua G) (m : Machine) (net : Network W) (d fuel : ℕ) (nums : Numbers)
    (values : Values) where
  opened-Ends :
      {A : Type 0} (server port : ℕ) (u : Transport) (w₀ : W) (p : Process G W)
      (r : IoRun W (Unit {0})) (k : ℕ → Act G W A)
      → server < p.fresh
      → Opens (Listening net.sys port u w₀) r
      → ((q : Process G W) → Listens server q → Ends (k server q))
      → Ends (and_on (and_on (after_io server p r) λ _. continues server) k)
  opened-Ends server port u w₀ p r k b (ready {t} {w} h) g =
      let at : update p.links server (record (p.links server) { tpt = t }) server
          ≡ record (p.links server) { tpt = t } =
        rw (==_self server) refl in
      g (set_tpt server t (record p { world = w })) (
        ap (λ (l : Connection). is_open l.tpt) at
            ∙ (Listening-Ready net.sys port u t w₀ w h).open_fd,
        b,
      )
  opened-Ends server port u w₀ p r k b refused g = tt

  nested-Ends :
      {A B C : Type 0} (I : Process G W → Type 0) (r : Step (Process G W) A) (f : A → Act G W B)
      (g : B → Act G W ℕ) (k : ℕ → Act G W C)
      → Keeps I r
      → ((a : A) (q : Process G W) → I q → Ends (and_on (and_on (f a q) g) k))
      → Ends (and_on (and_on (and_on r f) g) k)
  nested-Ends I (continues a q) f g k h next = next a q h
  nested-Ends I (Step.raises v q) f g k h next = tt
  nested-Ends I (Step.throws x q) f g k h next = tt
  nested-Ends I Step.breaks f g k h next = tt
  nested-Ends I Step.out_of_rounds f g k h next = tt

  -- Whatever the clients send and the system answers, the loop of `rpc_server` is never left by its
  -- condition: after any number of rounds the server goes on, or an error has ended it, and the
  -- code behind the loop does not run.
  pub rpc_server-endless :
      (k : ℕ) (u : Transport) (p p' : Process G W)
      → rpc_server lua m net d fuel nums values k u p ≢ continues tt p'
  unfolding rpc_server server_create run_server transport_open_listener
  rpc_server-endless k u p p' = Ends-ne (rpc_server lua m net d fuel nums values k u p) tt p' (
      let q₀ = new_server lua m net d fuel nums values u p in
      nested-Ends (λ q. q.fresh ≡ p.fresh + 1)
        (listener_port lua m net d fuel nums values p.fresh q₀) _ _ _
        (listener_port-Keeps lua m net d fuel nums values p.fresh q₀)
        λ port q b.
          opened-Ends p.fresh port (transport_at q p.fresh) q.world q
            (Lifecycle.transport_open_listener net.sys port (transport_at q p.fresh) q.world)
            (λ server. run_server lua m net d fuel k server) (omega arith)
            (opening-Opens net.sys port port (transport_at q p.fresh) q.world).1
            λ q' h.
              let started = anchor lua m net d fuel (start_list lua m net d fuel p.fresh q') in
              Ends-after (rounds lua m net d fuel k p.fresh started.1)
                (shut_down lua m net d fuel p.fresh started.0)
                (rounds-GoesOn lua m net d fuel p.fresh k started.1 h))
