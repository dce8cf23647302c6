-- ===== src/Process/Visiting.antt =====
-- What `transport_select` and the commands of the clients change in the process (luarpc.c), and what
-- the acceptance of a client changes besides the list.
use luarpc.Base.{
  ℕ, zero, suc, ◌≡◌, ◌≢◌, refl, ap, Bool, true, false, Option, none, some, List, [], ◌∷◌, ◌==◌,
  ◌&&◌, not, Bool-cases, inl, inr, arith,
}
use luarpc.Machine.{Machine}
use luarpc.Lua.{Lua}
use luarpc.Socket.Lifecycle.{transport_accept}
use luarpc.Process.{Process, Network, transport_at, set_link, after_io, view, Act}
use luarpc.Process.Keeping.{
  Keeps, Keeps-and_on, Keeps-if, Stable, after_run-Stable, after_io-Stable,
}
use luarpc.Process.Streams.{attach}
use luarpc.Process.Loop.{
  on_transport, on_descriptor, gather_rounds, mark_rounds, selected, transport_select, dispatch_to,
  is_waiting, serve, serve_rounds, greet,
}
use luarpc.Server.{rpc_dispatch_worker}

not_server : (b : Bool) (server t : ℕ) → (b && not (t == server)) ≡ true → server ≢ t
not_server false server t e = cc
not_server true server t e = elim (Bool-cases (t == server)) [
  | inl s ↦ let never : not (t == server) ≡ false = ap not s in cc
  | inr s ↦ λ same. ground arith
]

module _ {G W : Type 0} (lua : Lua G) (m : Machine) (net : Network W) (d fuel server : ℕ)
    (L : Process G W → Type 0) (st : Stable server L) where
  pub on_transport-Stable :
      {A : Type 0} (o : Option ℕ) (f : ℕ → Act G W A) (p : Process G W)
      → L p
      → ((t : ℕ) → Keeps L (f t p))
      → Keeps L (on_transport lua m net d fuel o f p)
  unfolding on_transport
  on_transport-Stable none f p l h = tt
  on_transport-Stable (some t) f p l h = h t

  on_descriptor-Stable :
      {A : Type 0} (o : Option ℕ) (f : ℕ → Act G W A) (p : Process G W)
      → L p
      → ((t : ℕ) → Keeps L (f t p))
      → Keeps L (on_descriptor lua m net d fuel o f p)
  unfolding on_descriptor
  on_descriptor-Stable none f p l h = tt
  on_descriptor-Stable (some t) f p l h = h t

  pub gather_rounds-Stable :
      (k node : ℕ) (socks : List ℕ) (p : Process G W)
      → L p
      → Keeps L (gather_rounds lua m net d fuel k node socks p)
  unfolding gather_rounds
  gather_rounds-Stable zero node socks p l = tt
  gather_rounds-Stable (suc k) node socks p l =
      Keeps-if L (p.store.next node == p.list) _ _ (λ _. l)
        λ _. on_transport-Stable (p.store.transport (p.store.next node)) _ p l λ t.
          on_descriptor-Stable (transport_at p t).fd _ p l
            λ fd. gather_rounds-Stable k (p.store.next node) (fd ∷ socks) p l

  mark_rounds-Stable :
      (k node : ℕ) (set : ℕ → Bool) (p : Process G W)
      → L p
      → Keeps L (mark_rounds lua m net d fuel k node set p)
  unfolding mark_rounds
  mark_rounds-Stable zero node set p l = tt
  mark_rounds-Stable (suc k) node set p l =
      Keeps-if L (p.store.next node == p.list) _ _ (λ _. l)
        λ _. on_transport-Stable (p.store.transport (p.store.next node)) _ p l λ t.
          on_descriptor-Stable (transport_at p t).fd _ p l
            λ fd. mark_rounds-Stable k (p.store.next node) set _ (st.linked t _ p (λ _. refl) l)

  selected-Stable :
      (r : Option (ℕ → Bool) × W) (p : Process G W) → L p → Keeps L (selected lua m net d fuel r p)
  unfolding selected
  selected-Stable (none, w) p l = st.moved w p l
  selected-Stable (some set, w) p l =
      Keeps-and_on L (mark_rounds lua m net d fuel fuel p.list set (record p { world = w })) _
        (mark_rounds-Stable fuel p.list set (record p { world = w }) (st.moved w p l)) (λ _ q h. h)

  pub transport_select-Stable :
      (p : Process G W) → L p → Keeps L (transport_select lua m net d fuel p)
  unfolding transport_select
  transport_select-Stable p l =
      Keeps-and_on L (gather_rounds lua m net d fuel fuel p.list [] p) _
        (gather_rounds-Stable fuel p.list [] p l)
        (λ socks q h. selected-Stable (net.select socks q.world) q h)

  serve-Stable : (t : ℕ) (p : Process G W) → L p → Keeps L (serve lua m net d fuel server t p)
  unfolding serve dispatch_to
  serve-Stable t p l =
      Keeps-if L (is_waiting lua m net d fuel server p t) _ _
        (λ e.
          after_run-Stable server L st t p (rpc_dispatch_worker lua m d (view t p))
            (not_server (transport_at p t).is_set server t e) l)
        λ _. l

  pub serve_rounds-Stable :
      (k node : ℕ) (p : Process G W) → L p → Keeps L (serve_rounds lua m net d fuel server k node p)
  unfolding serve_rounds
  serve_rounds-Stable zero node p l = tt
  serve_rounds-Stable (suc k) node p l =
      Keeps-if L (p.store.next node == p.list) _ _ (λ _. l)
        λ _. on_transport-Stable (p.store.transport (p.store.next node)) _ p l λ t.
          Keeps-and_on L (serve lua m net d fuel server t p) _ (serve-Stable t p l)
            (λ _ q h. serve_rounds-Stable k (p.store.next node) q h)

  attach-Stable : (t : ℕ) (p : Process G W) → L p → L (attach net t p)
  attach-Stable t p l =
      elim (transport_at p t).fd
        as (λ fd. L (elim fd [
          | none ↦ p
          | some fd ↦ set_link t (record (net.arriving fd p.world) { tpt = transport_at p t }) p
        ])) [ none ↦ l | some fd ↦ st.linked t _ p (λ _. refl) l ]

  pub greet-Stable :
      (worker : ℕ) (p : Process G W)
      → server ≢ worker
      → L p
      → Keeps L (greet lua m net d fuel server worker p)
  unfolding greet
  greet-Stable worker p h l =
      Keeps-and_on L
        (after_io worker p
          (transport_accept net.sys (transport_at p server) (transport_at p worker) p.world))
        _ (after_io-Stable server L st worker p _ h l)
        λ _ q l'.
          after_run-Stable server L st worker (attach net worker q) _ h (attach-Stable worker q l')
