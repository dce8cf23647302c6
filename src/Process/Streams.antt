-- ===== src/Process/Streams.antt =====
-- The stream of a connection that was made (luarpc_socket.c) or accepted.
use luarpc.Base.{ℕ, ◌≡◌, refl, ap, ◌∙◌, Bytes, true, false, Option, none, some, ◌++◌, ==_self}
use luarpc.Transport.{Transport}
use luarpc.State.{State, is_open}
use luarpc.Wire.Laws.{feed}
use luarpc.Process.{Process, Network, transport_at, view, set_link, set_tpt}

pub opened-fd : (v : Transport) (fd : ℕ) → v.fd ≡ some fd → is_open v ≡ true
opened-fd v fd f = ap (λ (d : Option ℕ). elim d [ none ↦ false | some _ ↦ true ]) f

module _ {G W : Type 0} (net : Network W) where
  abbrev pub attach : ℕ → Process G W → Process G W
  attach t p = elim (transport_at p t).fd [
    | none ↦ p
    | some fd ↦ set_link t (record (net.arriving fd p.world) { tpt = transport_at p t }) p
  ]

  -- The process with the stream that arrives on the transport `v`.
  abbrev pub streaming : ℕ → ℕ → Transport → W → Process G W → Process G W
  streaming t fd v w p =
      set_link t (record (net.arriving fd w) { tpt = v }) (set_tpt t v (record p { world = w }))

  pub attach-streaming :
      (t fd : ℕ) (v : Transport) (w : W) (p : Process G W)
      → v.fd ≡ some fd
      → attach t (set_tpt t v (record p { world = w })) ≡ streaming t fd v w p
  attach-streaming t fd v w p f =
      let q = set_tpt t v (record p { world = w }) in
      let at : transport_at q t ≡ v = rw (==_self t, transport_at) refl in
      let with_fd = λ (d : Option ℕ) (u : Transport). elim d as (λ x. Process G W) [
        | none ↦ q
        | some n ↦ set_link t (record (net.arriving n w) { tpt = u }) q
      ] in
      ap (λ (u : Transport). with_fd u.fd u) at ∙ ap (λ d. with_fd d v) f

  -- The state of a command on that transport once all but `rest` of the stream has been read.
  abbrev pub arrived : ℕ → ℕ → Transport → Bytes → W → Process G W → State G
  arrived t fd v rest w p = record (view t (streaming t fd v w p)) {
    tpt = v;
    input = rest;
    errno = (net.arriving fd w).errno;
    output = (net.arriving fd w).output;
    broken = (net.arriving fd w).broken;
  }

  pub view-streaming :
      (t fd : ℕ) (v : Transport) (bs rest : Bytes) (w : W) (p : Process G W)
      → (net.arriving fd w).input ≡ bs ++ rest
      → view t (streaming t fd v w p) ≡ feed bs (arrived t fd v rest w p)
  unfolding view
  view-streaming t fd v bs rest w p sends =
      rw (==_self t, view) (ap (λ i. record (arrived t fd v rest w p) { input = i }) sends)
