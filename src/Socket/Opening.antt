-- ===== src/Socket/Opening.antt =====
-- What opening and closing a socket (luarpc_socket.c) leave behind.
use luarpc.Base.{ℕ, suc, ◌≡◌, refl, sym, ap, ◌∙◌, Bool-cases, inl, inr, Bool, true, false, ◌==◌}
use mathlib.Core.Path.{subst}
use luarpc.Transport.{Timeval, Transport}
use luarpc.State.{is_open}
use luarpc.Socket.{Stdio, finished, crashed, Io, opened, transport_read_buffer}
use luarpc.Socket.Lifecycle.{
  System, Op, and_next, transport_close, transport_setnonblock, connected, connecting,
  transport_connect, transport_bind, transport_listen, transport_open_listener,
  transport_open_connection, maxcon,
}
use luarpc.Socket.Making.{
  Ready, Opens, ready, refused, Opens-next, Opens-weaken, Made, expect-Opens, expect-true,
  with_fd-some, transport_open-Opens, transport_open-Made, Made-fd, Made-Ready,
}

opened-no_file :
    {W A : Type 0} (io : Stdio W) (a : Bool) (q : Io io A) (t : Transport) (w : W)
    → a ≡ true
    → opened io a false q t w ≡ crashed
unfolding opened
opened-no_file io true q t w e = refl
opened-no_file io false q t w e = cc

module _ {W : Type 0} where
  module _ (sys : System W) where
    -- What `transport_open_listener` makes: every one of the calls succeeded.
    pub record Listening (port : ℕ) (t : Transport) (w : W) (t' : Transport) (w' : W) : Type 0 where
      pub fd : ℕ
      pub opened_in : W
      pub bound_in : W
      pub made : Made sys t w fd t' opened_in
      pub bound : sys.bind opened_in fd 0 port ≡ (true, bound_in)
      pub listens : sys.listen bound_in fd maxcon ≡ (true, w')

    -- How a connection is made from the transport `t`: at once; or it was in progress, `select`
    -- reported it before the timeout, and the socket has a peer.
    pub data Connected (ip port fd : ℕ) (t : Transport) (w : W) (t' : Transport) (w' : W)
        : Type 0 where
      at_once : sys.connect w fd ip port ≡ (true, w') → t' ≡ t → Connected ip port fd t w t' w'
      later :
          (w₁ w₂ : W) (tv : Timeval)
          → sys.connect w fd ip port ≡ (false, w₁)
          → (sys.errno w₁ == sys.einprogress) ≡ true
          → sys.select_write w₁ t.timeout ≡ (true, tv, w₂)
          → sys.getpeername w₂ fd ≡ (true, w')
          → t' ≡ record t { timeout = tv }
          → Connected ip port fd t w t' w'

    -- What `transport_open_connection` makes.
    pub record Connects (ip port : ℕ) (t : Transport) (w : W) (t' : Transport) (w' : W)
        : Type 0 where
      pub fd : ℕ
      pub fresh : Transport
      pub opened_in : W
      pub unblocked_in : W
      pub made : Made sys t w fd fresh opened_in
      pub unblocked :
          (let flags = sys.get_flags opened_in fd in
            sys.set_flags flags.1 fd (sys.or_nonblock flags.0) ≡ (true, unblocked_in))
      pub linked :
          Connected ip port fd (record fresh { timeout = fresh.com_timeout }) unblocked_in t' w'

    abbrev bind_listen : (port : ℕ) → Op sys
    bind_listen port t w =
        and_next (transport_bind sys 0 port t w) λ _ t w. transport_listen sys maxcon t w

    listener-Opens :
        (port : ℕ) (t : Transport) (w : W)
        → Opens (Listening port t w) (transport_open_listener sys port t w)
    unfolding transport_open_listener transport_bind transport_listen
    listener-Opens port t w = Opens-next _ (transport_open-Opens sys t w) λ t₁ w₁ (fd, m).
        subst
          (λ x. Opens (Listening port t w) (and_next x λ _ t w. transport_listen sys maxcon t w))
          (sym (with_fd-some sys t₁.fd fd _ t₁ w₁ (Made-fd sys t t₁ w w₁ fd m)))
          (Opens-next _ (expect-Opens sys (sys.bind w₁ fd 0 port) t₁ w₁) λ t₂ w₂ (e, b).
            subst (Opens (Listening port t w))
              (sym (
                with_fd-some sys t₂.fd fd _ t₂ w₂
                  (ap (λ (u : Transport). u.fd) e ∙ Made-fd sys t t₁ w w₁ fd m)))
              (Opens-weaken (expect-Opens sys (sys.listen w₂ fd maxcon) t₂ w₂) λ t₃ w₃ (e₃, l).
                record {
                  fd = fd;
                  opened_in = w₁;
                  bound_in = w₂;
                  made = subst (λ u. Made sys t w fd u w₁) (sym (e₃ ∙ e)) m;
                  bound = b;
                  listens = l;
                }))

    Listening-listener :
        (port : ℕ) (t t' : Transport) (w w' : W)
        → Listening port t w t' w'
        → transport_open_listener sys port t w ≡ finished tt t' w'
    unfolding transport_open_listener transport_bind transport_listen
    Listening-listener port t t' w w' l =
        let fd_at = Made-fd sys t t' w l.opened_in l.fd l.made in
        ap (λ x. and_next x λ _ t w. bind_listen port t w)
          (transport_open-Made sys t t' w l.opened_in l.fd l.made)
        ∙ ap (λ x. and_next x λ _ t w. transport_listen sys maxcon t w)
            (with_fd-some sys t'.fd l.fd _ t' l.opened_in fd_at
              ∙ expect-true sys (sys.bind l.opened_in l.fd 0 port) t' l.opened_in l.bound_in
                  l.bound)
        ∙ with_fd-some sys t'.fd l.fd _ t' l.bound_in fd_at
        ∙ expect-true sys (sys.listen l.bound_in l.fd maxcon) t' l.bound_in w' l.listens

    connected-Opens :
        (ip port fd : ℕ) (t : Transport) (w w₁ : W) (r : Bool × Timeval × W) (u : W)
        → sys.connect w fd ip port ≡ (false, w₁)
        → (sys.errno w₁ == sys.einprogress) ≡ true
        → sys.select_write w₁ t.timeout ≡ r
        → Opens (Connected ip port fd t w) (connected sys fd r t u)
    unfolding connected
    connected-Opens ip port fd t w w₁ (true, tv, w₂) u c e s =
        Opens-weaken (expect-Opens sys (sys.getpeername w₂ fd) (record t { timeout = tv }) w₂)
          λ t' w' (same, g). later w₁ w₂ tv c e s g same
    connected-Opens ip port fd t w w₁ (false, tv, w₂) u c e s = refused

    connecting-Opens :
        (ip port fd : ℕ) (t : Transport) (w : W) (r : Bool × W) (u : W)
        → sys.connect w fd ip port ≡ r
        → Opens (Connected ip port fd t w) (connecting sys fd r t u)
    unfolding connecting
    connecting-Opens ip port fd t w (true, w') u c = ready (at_once c refl)
    connecting-Opens ip port fd t w (false, w₁) u c =
        elim (Bool-cases (sys.errno w₁ == sys.einprogress)) [
          | inl e ↦
              rw e (connected-Opens ip port fd t w w₁ (sys.select_write w₁ t.timeout) w₁ c e refl)
          | inr e ↦ rw e refused
        ]

    connection-Opens :
        (ip port : ℕ) (t : Transport) (w : W)
        → Opens (Connects ip port t w) (transport_open_connection sys ip port t w)
    unfolding transport_open_connection transport_connect transport_setnonblock
    connection-Opens ip port t w = Opens-next _ (transport_open-Opens sys t w) λ t₁ w₁ (fd, m).
        let u = record t₁ { timeout = t₁.com_timeout } in
        let flags = sys.get_flags w₁ fd in
        subst (Opens (Connects ip port t w))
          (sym (with_fd-some sys t₁.fd fd _ u w₁ (Made-fd sys t t₁ w w₁ fd m)))
          (Opens-next _
            (expect-Opens sys (sys.set_flags flags.1 fd (sys.or_nonblock flags.0)) u flags.1)
            λ t₂ w₂ (e, b).
              Opens-weaken (connecting-Opens ip port fd t₂ w₂ (sys.connect w₂ fd ip port) w₂ refl)
                λ t₃ w₃ c. record {
                  fd = fd;
                  fresh = t₁;
                  opened_in = w₁;
                  unblocked_in = w₂;
                  made = m;
                  unblocked = b;
                  linked = subst (λ v. Connected ip port fd v w₂ t₃ w₃) e c;
                })

    Connected-connecting :
        (ip port fd : ℕ) (t t' : Transport) (w w' u : W)
        → Connected ip port fd t w t' w'
        → connecting sys fd (sys.connect w fd ip port) t u ≡ finished tt t' w'
    unfolding connecting connected
    Connected-connecting ip port fd t t' w w' u (at_once c same) = rw (c, same) refl
    Connected-connecting ip port fd t t' w w' u (later w₁ w₂ tv c e s g same) =
        rw (c, e, s, same) (expect-true sys (sys.getpeername w₂ fd) _ w₂ w' g)

    Connects-connection :
        (ip port : ℕ) (t t' : Transport) (w w' : W)
        → Connects ip port t w t' w'
        → transport_open_connection sys ip port t w ≡ finished tt t' w'
    unfolding transport_open_connection transport_connect transport_setnonblock
    Connects-connection ip port t t' w w' c =
        let u = record c.fresh { timeout = c.fresh.com_timeout } in
        let flags = sys.get_flags c.opened_in c.fd in
        ap
          (λ x.
            and_next x
              λ _ t w. transport_connect sys ip port (record t { timeout = t.com_timeout }) w)
          (transport_open-Made sys t c.fresh w c.opened_in c.fd c.made)
        ∙ with_fd-some sys c.fresh.fd c.fd _ u c.opened_in
            (Made-fd sys t c.fresh w c.opened_in c.fd c.made)
        ∙ ap (λ x. and_next x λ _ t w. connecting sys c.fd (sys.connect w c.fd ip port) t w)
            (expect-true sys (sys.set_flags flags.1 c.fd (sys.or_nonblock flags.0)) u flags.1
              c.unblocked_in c.unblocked)
        ∙ Connected-connecting ip port c.fd u t' c.unblocked_in w' c.unblocked_in c.linked

    pub Listening-Ready :
        (port : ℕ) (t t' : Transport) (w w' : W) → Listening port t w t' w' → Ready t'
    Listening-Ready port t t' w w' l = Made-Ready sys t t' w l.opened_in l.fd l.made

    -- Opening a client's connection and a server's listener ends, whatever the system answers, and
    -- succeeds exactly if all the calls do: `socket` and `fdopen`; then `bind` and `listen`, on the
    -- port that was asked for; or the change to a descriptor that does not block, and `connect`, which
    -- succeeds at once or is in progress, reported before the timeout, and has a peer. The transport
    -- then holds the descriptor and a FILE pointer. Otherwise a fatal exception is thrown.
    pub opening-Opens :
        (ip port : ℕ) (t : Transport) (w : W)
        → Opens (Connects ip port t w) (transport_open_connection sys ip port t w)
          × Opens (Listening port t w) (transport_open_listener sys port t w)
          × ((t' : Transport) (w' : W)
              → (Connects ip port t w t' w'
                  → transport_open_connection sys ip port t w ≡ finished tt t' w')
                × (Listening port t w t' w'
                    → transport_open_listener sys port t w ≡ finished tt t' w'))
    opening-Opens ip port t w = (
      connection-Opens ip port t w,
      listener-Opens port t w,
      λ t' w'. (Connects-connection ip port t t' w w', Listening-listener port t t' w w'),
    )

    -- A transport that is closed keeps its descriptor: it still counts as open, and a read from it
    -- of one byte or more uses the null FILE pointer.
    pub transport_close-crashes :
        (io : Stdio W) (k n : ℕ) (t : Transport) (w : W)
        → Ready t
        → (t' : Transport) × (w' : W) × (transport_close sys t w ≡ finished tt t' w')
          × (is_open t' ≡ true)
          × (transport_read_buffer io k (suc n) t' w' ≡ crashed)
    unfolding transport_close transport_read_buffer
    transport_close-crashes io k n t w h = (
      record t { file = false },
      sys.fclose w,
      simp h.has_file,
      h.open_fd,
      opened-no_file io (is_open t) _ (record t { file = false }) (sys.fclose w) h.open_fd,
    )
