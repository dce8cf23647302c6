-- ===== src/Socket/Making.antt =====
-- What `transport_open` (luarpc_socket.c) makes of a transport.
use luarpc.Base.{ℕ, ◌≡◌, refl, ap, Bool, true, false, Option, none, some}
use luarpc.Errors.{exception, fatal}
use luarpc.Transport.{Transport}
use luarpc.State.{is_open}
use luarpc.Socket.{IoRun, finished, thrown}
use luarpc.Socket.Lifecycle.{
  System, Op, and_next, expect, set_file, opened_fd, transport_open, with_fd,
}

-- A transport that can be read and written.
pub record Ready (t : Transport) : Type 0 where
  pub open_fd : is_open t ≡ true
  pub has_file : t.file ≡ true

-- An operation that opens a transport: it made what `I` says, or a fatal exception was thrown.
pub data Opens {W : Type 0} (I : Transport → W → Type 0) : IoRun W (Unit {0}) → Type 0 where
  ready : {t : Transport} {w : W} → I t w → Opens I (finished tt t w)
  refused : {t : Transport} {w : W} {e : ℕ} → Opens I (thrown (exception fatal e) t w)

module _ {W : Type 0} where
  pub Opens-next :
      {I J : Transport → W → Type 0} {r : IoRun W (Unit {0})}
      (k : Unit {0} → Transport → W → IoRun W (Unit {0}))
      → Opens I r
      → ((t : Transport) (w : W) → I t w → Opens J (k tt t w))
      → Opens J (and_next r k)
  Opens-next k (ready h) next = next _ _ h
  Opens-next k refused next = refused

  pub Opens-weaken :
      {I J : Transport → W → Type 0} {r : IoRun W (Unit {0})}
      → Opens I r
      → ((t : Transport) (w : W) → I t w → J t w)
      → Opens J r
  Opens-weaken (ready h) f = ready (f _ _ h)
  Opens-weaken refused f = refused

  module _ (sys : System W) where
    -- What `transport_open` makes of `t`: `socket` gave the descriptor `fd`, and `fdopen` a FILE pointer.
    pub record Made (t : Transport) (w : W) (fd : ℕ) (t' : Transport) (w' : W) : Type 0 where
      pub between : W
      pub socket : sys.socket w ≡ (some fd, between)
      pub stream : sys.fdopen (sys.set_nodelay between fd) fd ≡ (true, w')
      pub same : t' ≡ record t { fd = some fd; file = true }

    pub expect-Opens :
        (r : Bool × W) (t : Transport) (w : W)
        → Opens (λ t' w'. (t' ≡ t) × (r ≡ (true, w'))) (expect sys r t w)
    unfolding expect
    expect-Opens (true, w') t w = ready (refl, refl)
    expect-Opens (false, w') t w = refused

    pub expect-true :
        (r : Bool × W) (t : Transport) (w w' : W)
        → r ≡ (true, w')
        → expect sys r t w ≡ finished tt t w'
    unfolding expect
    expect-true r t w w' e = rw e refl

    pub with_fd-some :
        (d : Option ℕ) (n : ℕ) (f : ℕ → Op sys) (t : Transport) (w : W)
        → d ≡ some n
        → with_fd sys d f t w ≡ f n t w
    unfolding with_fd
    with_fd-some d n f t w e = rw e refl

    set_file-Opens :
        (fd : ℕ) (v w : W) (t : Transport) (r : Bool × W) (u : W)
        → sys.socket w ≡ (some fd, v)
        → sys.fdopen (sys.set_nodelay v fd) fd ≡ r
        → Opens (λ t' w'. (n : ℕ) × Made t w n t' w') (set_file sys r (record t { fd = some fd }) u)
    unfolding set_file
    set_file-Opens fd v w t (true, w') u e f =
        ready (fd, record { between = v; socket = e; stream = f; same = refl })
    set_file-Opens fd v w t (false, w') u e f = refused

    opened_fd-Opens :
        (r : Option ℕ × W) (t : Transport) (w : W)
        → sys.socket w ≡ r
        → Opens (λ t' w'. (n : ℕ) × Made t w n t' w') (opened_fd sys r t w)
    unfolding opened_fd
    opened_fd-Opens (none, v) t w e = refused
    opened_fd-Opens (some n, v) t w e =
        set_file-Opens n v w t (sys.fdopen (sys.set_nodelay v n) n) (sys.set_nodelay v n) e refl

    pub transport_open-Opens :
        (t : Transport) (w : W)
        → Opens (λ t' w'. (n : ℕ) × Made t w n t' w') (transport_open sys t w)
    unfolding transport_open
    transport_open-Opens t w = opened_fd-Opens (sys.socket w) t w refl

    pub transport_open-Made :
        (t t' : Transport) (w w' : W) (fd : ℕ)
        → Made t w fd t' w'
        → transport_open sys t w ≡ finished tt t' w'
    unfolding transport_open opened_fd set_file
    transport_open-Made t t' w w' fd m = rw (m.socket, m.stream, m.same) refl

    pub Made-fd : (t t' : Transport) (w w' : W) (fd : ℕ) → Made t w fd t' w' → t'.fd ≡ some fd
    Made-fd t t' w w' fd m = ap (λ (u : Transport). u.fd) m.same

    pub Made-Ready : (t t' : Transport) (w w' : W) (fd : ℕ) → Made t w fd t' w' → Ready t'
    Made-Ready t t' w w' fd m = record {
      open_fd = ap is_open m.same;
      has_file = ap (λ (u : Transport). u.file) m.same;
    }
