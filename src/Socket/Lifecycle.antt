-- ===== src/Socket/Lifecycle.antt =====
-- Opening, connecting, accepting and closing sockets (luarpc_socket.c, the POSIX branch). The
-- system calls are parameters.
use luarpc.Base.{ℕ, Bool, true, false, Option, none, some, ◌==◌, if◌then◌else◌}
use luarpc.Errors.{exception, fatal, err_closed, err_timeout}
use luarpc.Transport.{Timeval, Transport}
use luarpc.Socket.{IoRun, finished, thrown, crashed, unfinished}

-- The calls on a system in the state `W`. `none` stands for the descriptor -1 or no flags, and a
-- Boolean says whether the call returned 0; for `select_write` it says whether it returned more.
pub record System (W : Type 0) : Type 0 where
  pub socket : W → Option ℕ × W
  pub set_nodelay : W → ℕ → W
  pub fdopen : W → ℕ → Bool × W
  pub fclose : W → W
  pub get_flags : W → ℕ → ℕ × W
  pub set_flags : W → ℕ → ℕ → Bool × W
  pub or_nonblock : ℕ → ℕ
  pub connect : W → (fd ip_address ip_port : ℕ) → Bool × W
  pub select_write : W → Timeval → Bool × Timeval × W
  pub getpeername : W → ℕ → Bool × W
  pub bind : W → (fd ip_address ip_port : ℕ) → Bool × W
  pub listen : W → (fd maxcon : ℕ) → Bool × W
  pub accept : W → ℕ → Option ℕ × W
  pub readable : W → ℕ → Bool × W
  pub errno : W → ℕ
  pub einprogress : ℕ

abbrev pub and_next : {W A B : Type 0} → IoRun W A → (A → Transport → W → IoRun W B) → IoRun W B
and_next (finished a t w) k = k a t w
and_next (thrown e t w) k = thrown e t w
and_next crashed k = crashed
and_next unfinished k = unfinished

-- MAXCON
abbrev pub maxcon : ℕ
maxcon = 1

module _ {W : Type 0} (sys : System W) where
  abbrev pub Op : Type 0
  Op = Transport → W → IoRun W (Unit {0})

  -- `if( ret != 0 ) throw a fatal exception with errno`
  unfoldable pub expect : Bool × W → Op
  expect (true, w') t w = finished tt t w'
  expect (false, w') t w = thrown (exception fatal (sys.errno w')) t w'

  unfoldable pub transport_init : Transport → Transport
  transport_init t = record t { fd = none; must_die = false }

  -- `fdopen` on the new descriptor.
  unfoldable pub set_file : Bool × W → Op
  set_file (true, w') t w = finished tt (record t { file = true }) w'
  set_file (false, w') t w = thrown (exception fatal (sys.errno w')) (record t { file = false }) w'

  unfoldable pub opened_fd : Option ℕ × W → Op
  unfolding set_file
  opened_fd (none, w') t w = thrown (exception fatal (sys.errno w')) (record t { fd = none }) w'
  opened_fd (some n, w') t w =
      set_file (sys.fdopen (sys.set_nodelay w' n) n) (record t { fd = some n })
        (sys.set_nodelay w' n)

  unfoldable pub transport_open : Op
  unfolding opened_fd
  transport_open t w = opened_fd (sys.socket w) t w

  -- The descriptor keeps its number.
  unfoldable pub transport_close : Op
  transport_close t w =
      if t.file then finished tt (record t { file = false }) (sys.fclose w) else finished tt t w

  -- The operations below throw ERR_CLOSED on a transport with no descriptor.
  unfoldable pub with_fd : Option ℕ → (ℕ → Op) → Op
  with_fd none f t w = thrown (exception fatal err_closed) t w
  with_fd (some n) f t w = f n t w

  unfoldable pub transport_setnonblock : ℕ → Op
  unfolding expect
  transport_setnonblock n t w =
      let (flags, w') = sys.get_flags w n in
      expect (sys.set_flags w' n (sys.or_nonblock flags)) t w'

  -- The wait for a connection that is in progress.
  unfoldable pub connected : ℕ → Bool × Timeval × W → Op
  unfolding expect
  connected n (true, tv, w') t w = expect (sys.getpeername w' n) (record t { timeout = tv }) w'
  connected n (false, tv, w') t w =
      thrown (exception fatal err_timeout) (record t { timeout = tv }) w'

  unfoldable pub connecting : ℕ → Bool × W → Op
  unfolding connected
  connecting n (true, w') t w = finished tt t w'
  connecting n (false, w') t w =
      if sys.errno w' == sys.einprogress
      then connected n (sys.select_write w' t.timeout) t w'
      else thrown (exception fatal (sys.errno w')) t w'

  unfoldable pub transport_connect : (ip_address ip_port : ℕ) → Op
  unfolding with_fd transport_setnonblock connecting
  transport_connect ip port t w =
      with_fd t.fd
        (λ n t w.
          and_next (transport_setnonblock n t w)
            λ _ t w. connecting n (sys.connect w n ip port) t w)
        t w

  unfoldable pub transport_bind : (ip_address ip_port : ℕ) → Op
  unfolding with_fd expect
  transport_bind ip port t w = with_fd t.fd (λ n t w. expect (sys.bind w n ip port) t w) t w

  unfoldable pub transport_listen : ℕ → Op
  unfolding with_fd expect
  transport_listen max t w = with_fd t.fd (λ n t w. expect (sys.listen w n max) t w) t w

  -- The descriptor that `accept` returns, for the transport `t`; with none an assertion fails.
  unfoldable pub accepted : Option ℕ × W → Op
  unfolding set_file transport_setnonblock
  accepted (none, w') t w = crashed
  accepted (some n, w') t w =
      and_next (set_file (sys.fdopen w' n) (record t { fd = some n }) w')
        λ _ t w. transport_setnonblock n t w

  unfoldable pub accept_on : Option ℕ → Op
  unfolding accepted
  accept_on none t w = thrown (exception fatal err_closed) t w
  accept_on (some l) t w = accepted (sys.accept w l) t w

  -- On the listener, which stays as it is, for the transport that is passed on.
  unfoldable pub transport_accept : (listener : Transport) → Op
  unfolding accept_on
  transport_accept listener t w = accept_on listener.fd t w

  unfoldable pub transport_readable : Transport → W → Bool × W
  transport_readable t w = elim t.fd [ none ↦ (false, w) | some n ↦ sys.readable w n ]

  -- `transport_open_listener` behind the checks of its arguments, on INADDR_ANY.
  unfoldable pub transport_open_listener : (port : ℕ) → Op
  unfolding transport_open transport_bind transport_listen
  transport_open_listener port t w =
      and_next (transport_open t w)
        λ _ t w. and_next (transport_bind 0 port t w) λ _ t w. transport_listen maxcon t w

  -- `transport_open_connection` behind the resolution of the host name.
  unfoldable pub transport_open_connection : (ip_address port : ℕ) → Op
  unfolding transport_open transport_connect
  transport_open_connection ip port t w =
      and_next (transport_open t w)
        λ _ t w. transport_connect ip port (record t { timeout = t.com_timeout }) w
