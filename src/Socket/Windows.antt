-- ===== src/Socket/Windows.antt =====
-- The transport over sockets on Windows (luarpc_socket.c, the WIN32 branch) and the start of WinSock
-- (luarpc.c, `net_startup`): loops around `ReadFile`, `WriteFile` and `select`, which are parameters.
pub mod Reading
pub mod Writing
pub mod Closing
pub mod Startup
pub mod Texts
use luarpc.Base.{
  ℕ, zero, suc, ◌-◌, Bytes, Bool, true, false, Option, none, some, [], ◌∷◌, ◌++◌, length, drop,
  ◌==◌, if◌then◌else◌,
}
use luarpc.Errors.{exception, nonfatal, fatal, err_closed, err_timeout}
use luarpc.Transport.{Timeval, Transport}
use luarpc.Socket.{IoRun, finished, thrown, crashed, unfinished}
use luarpc.Socket.Lifecycle.{
  System, expect, connecting, transport_bind, transport_listen, and_next, maxcon,
}

-- The calls on a system in the state `W`. `sys` has those that the branch shares with POSIX: its
-- `socket` is `WSASocket`, its `errno` WSAGetLastError and its `einprogress` WSAEWOULDBLOCK.
-- `read_file` gives the bytes stored and `write_file` their number, `none` where the call returns
-- FALSE. A `select` on the one descriptor says whether it returned 0, and what it left in the
-- timeout. `closesocket` is given what the transport has for a descriptor.
pub record Winsock (W : Type 0) : Type 0 where
  pub sys : System W
  pub ioctlsocket : W → ℕ → Bool × W
  pub closesocket : W → Option ℕ → W
  pub read_file : W → (fd n : ℕ) → Option Bytes × W
  pub write_file : W → (fd : ℕ) → Bytes → Option ℕ × W
  pub flush_file_buffers : W → ℕ → W
  pub get_last_error : W → ℕ
  pub select_read : W → ℕ → Timeval → Bool × Timeval × W
  pub error_io_pending : ℕ

module _ {W : Type 0} (win : Winsock W) where
  -- A command on a transport and the system.
  abbrev pub Do : Type 0 → Type 0
  Do A = Transport → W → IoRun W A

  -- TRANSPORT_VERIFY_OPEN, and what follows it.
  unfoldable pub on_fd : {A : Type 0} → Option ℕ → (ℕ → Do A) → Do A
  on_fd none f t w = thrown (exception fatal err_closed) t w
  on_fd (some n) f t w = f n t w

  -- The wait for the descriptor, and the next round.
  unfoldable pub wait : {A : Type 0} → Bool × Timeval × W → Do A → Do A
  wait (true, tv, w') again t w =
      thrown (exception nonfatal err_timeout) (record t { timeout = tv }) w'
  wait (false, tv, w') again t w = again (record t { timeout = tv }) w'

  -- A call that moved nothing: it failed, or its count was zero.
  unfoldable pub stalled : {A : Type 0} → ℕ → Do A → Do A
  unfolding wait
  stalled fd again t w =
      if win.get_last_error w == win.error_io_pending
      then wait (win.select_read w fd t.timeout) again t w
      else thrown (exception nonfatal (win.get_last_error w)) t w

  -- The tests behind a call of `ReadFile`.
  unfoldable pub after_read : {A : Type 0} → ℕ → Option Bytes → (Bytes → Do A) → Do A → Do A
  unfolding stalled
  after_read fd none rest again t w = stalled fd again t w
  after_read fd (some []) rest again t w = stalled fd again t w
  after_read fd (some (b ∷ r)) rest again t w = rest (b ∷ r) t w

  -- The loop of `transport_read_buffer`: `n` bytes are missing behind those in `got`.
  unfoldable pub read_rounds : (fuel fd n : ℕ) → Bytes → Do Bytes
  unfolding after_read
  read_rounds k fd zero got t w = finished got t w
  read_rounds zero fd (suc n) got t w = unfinished
  read_rounds (suc k) fd (suc n) got t w =
      let (read, w') = win.read_file w fd (suc n) in
      after_read fd read (λ bs. read_rounds k fd (suc n - length bs) (got ++ bs))
        (read_rounds k fd (suc n) got) t w'

  unfoldable pub transport_read_buffer : (fuel n : ℕ) → Do Bytes
  unfolding read_rounds on_fd
  transport_read_buffer k n t w = on_fd t.fd (λ fd. read_rounds k fd n []) t w

  -- The tests behind a call of `WriteFile`.
  unfoldable pub after_write : {A : Type 0} → ℕ → Option ℕ → (ℕ → Do A) → Do A → Do A
  unfolding stalled
  after_write fd none rest again t w = stalled fd again t w
  after_write fd (some zero) rest again t w = stalled fd again t w
  after_write fd (some (suc n)) rest again t w = rest (suc n) t w

  -- The loop of `transport_write_buffer`, which waits for something to read too.
  unfoldable pub write_rounds : (fuel fd : ℕ) → Bytes → Do (Unit {0})
  unfolding after_write
  write_rounds k fd [] t w = finished tt t w
  write_rounds zero fd (b ∷ r) t w = unfinished
  write_rounds (suc k) fd (b ∷ r) t w =
      let (wrote, w') = win.write_file w fd (b ∷ r) in
      after_write fd wrote (λ n. write_rounds k fd (drop n (b ∷ r))) (write_rounds k fd (b ∷ r)) t
        w'

  unfoldable pub transport_write_buffer : (fuel : ℕ) → Bytes → Do (Unit {0})
  unfolding write_rounds on_fd
  transport_write_buffer k bs t w = on_fd t.fd (λ fd. write_rounds k fd bs) t w

  unfoldable pub transport_flush : Do (Unit {0})
  unfolding on_fd
  transport_flush t w = on_fd t.fd (λ fd t w. finished tt t (win.flush_file_buffers w fd)) t w

  unfoldable opened_socket : Option ℕ × W → Do (Unit {0})
  opened_socket (none, w') t w =
      thrown (exception fatal (win.sys.errno w')) (record t { fd = none }) w'
  opened_socket (some n, w') t w = finished tt (record t { fd = some n }) (win.sys.set_nodelay w' n)

  unfoldable pub transport_open : Do (Unit {0})
  unfolding opened_socket
  transport_open t w = opened_socket (win.sys.socket w) t w

  -- The descriptor is tested against 0, and INVALID_TRANSPORT is not 0.
  unfoldable pub transport_close : Do (Unit {0})
  transport_close t w = elim t.fd [
    | some zero ↦ finished tt t w
    | fd ↦ finished tt (record t { fd = some 0 }) (win.closesocket w fd)
  ]

  unfoldable pub transport_setnonblock : ℕ → Do (Unit {0})
  unfolding expect
  transport_setnonblock n t w = expect win.sys (win.ioctlsocket w n) t w

  unfoldable pub transport_connect : (ip_address ip_port : ℕ) → Do (Unit {0})
  unfolding on_fd transport_setnonblock connecting
  transport_connect ip port t w =
      on_fd t.fd
        (λ n t w.
          and_next (transport_setnonblock n t w)
            λ _ t w. connecting win.sys n (win.sys.connect w n ip port) t w)
        t w

  -- The descriptor that `accept` returns, for the transport `t`; with none an assertion fails.
  unfoldable pub accepted : Option ℕ × W → Do (Unit {0})
  unfolding transport_setnonblock
  accepted (none, w') t w = crashed
  accepted (some n, w') t w = transport_setnonblock n (record t { fd = some n }) w'

  -- On the listener, which stays as it is, for the transport that is passed on.
  unfoldable pub transport_accept : (listener : Transport) → Do (Unit {0})
  unfolding on_fd accepted
  transport_accept listener t w = on_fd listener.fd (λ n t w. accepted (win.sys.accept w n) t w) t w

  -- `transport_open_listener` behind the checks of its arguments, on INADDR_ANY.
  unfoldable pub transport_open_listener : (port : ℕ) → Do (Unit {0})
  unfolding transport_open transport_bind transport_listen
  transport_open_listener port t w = and_next (transport_open t w) λ _ t w.
      and_next (transport_bind win.sys 0 port t w) λ _ t w. transport_listen win.sys maxcon t w

  -- `transport_open_connection` behind the resolution of the host name.
  unfoldable pub transport_open_connection : (ip_address port : ℕ) → Do (Unit {0})
  unfolding transport_open transport_connect
  transport_open_connection ip port t w =
      and_next (transport_open t w)
        λ _ t w. transport_connect ip port (record t { timeout = t.com_timeout }) w
