-- ===== src/Socket/Windows/Reading.antt =====
-- What the loop of `transport_read_buffer` on Windows (luarpc_socket.c) returns, and when it does not.
use luarpc.Base.{
  ℕ, zero, suc, ◌-◌, ◌≤◌, ◌<◌, ◌≡◌, refl, sym, Bytes, Bool, true, false, Option, none, some, [],
  ◌∷◌, ◌++◌, length, ◌==◌,
}
use mathlib.Core.Path.{subst}
use luarpc.Errors.{exception, nonfatal}
use luarpc.Transport.{Timeval, Transport}
use luarpc.Socket.{IoRun, finished, thrown, unfinished}
use luarpc.Socket.Windows.{
  Winsock, Do, on_fd, wait, stalled, after_read, read_rounds, transport_read_buffer,
}

abbrev pub moved : Option Bytes → Bytes
moved none = []
moved (some bs) = bs

-- A call of `ReadFile` stored no byte, and the last error is ERROR_IO_PENDING.
abbrev pub is_pending : {W : Type 0} → Winsock W → W → ℕ → ℕ → Bool
is_pending win w fd n = win.get_last_error (win.read_file w fd n).1 == win.error_io_pending

-- `ReadFile` stores the next bytes, at most as many as asked for. The descriptor is not overlapped, so
-- ERROR_IO_PENDING is never the last error, neither where the call fails nor left from before.
pub record Reads {W : Type 0} (win : Winsock W) (stream : W → Bytes) : Type 0 where
  pub next :
      (w : W) (fd n : ℕ)
      → stream w ≡ moved (win.read_file w fd n).0 ++ stream (win.read_file w fd n).1
  pub short : (w : W) (fd n : ℕ) → length (moved (win.read_file w fd n).0) ≤ n
  pub not_overlapped : (w : W) (fd n : ℕ) → is_pending win w fd n ≡ false

-- The outcome of a read of `n` bytes behind `got`, where `bs` is to come: they were next; or a call
-- stored none, when fewer had been consumed, and the last error is thrown.
pub data Taken {W : Type 0} (win : Winsock W) (stream : W → Bytes) (n : ℕ) (got bs : Bytes)
    : IoRun W Bytes → Type 0 where
  complete :
      {t : Transport} {w : W} (xs : Bytes) {whole : Bytes}
      → whole ≡ got ++ xs
      → bs ≡ xs ++ stream w
      → length xs ≡ n
      → Taken win stream n got bs (finished whole t w)
  failed :
      {t : Transport} {w : W} (xs : Bytes)
      → bs ≡ xs ++ stream w
      → length xs < n
      → Taken win stream n got bs (thrown (exception nonfatal (win.get_last_error w)) t w)

-- A system that stays as `J` says: no byte is stored, the last error is ERROR_IO_PENDING, from whichever
-- call, and `select` reports the descriptor, as it does at the end of a stream.
pub record Stale {W : Type 0} (win : Winsock W) (fd : ℕ) (J : W → Type 0) : Type 0 where
  pub nothing : (w : W) (n : ℕ) → J w → moved (win.read_file w fd (suc n)).0 ≡ []
  pub pending : (w : W) (n : ℕ) → J w → is_pending win w fd (suc n) ≡ true
  pub ready :
      (w : W) (n : ℕ) (tv : Timeval)
      → J w
      → (let r = win.select_read (win.read_file w fd (suc n)).1 fd tv in (r.0 ≡ false) × J r.2)

module _ {W : Type 0} (win : Winsock W) (fd : ℕ) (J : W → Type 0) (s : Stale win fd J) where
  wait-unfinished :
      (r : Bool × Timeval × W) (again : Do win Bytes) (t : Transport) (w : W)
      → r.0 ≡ false
      → ((t' : Transport) → again t' r.2 ≡ unfinished)
      → wait win r again t w ≡ unfinished
  unfolding wait
  wait-unfinished (false, tv, w') again t w e h = h _
  wait-unfinished (true, tv, w') again t w e h = absurd (cc)

  stalled-unfinished :
      (again : Do win Bytes) (t : Transport) (w : W)
      → (win.get_last_error w == win.error_io_pending) ≡ true
      → (win.select_read w fd t.timeout).0 ≡ false
      → ((t' : Transport) → again t' (win.select_read w fd t.timeout).2 ≡ unfinished)
      → stalled win fd again t w ≡ unfinished
  unfolding stalled
  stalled-unfinished again t w e f h =
      rw e (wait-unfinished (win.select_read w fd t.timeout) again t w f h)

  after_read-unfinished :
      (read : Option Bytes) (rest : Bytes → Do win Bytes) (again : Do win Bytes) (t : Transport)
      (w : W)
      → moved read ≡ []
      → stalled win fd again t w ≡ unfinished
      → after_read win fd read rest again t w ≡ unfinished
  unfolding after_read
  after_read-unfinished none rest again t w e h = h
  after_read-unfinished (some []) rest again t w e h = h
  after_read-unfinished (some (b ∷ r)) rest again t w e h = absurd (cc)

  read_rounds-unfinished :
      (k n : ℕ) (got : Bytes) (t : Transport) (w : W)
      → J w
      → read_rounds win k fd (suc n) got t w ≡ unfinished
  unfolding read_rounds
  read_rounds-unfinished zero n got t w j = refl
  read_rounds-unfinished (suc k) n got t w j =
      let w' = (win.read_file w fd (suc n)).1 in
      let round = s.ready w n t.timeout j in
      after_read-unfinished (win.read_file w fd (suc n)).0
        (λ bs. read_rounds win k fd (suc n - length bs) (got ++ bs))
        (read_rounds win k fd (suc n) got) t w' (s.nothing w n j)
        (stalled-unfinished (read_rounds win k fd (suc n) got) t w' (s.pending w n j) round.0
          λ t'. read_rounds-unfinished k n got t' (win.select_read w' fd t.timeout).2 round.1)

  -- At the end of a stream, where ReadFile succeeds without a byte and so leaves the last error as it
  -- was, and that is ERROR_IO_PENDING, while select reports the descriptor: a read of one byte or more
  -- goes on for ever, whatever number of rounds it is given.
  pub windows_read_buffer-endless :
      (k n : ℕ) (t : Transport) (w : W)
      → t.fd ≡ some fd
      → J w
      → transport_read_buffer win k (suc n) t w ≡ unfinished
  unfolding transport_read_buffer on_fd
  windows_read_buffer-endless k n t w o j =
      subst (λ d. on_fd win d (λ fd. read_rounds win k fd (suc n) []) t w ≡ unfinished) (sym o)
        (read_rounds-unfinished k n [] t w j)
