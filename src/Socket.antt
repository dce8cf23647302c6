-- ===== src/Socket.antt =====
-- Reading and writing over a socket (luarpc_socket.c, the POSIX branch): loops around `fread`,
-- `fwrite` and `select`, which are parameters.
pub mod Contract
pub mod Reading
pub mod Writing
pub mod Windows
pub mod Refinement
pub mod Lifecycle
pub mod Making
pub mod Opening
use luarpc.Base.{
  ℕ, zero, suc, ◌-◌, Bytes, Bool, true, false, List, [], ◌∷◌, ◌++◌, length, drop, ◌==◌, ◌&&◌, not,
}
use luarpc.Errors.{Exception, exception, nonfatal, fatal, err_closed, err_timeout}
use luarpc.Transport.{Timeval, Transport}
use luarpc.State.{is_open}

-- The calls on a connection in the state `W`, which is the system's. `fread` is given the number
-- of bytes asked for, `fwrite` says how many it took, and a `select` on the one descriptor says
-- whether it returned 0, and what it left in the timeout.
pub record Stdio (W : Type 0) : Type 0 where
  pub fread : W → ℕ → Bytes × W
  pub fwrite : W → Bytes → ℕ × W
  pub feof : W → Bool
  pub errno : W → ℕ
  pub select_read : W → Timeval → Bool × Timeval × W
  pub select_write : W → Timeval → Bool × Timeval × W
  pub eagain : ℕ

-- `crashed` is the use of a null FILE pointer, `unfinished` the end of the fuel.
pub data IoRun (W A : Type 0) : Type 0 where
  finished : A → Transport → W → IoRun W A
  thrown : Exception → Transport → W → IoRun W A
  crashed : IoRun W A
  unfinished : IoRun W A

module _ {W : Type 0} (io : Stdio W) where
  -- A command on a transport and the system.
  abbrev pub Io : Type 0 → Type 0
  Io A = Transport → W → IoRun W A

  unfoldable pub fail : {A : Type 0} → ℕ → Io A
  fail e t w = thrown (exception nonfatal e) t w

  -- The wait for the descriptor, and the next round.
  unfoldable pub wait : {A : Type 0} → Bool × Timeval × W → Io A → Io A
  unfolding fail
  wait (true, tv, w') rest t w = fail err_timeout (record t { timeout = tv }) w'
  wait (false, tv, w') rest t w = rest (record t { timeout = tv }) w'

  -- The tests behind a call that left `left` bytes: `eof` says that it moved nothing and found the
  -- end of the file, `again` that errno is EAGAIN.
  unfoldable pub after_call :
      {A : Type 0}
      → (W → Timeval → Bool × Timeval × W)
      → (eof : Bool) → (left : ℕ) → (again : Bool) → Io A
      → Io A
  unfolding wait
  after_call select true left again rest t w = fail (io.errno w) t w
  after_call select false zero again rest t w = rest t w
  after_call select false (suc left) true rest t w = wait (select w t.timeout) rest t w
  after_call select false (suc left) false rest t w = fail (io.errno w) t w

  -- The loop of `transport_read_buffer`: `n` bytes are missing behind those in `got`.
  unfoldable pub read_rounds : (fuel n : ℕ) → Bytes → Io Bytes
  unfolding after_call
  read_rounds k zero got t w = finished got t w
  read_rounds zero (suc n) got t w = unfinished
  read_rounds (suc k) (suc n) got t w =
      let (bs, w') = io.fread w (suc n) in
      let left = suc n - length bs in
      after_call io.select_read ((length bs == 0) && io.feof w') left (io.errno w' == io.eagain)
        (read_rounds k left (got ++ bs)) t w'

  -- The loop of `transport_write_buffer`.
  unfoldable pub write_rounds : (fuel : ℕ) → Bytes → Io (Unit {0})
  unfolding after_call
  write_rounds k [] t w = finished tt t w
  write_rounds zero (b ∷ r) t w = unfinished
  write_rounds (suc k) (b ∷ r) t w =
      let (n, w') = io.fwrite w (b ∷ r) in
      after_call io.select_write ((n == 0) && io.feof w') (length (b ∷ r) - n)
        (io.errno w' == io.eagain) (write_rounds k (drop n (b ∷ r))) t w'

  -- TRANSPORT_VERIFY_OPEN, and the loop on a FILE pointer that is set.
  unfoldable pub opened : {A : Type 0} → (is_valid has_file : Bool) → Io A → Io A
  opened false file p t w = thrown (exception fatal err_closed) t w
  opened true false p t w = crashed
  opened true true p t w = p t w

  unfoldable pub transport_read_buffer : (fuel n : ℕ) → Io Bytes
  unfolding read_rounds opened
  transport_read_buffer k zero t w = opened (is_open t) true (read_rounds k zero []) t w
  transport_read_buffer k (suc n) t w = opened (is_open t) t.file (read_rounds k (suc n) []) t w

  unfoldable pub transport_write_buffer : (fuel : ℕ) → Bytes → Io (Unit {0})
  unfolding write_rounds opened
  transport_write_buffer k [] t w = opened (is_open t) true (write_rounds k []) t w
  transport_write_buffer k (b ∷ r) t w = opened (is_open t) t.file (write_rounds k (b ∷ r)) t w
