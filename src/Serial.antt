-- ===== src/Serial.antt =====
-- The transport over a serial port (luarpc_serial.c), over the interface that serial.h asks of each
-- platform.
pub mod Arguments
pub mod Posix
pub mod Reading
pub mod Settings
pub mod Win32
use luarpc.Base.{
  ℕ, zero, suc, ◌-◌, Bytes, Bool, true, false, Option, none, some, [], ◌∷◌, ◌++◌, length, ltb, ◌==◌,
  if◌then◌else◌,
}
use luarpc.Errors.{exception, nonfatal, fatal, err_closed, err_nodata}
use luarpc.Transport.{Transport}
use luarpc.Socket.{IoRun, finished, thrown, crashed, unfinished}
use luarpc.Socket.Lifecycle.{and_next}

-- SER_OK and SER_ERR, and the constants that the transport passes on.
pub data Status : Type 0 where
  ser_ok ser_err : Status

pub data Parity : Type 0 where
  parity_none parity_even parity_odd : Parity

pub data Stopbits : Type 0 where
  stopbits_1 stopbits_1_5 stopbits_2 : Stopbits

-- The functions of serial.h on a system in the state `W`. A handle is a number, `none` the invalid
-- one. `ser_read` gives its result, a uint32_t, and the bytes that it stored; `ser_readable` gives
-- `none` for a negative result.
pub record Port (W : Type 0) : Type 0 where
  pub ser_open : Bytes → W → Option ℕ × W
  pub ser_close : ℕ → W → W
  pub ser_setup : (id baud databits : ℕ) → Parity → Stopbits → W → Status × W
  pub ser_set_timeout_ms : (id timeout : ℕ) → W → W
  pub ser_read : (id maxsize : ℕ) → W → ℕ × Bytes × W
  pub ser_write : ℕ → Bytes → W → ℕ × W
  pub ser_readable : ℕ → W → Option Bool × W
  -- transport_errno
  pub errno : W → ℕ

module _ {W : Type 0} (port : Port W) where
  -- A command on a transport and the system.
  abbrev pub Do : Type 0 → Type 0
  Do A = Transport → W → IoRun W A

  unfoldable pub transport_init : Transport → Transport
  transport_init t = record t { fd = none }

  -- TRANSPORT_VERIFY_OPEN, and what follows it.
  unfoldable pub on_port : {A : Type 0} → Option ℕ → (ℕ → Do A) → Do A
  on_port none f t w = thrown (exception fatal err_closed) t w
  on_port (some n) f t w = f n t w

  -- The results of `ser_setup` and `ser_set_timeout_ms` are not looked at.
  unfoldable pub opened_port : Option ℕ × W → Do (Unit {0})
  opened_port (none, w') t w = thrown (exception fatal (port.errno w')) (record t { fd = none }) w'
  opened_port (some n, w') t w =
      let set = (port.ser_setup n 115200 8 Parity.parity_none Stopbits.stopbits_1 w').1 in
      finished tt (record t { fd = some n }) (port.ser_set_timeout_ms n 1000 set)

  unfoldable pub transport_open : Bytes → Do (Unit {0})
  unfolding opened_port
  transport_open path t w = opened_port (port.ser_open path w) t w

  unfoldable readable_result : Option Bool × W → Do Bool
  readable_result (none, w') t w = thrown (exception fatal (port.errno w')) t w'
  readable_result (some b, w') t w = finished b t w'

  unfoldable pub transport_readable : Do Bool
  unfolding readable_result
  transport_readable t w = elim t.fd [
    | none ↦ finished false t w
    | some n ↦ readable_result (port.ser_readable n w) t w
  ]

  -- `while( transport_readable( tpt ) == 0 );`, so many times at most.
  unfoldable await : (fuel : ℕ) → Do (Unit {0})
  unfolding transport_readable
  await zero t w = unfinished
  await (suc k) t w =
      and_next (transport_readable t w)
        λ ready t' w'. elim ready [ true ↦ finished tt t' w' | false ↦ await k t' w' ]

  -- Behind the checks of its arguments.
  unfoldable pub transport_open_listener : (fuel : ℕ) → Bytes → Do (Unit {0})
  unfolding transport_open await
  transport_open_listener k path t w = and_next (transport_open path t w) λ _ t' w'. await k t' w'

  unfoldable pub transport_open_connection : Bytes → Do (Unit {0})
  unfolding transport_open
  transport_open_connection path t w = transport_open path t w

  -- On the listener; the result is the descriptor for the transport accepted, which is its own.
  unfoldable pub transport_accept : (fuel : ℕ) → Do (Option ℕ)
  unfolding on_port await
  transport_accept k t w =
      on_port t.fd (λ n t w. and_next (await k t w) λ _ t' w'. finished t'.fd t' w') t w

  -- A round of the read: `got` is in the buffer and `n` more are asked for, of which `ret` were
  -- read. `ret` is unsigned, so the test for a negative result never holds, and the pointer is
  -- moved behind the buffer.
  unfoldable pub after_read : (n ret : ℕ) → (rest : Do Bytes) → Do Bytes
  after_read n ret rest t w =
      if ret == 0
      then thrown (exception nonfatal err_nodata) t w
      else if ltb n ret
      then crashed
      else rest t w

  unfoldable pub read_rounds : (fuel n : ℕ) → Bytes → Do Bytes
  unfolding after_read on_port
  read_rounds k zero got t w = finished got t w
  read_rounds zero (suc n) got t w = unfinished
  read_rounds (suc k) (suc n) got t w =
      on_port t.fd
        (λ id t w.
          let (ret, bs, w') = port.ser_read id (suc n) w in
          after_read (suc n) ret (read_rounds k (suc n - ret) (got ++ bs)) t w')
        t w

  unfoldable pub transport_read_buffer : (n : ℕ) → Do Bytes
  unfolding read_rounds on_port
  transport_read_buffer n t w = on_port t.fd (λ id t w. read_rounds n n [] t w) t w

  unfoldable pub transport_write_buffer : Bytes → Do (Unit {0})
  unfolding on_port
  transport_write_buffer bs t w =
      on_port t.fd
        (λ id t w.
          let (n, w') = port.ser_write id bs w in
          if n == length bs
          then finished tt t w'
          else thrown (exception fatal (port.errno w')) t w')
        t w

  unfoldable transport_is_open : Transport → Bool
  transport_is_open t = elim t.fd [ none ↦ false | some n ↦ true ]

  unfoldable pub transport_close : Do (Unit {0})
  transport_close t w = elim t.fd [
    | none ↦ finished tt t w
    | some n ↦ finished tt (record t { fd = none }) (port.ser_close n w)
  ]
