-- ===== src/Serial/Win32.antt =====
-- The functions of serial.h by Windows calls (serial_win32.c).
use luarpc.Base.{
  ℕ, ◌-◌, ◌^◌, Bytes, Bool, true, false, Option, none, some, [], ◌∷◌, get_or, take, ltb, ◌==◌,
  if◌then◌else◌,
}
use luarpc.Serial.{Status, ser_ok, ser_err, Parity, parity_none, Stopbits, Port}

-- COMMTIMEOUTS
pub record CommTimeouts : Type 0 where
  pub read_interval_timeout : ℕ
  pub read_total_timeout_constant : ℕ
  pub read_total_timeout_multiplier : ℕ
  pub write_total_timeout_constant : ℕ
  pub write_total_timeout_multiplier : ℕ

-- DCB: the fields that `ser_setup` touches, and `others` for the rest. The values NOPARITY, ... and
-- ONESTOPBIT, ... are named by what they say.
pub record Dcb : Type 0 where
  pub baud_rate : ℕ
  pub byte_size : ℕ
  pub parity : Parity
  pub stop_bits : Stopbits
  pub binary : Bool
  pub check_parity : Bool
  pub dsr_sensitivity : Bool
  pub out_x : Bool
  pub in_x : Bool
  pub null : Bool
  pub abort_on_error : Bool
  pub out_cts_flow : Bool
  pub out_dsr_flow : Bool
  pub dtr_control : Bool
  pub rts_control : Bool
  pub others : ℕ

-- The calls on a system in the state `W`; `none` and `false` stand for failure.
pub record Comm (W : Type 0) : Type 0 where
  pub create_file : Bytes → W → Option ℕ × W
  pub setup_comm : (id in_queue out_queue : ℕ) → W → Bool × W
  pub close_handle : ℕ → W → W
  pub get_comm_state : ℕ → W → Option Dcb × W
  pub set_comm_state : ℕ → Dcb → W → Bool × W
  pub get_comm_timeouts : ℕ → W → Option CommTimeouts × W
  pub set_comm_timeouts : ℕ → CommTimeouts → W → Bool × W
  pub flush_file_buffers : ℕ → W → W
  pub read_file : (id maxsize : ℕ) → W → Option (ℕ × Bytes) × W
  pub write_file : ℕ → Bytes → W → Option ℕ × W
  -- `cbInQue` of the status that `ClearCommError` gives
  pub in_queue : ℕ → W → ℕ × W
  pub errno : W → ℕ

abbrev maxdword : ℕ
maxdword = 2 ^ 32 - 1

abbrev pub ser_inf_timeout : ℕ
ser_inf_timeout = 2 ^ 32 - 1

abbrev pub ser_no_timeout : ℕ
ser_no_timeout = 0

module _ {W : Type 0} (comm : Comm W) where
  unfoldable pub timeouts_set : ℕ → Bool × W → Status × W
  timeouts_set id (true, w) = (ser_ok, w)
  timeouts_set id (false, w) = (ser_err, comm.close_handle id w)

  unfoldable pub timeouts_got : (id ri rtm rtc wtm wtc : ℕ) → Option CommTimeouts × W → Status × W
  unfolding timeouts_set
  timeouts_got id ri rtm rtc wtm wtc (none, w) = (ser_err, comm.close_handle id w)
  timeouts_got id ri rtm rtc wtm wtc (some timeouts, w) = timeouts_set id (
      comm.set_comm_timeouts id
        (record {
          read_interval_timeout = ri;
          read_total_timeout_constant = rtm;
          read_total_timeout_multiplier = rtc;
          write_total_timeout_constant = wtm;
          write_total_timeout_multiplier = wtc;
        })
        w)

  unfoldable pub ser_win32_set_timeouts : (id ri rtm rtc wtm wtc : ℕ) → W → Status × W
  unfolding timeouts_got
  ser_win32_set_timeouts id ri rtm rtc wtm wtc w =
      timeouts_got id ri rtm rtc wtm wtc (comm.get_comm_timeouts id w)

  unfoldable comm_opened : Option ℕ × W → Option ℕ × W
  comm_opened (none, w) = (none, w)
  comm_opened (some id, w) =
      let (done, w') = comm.setup_comm id 2048 2048 w in (if done then some id else none, w')

  -- The name behind `\\.\`, cut at WIN_MAX_PORT_NAME characters.
  unfoldable pub ser_open : Bytes → W → Option ℕ × W
  unfolding comm_opened
  ser_open sername w = comm_opened (comm.create_file (take 1024 (92 ∷ 92 ∷ b'.' ∷ 92 ∷ sername)) w)

  unfoldable pub ser_close : ℕ → W → W
  ser_close id w = comm.close_handle id w

  abbrev has_parity : Parity → Bool
  has_parity parity_none = false
  has_parity _ = true

  unfoldable pub configure : (baud databits : ℕ) → Parity → Stopbits → Dcb → Dcb
  configure baud databits parity stopbits d = record d {
    baud_rate = baud;
    byte_size = databits;
    parity = parity;
    stop_bits = stopbits;
    binary = true;
    dsr_sensitivity = false;
    check_parity = has_parity parity;
    out_x = false;
    in_x = false;
    null = false;
    abort_on_error = false;
    out_cts_flow = false;
    out_dsr_flow = false;
    dtr_control = false;
    rts_control = false;
  }

  unfoldable timeouts_done : ℕ → Status × W → Status × W
  timeouts_done id (ser_err, w) = (ser_err, comm.close_handle id w)
  timeouts_done id (ser_ok, w) = (ser_ok, comm.flush_file_buffers id w)

  unfoldable state_set : ℕ → Bool × W → Status × W
  unfolding ser_win32_set_timeouts timeouts_done
  state_set id (false, w) = (ser_err, comm.close_handle id w)
  state_set id (true, w) = timeouts_done id (ser_win32_set_timeouts id 0 0 0 0 0 w)

  unfoldable state_got : (id baud databits : ℕ) → Parity → Stopbits → Option Dcb × W → Status × W
  unfolding state_set configure
  state_got id baud databits parity stopbits (none, w) = (ser_err, comm.close_handle id w)
  state_got id baud databits parity stopbits (some dcb, w) =
      state_set id (comm.set_comm_state id (configure baud databits parity stopbits dcb) w)

  unfoldable pub ser_setup : (id baud databits : ℕ) → Parity → Stopbits → W → Status × W
  unfolding state_got
  ser_setup id baud databits parity stopbits w =
      state_got id baud databits parity stopbits (comm.get_comm_state id w)

  unfoldable pub read_result : Option (ℕ × Bytes) × W → ℕ × Bytes × W
  read_result (none, w) = (0, [], w)
  read_result (some (n, bs), w) = (n, bs, w)

  unfoldable pub ser_read : (id maxsize : ℕ) → W → ℕ × Bytes × W
  unfolding read_result
  ser_read id maxsize w = read_result (comm.read_file id maxsize w)

  -- `none` stands for -1.
  unfoldable pub ser_read_byte : ℕ → W → Option ℕ × W
  unfolding ser_read
  ser_read_byte id w =
      let (res, bs, w') = ser_read id 1 w in (if res == 1 then some (get_or bs 0 0) else none, w')

  unfoldable pub write_result : Option ℕ × W → ℕ × W
  write_result (none, w) = (0, w)
  write_result (some n, w) = (n, w)

  unfoldable pub ser_write : ℕ → Bytes → W → ℕ × W
  unfolding write_result
  ser_write id bs w = write_result (comm.write_file id bs w)

  unfoldable pub ser_write_byte : (id data_byte : ℕ) → W → ℕ × W
  unfolding ser_write
  ser_write_byte id b w = ser_write id (b ∷ []) w

  unfoldable pub ser_set_timeout_ms : (id timeout : ℕ) → W → W
  unfolding ser_win32_set_timeouts
  ser_set_timeout_ms id timeout w =
      if timeout == ser_no_timeout
      then (ser_win32_set_timeouts id maxdword 0 0 0 0 w).1
      else if timeout == ser_inf_timeout
      then (ser_win32_set_timeouts id 0 0 0 0 0 w).1
      else (ser_win32_set_timeouts id 0 0 timeout 0 0 w).1

  unfoldable pub ser_readable : ℕ → W → Option Bool × W
  ser_readable id w = let (n, w') = comm.in_queue id w in (some (ltb 0 n), w')

  abbrev win32_port : Port W
  win32_port = record {
    ser_open = ser_open;
    ser_close = ser_close;
    ser_setup = ser_setup;
    ser_set_timeout_ms = ser_set_timeout_ms;
    ser_read = ser_read;
    ser_write = ser_write;
    ser_readable = ser_readable;
    errno = comm.errno;
  }
