-- ===== src/Serial/Posix.antt =====
-- The functions of serial.h by POSIX calls (serial_posix.c).
use luarpc.Base.{
  ℕ, ◌-◌, ◌/◌, ◌%◌, ◌^◌, Bytes, Bool, true, false, Option, none, some, List, [], ◌∷◌, length,
  get_or, ◌==◌, if◌then◌else◌,
}
use luarpc.Serial.{
  Status, ser_ok, Parity, parity_none, parity_even, parity_odd, Stopbits, stopbits_2, Port,
}

-- struct termios: the bits that `ser_setup` touches, each by its name; `csize` is the field under
-- the mask CSIZE, `vtime` is `c_cc[ VTIME ]`. Of what it does not touch, the bits that change the
-- input and `vmin`, which is `c_cc[ VMIN ]`, have names too, and `others` is all the rest.
pub record Termios : Type 0 where
  pub ispeed : ℕ
  pub ospeed : ℕ
  pub cstopb : Bool
  pub parenb : Bool
  pub parodd : Bool
  pub clocal : Bool
  pub cread : Bool
  pub csize : ℕ
  pub crtscts : Bool
  pub ixon : Bool
  pub ixoff : Bool
  pub ixany : Bool
  pub inpck : Bool
  pub istrip : Bool
  pub icanon : Bool
  pub echo : Bool
  pub echoe : Bool
  pub isig : Bool
  pub opost : Bool
  pub vtime : ℕ
  pub icrnl : Bool
  pub inlcr : Bool
  pub igncr : Bool
  pub iexten : Bool
  pub vmin : ℕ
  pub others : ℕ

-- The calls on a system in the state `W`, and the constants of the headers. `none` stands for the
-- result -1; `tcgetattr` leaves its structure as it says, also when it fails.
pub record Tty (W : Type 0) : Type 0 where
  pub open_port : Bytes → W → Option ℕ × W
  pub close : ℕ → W → W
  pub set_flags : (id flags : ℕ) → W → W
  pub nanosleep : (sec nsec : ℕ) → W → W
  pub tcgetattr : ℕ → W → Termios × W
  pub tcsetattr : ℕ → Termios → W → W
  pub tcflush : ℕ → W → W
  pub read_fd : (id maxsize : ℕ) → W → Option Bytes × W
  pub write_fd : ℕ → Bytes → W → Option ℕ × W
  pub select_read : (id sec usec : ℕ) → W → Option Bool × W
  pub errno : W → ℕ
  pub o_ndelay : ℕ
  -- the constants B1200, ..., B230400 by the rate, and CS5, ..., CS8 by the number of bits
  pub baud : ℕ → ℕ
  pub cs : ℕ → ℕ

abbrev pub ser_inf_timeout : ℕ
ser_inf_timeout = 2 ^ 32 - 1

abbrev pub ser_no_timeout : ℕ
ser_no_timeout = 0

module _ {W : Type 0} (tty : Tty W) where
  -- `perror` only writes a message.
  unfoldable pub ser_open_with : Option ℕ × W → Option ℕ × W
  ser_open_with (none, w) = (none, w)
  ser_open_with (some fd, w) = (some fd, tty.set_flags fd 0 w)

  unfoldable pub ser_open : Bytes → W → Option ℕ × W
  unfolding ser_open_with
  ser_open name w = ser_open_with (tty.open_port name w)

  unfoldable pub ser_close : ℕ → W → W
  ser_close id w = tty.close id w

  abbrev is_among : ℕ → List ℕ → Bool
  is_among x [] = false
  is_among x (y ∷ ys) = if x == y then true else is_among x ys

  unfoldable ser_baud_to_id : ℕ → ℕ
  ser_baud_to_id b =
      if is_among b
        (1200 ∷ 1800 ∷ 2400 ∷ 4800 ∷ 9600 ∷ 19200 ∷ 38400 ∷ 57600 ∷ 115200 ∷ 230400 ∷ [])
      then tty.baud b
      else 0

  unfoldable ser_number_of_bits_to_id : ℕ → ℕ
  ser_number_of_bits_to_id nb = if is_among nb (5 ∷ 6 ∷ 7 ∷ 8 ∷ []) then tty.cs nb else 0

  abbrev is_stopbits_2 : Stopbits → Bool
  is_stopbits_2 stopbits_2 = true
  is_stopbits_2 _ = false

  abbrev is_parity_none : Parity → Bool
  is_parity_none parity_none = true
  is_parity_none _ = false

  unfoldable set_parity : Parity → Termios → Termios
  set_parity parity_none a = record a { parenb = false }
  set_parity parity_even a = record a { parenb = true; parodd = false }
  set_parity parity_odd a = record a { parenb = true; parodd = true }

  -- What `ser_setup` does to the attributes, between `tcgetattr` and `tcsetattr`.
  unfoldable pub configure : (baud databits : ℕ) → Parity → Stopbits → Termios → Termios
  unfolding ser_baud_to_id ser_number_of_bits_to_id set_parity
  configure baud databits parity stopbits a =
      let a₁ = record a {
        ispeed = ser_baud_to_id baud;
        ospeed = ser_baud_to_id baud;
        cstopb = is_stopbits_2 stopbits;
      } in
      let a₂ = set_parity parity a₁ in
      let a₃ = record a₂ {
        clocal = true;
        cread = true;
        csize = ser_number_of_bits_to_id databits;
        crtscts = false;
        ixon = false;
        ixoff = false;
        ixany = false;
        icanon = false;
        echo = false;
        echoe = false;
        isig = false;
        opost = false;
      } in
      if is_parity_none parity
      then record a₃ { inpck = false; istrip = false }
      else record a₃ { inpck = true; istrip = true }

  unfoldable pub ser_setup : (id baud databits : ℕ) → Parity → Stopbits → W → Status × W
  unfolding configure
  ser_setup id baud databits parity stopbits w =
      let (termdata, w₁) = tty.tcgetattr id (tty.nanosleep 0 200000000 w) in
      let w₂ = tty.tcsetattr id (configure baud databits parity stopbits termdata) w₁ in
      (ser_ok, tty.set_flags id 0 (tty.tcflush id w₂))

  -- The result of `read`, as a uint32_t, and the bytes stored.
  unfoldable pub read_result : Option Bytes × W → ℕ × Bytes × W
  read_result (none, w) = (2 ^ 32 - 1, [], w)
  read_result (some bs, w) = (length bs % 2 ^ 32, bs, w)

  unfoldable pub ser_read : (id maxsize : ℕ) → W → ℕ × Bytes × W
  unfolding read_result
  ser_read id maxsize w = read_result (tty.read_fd id maxsize w)

  -- `none` stands for -1.
  unfoldable pub ser_read_byte : ℕ → W → Option ℕ × W
  unfolding ser_read
  ser_read_byte id w =
      let (res, bs, w') = ser_read id 1 w in (if res == 1 then some (get_or bs 0 0) else none, w')

  unfoldable pub write_result : Option ℕ × W → ℕ × W
  write_result (none, w) = (2 ^ 32 - 1, w)
  write_result (some n, w) = (n % 2 ^ 32, w)

  unfoldable pub ser_write : ℕ → Bytes → W → ℕ × W
  unfolding write_result
  ser_write id bs w = write_result (tty.write_fd id bs w)

  unfoldable pub ser_write_byte : (id data_byte : ℕ) → W → ℕ × W
  unfolding write_result
  ser_write_byte id b w = write_result (tty.write_fd id (b ∷ []) w)

  -- A cc_t holds a byte.
  unfoldable pub ser_set_timeout_ms : (id timeout : ℕ) → W → W
  ser_set_timeout_ms id timeout w =
      let (termdata, w₁) = tty.tcgetattr id w in
      if timeout == ser_inf_timeout
      then tty.tcsetattr id (record termdata { vtime = 0 }) (tty.set_flags id 0 w₁)
      else if timeout == ser_no_timeout
      then tty.tcsetattr id (record termdata { vtime = 0 }) (tty.set_flags id tty.o_ndelay w₁)
      else tty.tcsetattr id (record termdata { vtime = timeout / 100 % 256 })
          (tty.set_flags id 0 w₁)

  unfoldable pub ser_readable : ℕ → W → Option Bool × W
  ser_readable id w = tty.select_read id 5 0 w

  abbrev pub posix_port : Port W
  posix_port = record {
    ser_open = ser_open;
    ser_close = ser_close;
    ser_setup = ser_setup;
    ser_set_timeout_ms = ser_set_timeout_ms;
    ser_read = ser_read;
    ser_write = ser_write;
    ser_readable = ser_readable;
    errno = tty.errno;
  }
