-- ===== src/Witnesses/Serial.antt =====
-- The theorems about serial ports, each at a concrete input.
use luarpc.Base.{
  ℕ, zero, suc, ◌*◌, ◌/◌, ◌≡◌, ◌≤◌, refl, Bytes, true, false, none, some, [], ◌∷◌, ◌++◌, length,
  arith,
}
use luarpc.Examples.{World, library, link, at_start}
use luarpc.State.{State, read_buffer}
use luarpc.Socket.{finished, crashed}
use luarpc.Socket.Contract.{Implements}
use luarpc.Serial.{ser_ok, Port, transport_open, transport_read_buffer}
use luarpc.Serial.Posix.{Termios, Tty, posix_port}
use luarpc.Serial.Posix
use luarpc.Serial.Reading.{Delivers, serial_read_buffer-Implements}
use luarpc.Serial.Settings.{
  Terminals, Configured, serial_read_error-crashes, serial_open-Configured,
}

-- A port that delivers a byte at a time.
abbrev one_byte : ℕ → Bytes → ℕ × Bytes × Bytes
one_byte zero w = (0, [], w)
one_byte (suc n) [] = (0, [], [])
one_byte (suc n) (b ∷ r) = (1, b ∷ [], r)

abbrev slow_port : Port Bytes
slow_port = record {
  ser_open = λ path w. (some 3, w);
  ser_close = λ id w. w;
  ser_setup = λ id baud databits parity stopbits w. (ser_ok, w);
  ser_set_timeout_ms = λ id timeout w. w;
  ser_read = λ id. one_byte;
  ser_write = λ id bs w. (length bs, w);
  ser_readable = λ id w. (some true, w);
  errno = λ w. 5;
}

one_byte-next : (n : ℕ) (w : Bytes) → w ≡ (one_byte n w).1 ++ (one_byte n w).2
one_byte-next zero w = refl
one_byte-next (suc n) [] = refl
one_byte-next (suc n) (b ∷ r) = refl

one_byte-counted : (n : ℕ) (w : Bytes) → (one_byte n w).0 ≡ length (one_byte n w).1
one_byte-counted zero w = refl
one_byte-counted (suc n) [] = refl
one_byte-counted (suc n) (b ∷ r) = refl

one_byte-short : (n : ℕ) (w : Bytes) → (one_byte n w).0 ≤ n
one_byte-short zero w = omega arith
one_byte-short (suc n) [] = omega arith
one_byte-short (suc n) (b ∷ r) = omega arith

one_byte-ends : (n : ℕ) (w : Bytes) → (one_byte (suc n) w).0 ≡ 0 → w ≡ []
one_byte-ends n [] h = refl
one_byte-ends n (b ∷ r) h = absurd (omega arith)

slow_port-Delivers : Delivers slow_port (λ w. w)
slow_port-Delivers = record {
  next = λ id. one_byte-next;
  counted = λ id. one_byte-counted;
  short = λ id. one_byte-short;
  ends = λ id. one_byte-ends;
}

abbrev three_to_come : State World
three_to_come = record (at_start library) { input = 7 ∷ (8 ∷ (9 ∷ [])) }

serial_read_buffer-Implements_example :
    Implements
      (λ w. w)
      (read_buffer 2 three_to_come)
      (transport_read_buffer slow_port 2 link (7 ∷ (8 ∷ (9 ∷ []))))
serial_read_buffer-Implements_example =
    serial_read_buffer-Implements slow_port (λ w. w) slow_port-Delivers 2 three_to_come
      (7 ∷ (8 ∷ (9 ∷ []))) refl

abbrev cooked : Termios
cooked = record {
  ispeed = 13;
  ospeed = 13;
  cstopb = true;
  parenb = true;
  parodd = true;
  clocal = false;
  cread = false;
  csize = 32;
  crtscts = true;
  ixon = true;
  ixoff = true;
  ixany = true;
  inpck = true;
  istrip = true;
  icanon = true;
  echo = true;
  echoe = true;
  isig = true;
  opost = true;
  vtime = 0;
  icrnl = true;
  inlcr = false;
  igncr = false;
  iexten = true;
  vmin = 1;
  others = 7;
}

-- One terminal, its attributes and the flags of its descriptor.
record OneTerminal : Type 0 where
  attrs : Termios
  flags : ℕ

-- Its reads fail.
abbrev terminal : Tty OneTerminal
terminal = record {
  open_port = λ path w. (some 3, w);
  close = λ id w. w;
  set_flags = λ id flags w. record w { flags = flags };
  nanosleep = λ sec nsec w. w;
  tcgetattr = λ id w. (w.attrs, w);
  tcsetattr = λ id a w. record w { attrs = a };
  tcflush = λ id w. w;
  read_fd = λ id maxsize w. (none, w);
  write_fd = λ id bs w. (some (length bs), w);
  select_read = λ id sec usec w. (some true, w);
  errno = λ w. 5;
  o_ndelay = 2048;
  baud = λ b. b / 100;
  cs = λ nb. nb * 16;
}

abbrev at_first : OneTerminal
at_first = record { attrs = cooked; flags = 2048 }

terminal-Terminals : Terminals terminal (λ w id. w.attrs) (λ w id. w.flags)
terminal-Terminals = record {
  got = λ id w. refl;
  set = λ id a w. refl;
  got_kept = λ id w. refl;
  sleep_kept = λ id sec nsec w. refl;
  flags_kept = λ id f w. refl;
  flush_kept = λ id w. refl;
  flags_set = λ id f w. refl;
  set_kept = λ id a w. refl;
}

serial_read_error-crashes_example :
    transport_read_buffer (posix_port terminal) 4 link at_first ≡ crashed
serial_read_error-crashes_example =
    serial_read_error-crashes terminal 4 3 link at_first refl (omega arith) (omega arith) refl

serial_open-Configured_example :
    (w' : OneTerminal) × (transport_open (posix_port terminal) (47 ∷ []) link at_first
      ≡ finished tt (record link { fd = some 3 }) w')
    × Configured terminal cooked w'.attrs
serial_open-Configured_example =
    serial_open-Configured terminal (λ w id. w.attrs) (λ w id. w.flags) terminal-Terminals (47 ∷ [])
      3 link at_first refl
