-- ===== src/Serial/Settings.antt =====
-- What serial_posix.c sets up on a port, and a read that fails.
use luarpc.Base.{
  ℕ, zero, suc, ◌-◌, ◌^◌, ◌<◌, ◌≡◌, refl, sym, ap, ◌∙◌, [], ◌++◌, Bytes, true, false, Option, none,
  some, ◌==◌, ltb, arith,
}
use mathlib.Core.Path.{subst₂}
use luarpc.Transport.{Transport}
use luarpc.Socket.{IoRun, finished, crashed}
use luarpc.Serial.{
  Parity, Stopbits, on_port, after_read, read_rounds, opened_port, transport_open,
  transport_read_buffer,
}
use luarpc.Serial.Posix.{Tty, Termios, posix_port, read_result, ser_read, ser_open_with, configure}
use luarpc.Serial.Posix

-- The attributes of the terminals, as `tcgetattr` gives and `tcsetattr` sets them, and the flags of
-- their descriptors, as `fcntl` sets them; nothing else changes them.
pub record Terminals {W : Type 0} (tty : Tty W) (attrs : W → ℕ → Termios) (flags : W → ℕ → ℕ)
    : Type 0 where
  pub got : (id : ℕ) (w : W) → (tty.tcgetattr id w).0 ≡ attrs w id
  pub set : (id : ℕ) (a : Termios) (w : W) → attrs (tty.tcsetattr id a w) id ≡ a
  pub got_kept : (id : ℕ) (w : W) → attrs (tty.tcgetattr id w).1 id ≡ attrs w id
  pub sleep_kept : (id sec nsec : ℕ) (w : W) → attrs (tty.nanosleep sec nsec w) id ≡ attrs w id
  pub flags_kept : (id f : ℕ) (w : W) → attrs (tty.set_flags id f w) id ≡ attrs w id
  pub flush_kept : (id : ℕ) (w : W) → attrs (tty.tcflush id w) id ≡ attrs w id
  pub flags_set : (id f : ℕ) (w : W) → flags (tty.set_flags id f w) id ≡ f
  pub set_kept : (id : ℕ) (a : Termios) (w : W) → flags (tty.tcsetattr id a w) id ≡ flags w id

-- The attributes `a`, which were `before`: 115200 bauds, eight data bits, no parity, one stop bit, no
-- flow control; no lines, echo, signals or output processing; VTIME is a second. What else changes
-- the input is as it was: the translations of CR and NL, IEXTEN, and VMIN.
pub record Configured {W : Type 0} (tty : Tty W) (before a : Termios) : Type 0 where
  pub speed : (a.ispeed ≡ tty.baud 115200) × (a.ospeed ≡ tty.baud 115200)
  pub frame : (a.csize ≡ tty.cs 8) × (a.parenb ≡ false) × (a.cstopb ≡ false)
  pub receiver : (a.clocal ≡ true) × (a.cread ≡ true)
  pub no_flow_control :
      (a.crtscts ≡ false) × (a.ixon ≡ false) × (a.ixoff ≡ false) × (a.ixany ≡ false)
  pub eight_bits : (a.inpck ≡ false) × (a.istrip ≡ false)
  pub modes :
      (a.icanon ≡ false)
      × (a.echo ≡ false)
      × (a.echoe ≡ false)
      × (a.isig ≡ false)
      × (a.opost ≡ false)
  pub patience : a.vtime ≡ 10
  pub translations : (a.icrnl ≡ before.icrnl) × (a.inlcr ≡ before.inlcr) × (a.igncr ≡ before.igncr)
  pub untouched : (a.iexten ≡ before.iexten) × (a.vmin ≡ before.vmin) × (a.others ≡ before.others)

module _ {W : Type 0} (tty : Tty W) where
  on_port-some :
      {A : Type 0} (d : Option ℕ) (n : ℕ) (f : ℕ → Transport → W → IoRun W A) (t : Transport)
      (w : W)
      → d ≡ some n
      → on_port (posix_port tty) d f t w ≡ f n t w
  unfolding on_port
  on_port-some d n f t w e = ap (λ d. on_port (posix_port tty) d f t w) e

  read_result-failed : (r : Option Bytes × W) → r.0 ≡ none → (read_result tty r).0 ≡ 2 ^ 32 - 1
  unfolding read_result
  read_result-failed (none, w) e = refl
  read_result-failed (some bs, w) e = cc

  configure-Configured :
      (a : Termios)
      → Configured tty a
          (record (configure tty 115200 8 Parity.parity_none Stopbits.stopbits_1 a) { vtime = 10 })
  unfolding configure
  configure-Configured a = record {
    speed = (refl, refl);
    frame = (refl, refl, refl);
    receiver = (refl, refl);
    no_flow_control = (refl, refl, refl, refl);
    eight_bits = (refl, refl);
    modes = (refl, refl, refl, refl, refl);
    patience = refl;
    translations = (refl, refl, refl);
    untouched = (refl, refl, refl);
  }

  after_read-negative :
      (n ret : ℕ) (rest : Transport → W → IoRun W Bytes) (t : Transport) (w : W)
      → ret ≡ 2 ^ 32 - 1
      → n < 2 ^ 32 - 1
      → after_read (posix_port tty) n ret rest t w ≡ crashed
  unfolding after_read
  after_read-negative n ret rest t w e l =
      let some_read : (ret == 0) ≡ false = ground arith in
      let outside : ltb n ret ≡ true = ground arith in rw (some_read, outside) refl

  -- On an open transport, where the first read of up to 2 ^ 32 - 2 bytes fails: its result, taken as
  -- unsigned, passes for a number of bytes, and the pointer is moved behind the buffer.
  pub serial_read_error-crashes :
      (n id : ℕ) (t : Transport) (w : W)
      → t.fd ≡ some id
      → 0 < n
      → n < 2 ^ 32 - 1
      → (tty.read_fd id n w).0 ≡ none
      → transport_read_buffer (posix_port tty) n t w ≡ crashed
  unfolding transport_read_buffer read_rounds ser_read
  serial_read_error-crashes zero id t w e h l f = absurd (omega arith)
  serial_read_error-crashes (suc n) id t w e h l f =
      on_port-some t.fd id _ t w e
      ∙ on_port-some t.fd id _ t w e
      ∙ after_read-negative (suc n) (ser_read tty id (suc n) w).0
          (read_rounds (posix_port tty) n (suc n - (ser_read tty id (suc n) w).0)
            ([] ++ (ser_read tty id (suc n) w).1))
          t (ser_read tty id (suc n) w).2 (read_result-failed (tty.read_fd id (suc n) w) f) l

  module _ (attrs : W → ℕ → Termios) (flags : W → ℕ → ℕ) (p : Terminals tty attrs flags) where
    -- A port that could be opened has the speed, the frame and the modes that the transport asks for,
    -- whatever its attributes were before, and its descriptor is in the transport. It is not wholly
    -- raw: whether CR and NL are translated or dropped on input, IEXTEN and VMIN stay as they were.
    pub serial_open-Configured :
        (path : Bytes) (id : ℕ) (t : Transport) (w : W)
        → (tty.open_port path w).0 ≡ some id
        → (w' : W) × (transport_open (posix_port tty) path t w
            ≡ finished tt (record t { fd = some id }) w')
          × Configured tty (attrs (tty.open_port path w).1 id) (attrs w' id)
    unfolding transport_open opened_port ser_open_with Posix.ser_open Posix.ser_setup
        Posix.ser_set_timeout_ms
    serial_open-Configured path id t w e =
        let r = tty.open_port path w in
        let w₁ = tty.set_flags id 0 r.1 in
        let asleep = tty.nanosleep 0 200000000 w₁ in
        let before = tty.tcgetattr id asleep in
        let as_opened = p.got id asleep ∙ p.sleep_kept id 0 200000000 w₁ ∙ p.flags_kept id 0 r.1 in
        let chosen = configure tty 115200 8 Parity.parity_none Stopbits.stopbits_1 before.0 in
        let w₂ = tty.tcsetattr id chosen before.1 in
        let w₃ = tty.set_flags id 0 (tty.tcflush id w₂) in
        let kept =
          p.flags_kept id 0 (tty.tcflush id w₂) ∙ p.flush_kept id w₂ ∙ p.set id chosen before.1 in
        let after = tty.tcgetattr id w₃ in
        let last =
          p.set id (record after.0 { vtime = 10 }) (tty.set_flags id 0 after.1)
          ∙ ap (λ (a : Termios). record a { vtime = 10 }) (p.got id w₃ ∙ kept) in
        (
          Posix.ser_set_timeout_ms tty id 1000 w₃,
          ap (λ d. opened_port (posix_port tty) (ser_open_with tty (d, r.1)) t w) e,
          subst₂ (Configured tty) as_opened (sym last) (configure-Configured before.0),
        )
