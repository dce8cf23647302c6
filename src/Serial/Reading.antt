-- ===== src/Serial/Reading.antt =====
-- The loop of `transport_read_buffer` (luarpc_serial.c) implements `read_buffer`, the contract
-- that the protocol is modelled on.
use luarpc.Base.{
  ℕ, zero, suc, ◌-◌, ◌≤◌, ◌<◌, ◌≡◌, ◌≢◌, refl, sym, ap, Bytes, Bool, true, false, Option, none,
  some, [], ◌++◌, length, ◌==◌, ltb, append-nil, arith, Bool-cases, inl, inr,
}
use mathlib.Core.Path.{subst, subst₂}
use luarpc.Errors.{exception, fatal, err_closed}
use luarpc.Transport.{Transport}
use luarpc.State.{State, read_buffer, is_open}
use luarpc.Socket.{thrown}
use luarpc.Socket.Contract.{
  Implements, both_closed, read_buffer-closed, Got, complete, ended, Got-extend, Got-Implements,
}
use luarpc.Serial.{Port, Do, on_port, after_read, read_rounds, transport_read_buffer}

-- A port that delivers the stream: each read gives the next bytes, at most as many as asked for,
-- and none only at the end of the stream.
pub record Delivers {W : Type 0} (port : Port W) (stream : W → Bytes) : Type 0 where
  pub next :
      (id n : ℕ) (w : W) → stream w ≡ (port.ser_read id n w).1 ++ stream (port.ser_read id n w).2
  pub counted : (id n : ℕ) (w : W) → (port.ser_read id n w).0 ≡ length (port.ser_read id n w).1
  pub short : (id n : ℕ) (w : W) → (port.ser_read id n w).0 ≤ n
  pub ends : (id n : ℕ) (w : W) → (port.ser_read id (suc n) w).0 ≡ 0 → stream w ≡ []

abbrev is_valid : Option ℕ → Bool
is_valid none = false
is_valid (some n) = true

is_valid-ne : (d : Option ℕ) → is_valid d ≡ true → d ≢ none
is_valid-ne none h = cc
is_valid-ne (some n) h = λ e. cc

module _ {W A : Type 0} (port : Port W) where
  on_port-valid :
      (d : Option ℕ) (q : Do port A) (t : Transport) (w : W)
      → is_valid d ≡ true
      → on_port port d (λ id. q) t w ≡ q t w
  unfolding on_port
  on_port-valid none q t w h = cc
  on_port-valid (some id) q t w h = refl

  on_port-closed :
      (d : Option ℕ) (f : ℕ → Do port A) (t : Transport) (w : W)
      → is_valid d ≡ false
      → on_port port d f t w ≡ thrown (exception fatal err_closed) t w
  unfolding on_port
  on_port-closed none f t w h = refl
  on_port-closed (some id) f t w h = cc

module _ {W : Type 0} (port : Port W) (stream : W → Bytes) (p : Delivers port stream) where
  on_port-Got :
      (d : Option ℕ) (f : ℕ → Do port Bytes) (n : ℕ) (got bs : Bytes) (t : Transport) (w : W)
      → d ≢ none
      → ((id : ℕ) → Got stream n got bs (f id t w))
      → Got stream n got bs (on_port port d f t w)
  unfolding on_port
  on_port-Got none f n got bs t w o h = absurd (o refl)
  on_port-Got (some id) f n got bs t w o h = h id

  after_read-Got :
      (n ret : ℕ) (rest : Do port Bytes) (got xs bs : Bytes) (t : Transport) (w : W)
      → bs ≡ xs ++ stream w
      → ret ≡ length xs
      → ret ≤ suc n
      → (ret ≡ 0 → bs ≡ [])
      → (0 < ret → Got stream (suc n - ret) (got ++ xs) (stream w) (rest t w))
      → Got stream (suc n) got bs (after_read port (suc n) ret rest t w)
  unfolding after_read
  after_read-Got n ret rest got xs bs t w e c l z h = elim (Bool-cases (ret == 0)) [
    | inl b ↦ let none_left = ap length (z (ground arith)) in rw b (ended (omega arith))
    | inr b ↦
        let inside : ltb (suc n) ret ≡ false = ground arith in
        rw (b, inside)
          (Got-extend stream (suc n) (suc n - ret) got xs bs (stream w) e (omega arith)
            (h (ground arith)))
  ]

  read_rounds-Got :
      (k n : ℕ) (got : Bytes) (t : Transport) (w : W)
      → t.fd ≢ none
      → n ≤ k
      → Got stream n got (stream w) (read_rounds port k n got t w)
  unfolding read_rounds
  read_rounds-Got k zero got t w o h = complete [] (sym (append-nil got)) refl refl
  read_rounds-Got zero (suc n) got t w o h = absurd (omega arith)
  read_rounds-Got (suc k) (suc n) got t w o h =
      on_port-Got t.fd _ (suc n) got (stream w) t w o λ id.
        let ret = (port.ser_read id (suc n) w).0 in
        let bs = (port.ser_read id (suc n) w).1 in
        let w' = (port.ser_read id (suc n) w).2 in
        after_read-Got n ret (read_rounds port k (suc n - ret) (got ++ bs)) got bs (stream w) t w'
          (p.next id (suc n) w) (p.counted id (suc n) w) (p.short id (suc n) w) (p.ends id n w)
          λ some_read. read_rounds-Got k (suc n - ret) (got ++ bs) t w' o (omega arith)

  -- Over a port that delivers the stream, on any transport: with no more rounds than bytes asked
  -- for, the loop does what `read_buffer` says. It returns the same bytes and leaves the same ones
  -- to come, or both throw a nonfatal exception, or both throw ERR_CLOSED.
  pub serial_read_buffer-Implements :
      {G : Type 0} (n : ℕ) (s : State G) (w : W)
      → stream w ≡ s.input
      → Implements stream (read_buffer n s) (transport_read_buffer port n s.tpt w)
  unfolding transport_read_buffer
  serial_read_buffer-Implements n s w e = elim (Bool-cases (is_open s.tpt)) [
    | inl o ↦
        subst (Implements stream (read_buffer n s)) (sym (on_port-valid port s.tpt.fd _ s.tpt w o))
          (Got-Implements stream n s (read_rounds port n n [] s.tpt w) o (
            subst (λ i. Got stream n [] i (read_rounds port n n [] s.tpt w)) e
              (read_rounds-Got n n [] s.tpt w (is_valid-ne s.tpt.fd o) (omega arith))))
    | inr o ↦
        subst₂ (Implements stream) (sym (read_buffer-closed n s o))
          (sym (on_port-closed port s.tpt.fd _ s.tpt w o)) both_closed
  ]
