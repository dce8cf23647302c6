-- ===== src/Wire/Laws.antt =====
-- What the readers and writers of luarpc_protocol.c do on an open link, whichever the byte
-- orders of the two machines.
use luarpc.Base.{
  ℕ, ◌^◌, ◌<◌, ◌≡◌, ap, ◌∙◌, sym, Bytes, true, none, some, [], ◌∷◌, ◌++◌, length, length-append,
  take-append, drop-append, arith, append_assoc, append-nil, take-all, le→leb, lt→ltb,
}
use luarpc.Machine.{Machine}
use luarpc.State.{State, Cmd, ◌>>◌, ok, is_open, read_buffer, write_buffer}
use luarpc.Wire.{
  swap_bytes, read_string, write_string, read_uint8, write_uint8, read_uint32, write_uint32, order,
  read_number, write_number, number_wire, wire_number,
}
use luarpc.Wire.Words.{le_bytes, native, wire, length-wire, of_le-le_bytes_word}

-- `s` once `bs` has been written, and `s` while `bs` is still to be read.
abbrev pub emit : {G : Type 0} → Bytes → State G → State G
emit bs s = record s { output = s.output ++ bs }

abbrev pub feed : {G : Type 0} → Bytes → State G → State G
feed bs s = record s { input = bs ++ s.input }

-- An open link that takes writes.
pub record Works {G : Type 0} (s : State G) : Type 0 where
  pub opened : is_open s.tpt ≡ true
  pub unbroken : s.broken ≡ none

-- An open link that takes writes, of a machine that knows its byte order.
pub record Linked {G : Type 0} (m : Machine) (s : State G) : Type 0 where
  pub works : Works s
  pub agree : m.little ≡ s.tpt.loc_little

module _ {G : Type 0} where
  pub emit-emit : (s : State G) (xs ys : Bytes) → emit ys (emit xs s) ≡ emit (xs ++ ys) s
  emit-emit s xs ys = ap (λ o. record s { output = o }) (append_assoc s.output xs ys)

  pub emit-four :
      (s : State G) (xs ys zs us : Bytes)
      → emit us (emit zs (emit ys (emit xs s))) ≡ emit (xs ++ (ys ++ (zs ++ us))) s
  emit-four s xs ys zs us =
      emit-emit (emit ys (emit xs s)) zs us
      ∙ emit-emit (emit xs s) ys (zs ++ us)
      ∙ emit-emit s xs (ys ++ (zs ++ us))

  pub emit-nil : (s : State G) → emit [] s ≡ s
  emit-nil s = ap (λ o. record s { output = o }) (append-nil s.output)

  pub feed-append : (s : State G) (xs ys : Bytes) → feed (xs ++ ys) s ≡ feed xs (feed ys s)
  feed-append s xs ys = ap (λ i. record s { input = i }) (append_assoc xs ys s.input)

  -- Two writes in sequence.
  pub seq-emit :
      (p q : Cmd G (Unit {0})) (s : State G) (xs ys : Bytes)
      → p s ≡ ok tt (emit xs s)
      → q (emit xs s) ≡ ok tt (emit ys (emit xs s))
      → (p >> q) s ≡ ok tt (emit (xs ++ ys) s)
  seq-emit p q s xs ys hp hq = rw (hp, hq) (ap (ok tt) (emit-emit s xs ys))

  pub Works-emit : (s : State G) (xs : Bytes) → Works s → Works (emit xs s)
  Works-emit s xs w = record { opened = w.opened; unbroken = w.unbroken }

  pub read_buffer-feed :
      (s : State G) (bs : Bytes)
      → is_open s.tpt ≡ true
      → read_buffer (length bs) (feed bs s) ≡ ok bs s
  unfolding read_buffer
  read_buffer-feed s bs o = rw (
    o,
    le→leb (length bs) (length (bs ++ s.input)) (omega (arith, length-append bs s.input)),
    take-append bs s.input,
    drop-append bs s.input,
  )

  write_buffer-emit : (s : State G) (bs : Bytes) → Works s → write_buffer bs s ≡ ok tt (emit bs s)
  unfolding write_buffer
  write_buffer-emit s [] w = rw w.opened (ap (ok tt) (sym (emit-nil s)))
  write_buffer-emit s (b ∷ r) w = simp (w.opened, w.unbroken)

  pub read_uint8-feed :
      (s : State G) (b : ℕ) → is_open s.tpt ≡ true → read_uint8 (feed (b ∷ []) s) ≡ ok b s
  unfolding read_uint8
  read_uint8-feed s b o = rw (o, read_buffer-feed s (b ∷ []) o)

  pub write_uint8-emit : (s : State G) (b : ℕ) → Works s → write_uint8 b s ≡ ok tt (emit (b ∷ []) s)
  unfolding write_uint8
  write_uint8-emit s b w = rw (w.opened) (write_buffer-emit s (b ∷ []) w)

  pub read_string-feed :
      (s : State G) (bs : Bytes)
      → is_open s.tpt ≡ true
      → length bs < 2 ^ 31
      → read_string (length bs) (feed bs s) ≡ ok bs s
  unfolding read_string
  read_string-feed s bs o h = rw (lt→ltb (length bs) (2 ^ 31) h) (read_buffer-feed s bs o)

  pub write_string-emit :
      (s : State G) (bs : Bytes)
      → Works s
      → length bs < 2 ^ 31
      → write_string bs (length bs) s ≡ ok tt (emit bs s)
  unfolding write_string
  write_string-emit s bs w h =
      rw (lt→ltb (length bs) (2 ^ 31) h, take-all bs) (write_buffer-emit s bs w)

  module _ (m : Machine) (s : State G) (agree : m.little ≡ s.tpt.loc_little) where
    order-wire : (x : ℕ) → order s.tpt (native m (le_bytes 4 x)) 4 ≡ wire s.tpt.net_little 4 x
    unfolding swap_bytes wire
    order-wire x = ground arith

    native-order-wire :
        (x : ℕ) → native m (order s.tpt (wire s.tpt.net_little 4 x) 4) ≡ le_bytes 4 x
    unfolding swap_bytes wire
    native-order-wire x = ground arith

    -- A word is sent in the byte order of the link.
    pub write_uint32-emit :
        (x : ℕ) → Works s → write_uint32 m x s ≡ ok tt (emit (wire s.tpt.net_little 4 x) s)
    unfolding write_uint32
    write_uint32-emit x w =
        rw (w.opened, order-wire x) (write_buffer-emit s (wire s.tpt.net_little 4 x) w)

    -- And it is read back, whichever machine sent it.
    pub read_uint32-feed :
        (x : ℕ)
        → x < 2 ^ 32
        → is_open s.tpt ≡ true
        → read_uint32 m (feed (wire s.tpt.net_little 4 x) s) ≡ ok x s
    unfolding read_uint32
    read_uint32-feed x h o =
        let bs = wire s.tpt.net_little 4 x in
        let got : read_buffer 4 (feed bs s) ≡ ok bs s =
          rw (length-wire s.tpt.net_little x) at (read_buffer-feed s bs o) in
        rw (o, got, native-order-wire x, of_le-le_bytes_word x h)

  -- A number is sent as `number_wire` says.
  pub write_number-emit :
      (m : Machine) (s : State G) (x w : Bytes)
      → number_wire m s.tpt x ≡ some w
      → Works s
      → write_number m x s ≡ ok tt (emit w s)
  unfolding write_number
  write_number-emit m s x w e k = ground (arith, k.opened, write_buffer-emit s w k, emit-nil s)

  -- And read as `wire_number` says.
  pub read_number-feed :
      (m : Machine) (s : State G) (x w : Bytes)
      → wire_number m s.tpt w ≡ some x
      → is_open s.tpt ≡ true
      → read_number m (feed w s) ≡ ok x s
  unfolding read_number
  read_number-feed m s x w e o = ground (arith, read_buffer-feed s w o)
