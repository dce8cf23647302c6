-- ===== src/Wire/Framing.antt =====
-- Numbers that are not sent as integers (`transport_write_number` and `transport_read_number` of
-- luarpc_protocol.c), where the two ends agreed on a size other than eight.
use luarpc.Base.{
  ℕ, ◌≤◌, ◌<◌, ◌≡◌, refl, ap, ◌∙◌, sym, Bytes, true, false, some, length, take, drop, take-drop,
  length-take, arith, le→leb, differ, Bool-cases, inl, inr,
}
use luarpc.Machine.{Machine}
use luarpc.Transport.{Transport}
use luarpc.State.{State, ok, is_open, read_buffer}
use luarpc.Wire.{read_number, write_number, number_wire, order, swap_bytes}
use luarpc.Wire.Swap.{swap_bytes-reverse}
use luarpc.Wire.Laws.{emit, feed, feed-append, Works, write_number-emit, read_buffer-feed}
use luarpc.Variable.Lists.{length-reverse}

module _ {H : Type 0} where
  read_buffer-part :
      (n : ℕ) (w : Bytes) (r : State H)
      → n ≤ length w
      → is_open r.tpt ≡ true
      → read_buffer n (feed w r) ≡ ok (take n w) (feed (drop n w) r)
  read_buffer-part n w r h o =
      ap (λ b. read_buffer n (feed b r)) (sym (take-drop n w))
      ∙ ap (read_buffer n) (feed-append r (take n w) (drop n w))
      ∙ ap (λ k. read_buffer k (feed (take n w) (feed (drop n w) r))) (sym (length-take n w h))
      ∙ read_buffer-feed (feed (drop n w) r) (take n w) o

length-order : (t : Transport) (x : Bytes) → length x ≡ 8 → length (order t x 8) ≡ 8
length-order t x l = elim (Bool-cases (differ t.net_little t.loc_little)) [
  | inl e ↦ rw e (
      ap (λ k. length (swap_bytes x k)) (sym l)
      ∙ ap length (swap_bytes-reverse x)
      ∙ length-reverse x
      ∙ l)
  | inr e ↦ rw e l
]

module _ {G H : Type 0} where
  -- A number of eight bytes on a link that is not integral: eight bytes are sent. A receiver that
  -- agreed on a smaller size, which its own numbers have, returns and leaves the last ones unread.
  pub write_number-unread :
      (m m' : Machine) (x : Bytes) (s : State G) (r : State H)
      → length x ≡ 8
      → s.tpt.net_intnum ≡ false
      → Works s
      → is_open r.tpt ≡ true
      → differ r.tpt.net_intnum r.tpt.loc_intnum ≡ false
      → m'.sizeof_number ≤ r.tpt.lnum_bytes
      → r.tpt.lnum_bytes < 8
      → (w y : Bytes) × (write_number m x s ≡ ok tt (emit w s))
        × (length w ≡ 8)
        × (read_number m' (feed w r) ≡ ok y (feed (drop r.tpt.lnum_bytes w) r))
  unfolding read_number
  write_number-unread m m' x s r l e k o i z n =
      let w = order s.tpt x 8 in
      let sent : number_wire m s.tpt x ≡ some w = rw (e, l) refl in
      let long : length w ≡ 8 = length-order s.tpt x l in
      (
        w,
        take m'.sizeof_number (order r.tpt (take r.tpt.lnum_bytes w) r.tpt.lnum_bytes),
        write_number-emit m s x w sent k,
        long,
        rw
            (
              o,
              read_buffer-part r.tpt.lnum_bytes w r (omega (arith, long)) o,
              i,
              le→leb m'.sizeof_number r.tpt.lnum_bytes z,
            )
            refl,
      )
