-- ===== src/Witnesses/Sockets.antt =====
-- The theorems about reading and writing over a socket, each at a concrete input.
use luarpc.Base.{
  true, ◌+◌, ℕ, zero, suc, ◌≤◌, ◌&&◌, append-nil, sym, take, ◌==◌, ◌<◌, Bytes, false, [], ◌∷◌, ◌++◌,
  length, ◌≡◌, refl, arith,
}
use luarpc.Wire.Laws.{feed}
use luarpc.State.{read_buffer}
use luarpc.Socket.{transport_read_buffer, transport_write_buffer}
use luarpc.Socket.{finished, crashed}
use luarpc.State.{is_open}
use luarpc.Transport.{Transport, transport_create}
use luarpc.Socket.Lifecycle.{transport_open_connection, transport_open_listener, transport_close}
use luarpc.Socket.Making.{Opens}
use luarpc.Socket.Opening.{Connects, Listening, opening-Opens, transport_close-crashes}
use luarpc.Socket.Reading.{Streams, Read, transport_read_buffer-Read}
use luarpc.Socket.Writing.{Takes, Wrote, transport_write_buffer-Wrote}
use luarpc.Socket.Contract.{Implements}
use luarpc.Socket.Refinement.{Steady, transport_read_buffer-Implements}
use luarpc.Examples.{system, link, at_start, one_table, Link, stdio, read_one, write_one, at_end}

read_one-next : (bs : Bytes) (n : ℕ) → bs ≡ (read_one bs n).0 ++ (read_one bs n).1
read_one-next [] n = refl
read_one-next (b ∷ r) zero = refl
read_one-next (b ∷ r) (suc n) = refl

read_one-short : (bs : Bytes) (n : ℕ) → length (read_one bs n).0 ≤ n
read_one-short [] n = omega arith
read_one-short (b ∷ r) zero = omega arith
read_one-short (b ∷ r) (suc n) = omega arith

read_one-progress :
    (bs : Bytes) (n : ℕ)
    → ((length (read_one bs (suc n)).0 == 0) && at_end (read_one bs (suc n)).1) ≡ false
    → 0 < 0 + length (read_one bs (suc n)).0
read_one-progress [] n e = cc
read_one-progress (b ∷ r) n e = omega arith

read_one-blocks :
    (bs : Bytes) (n : ℕ)
    → n ≤ length bs
    → length (read_one bs n).0 < n
    → at_end (read_one bs n).1 ≡ false
read_one-blocks [] n l h = absurd (omega arith)
read_one-blocks (b ∷ r) zero l h = refl
read_one-blocks (b ∷ []) (suc n) l h = absurd (omega arith)
read_one-blocks (b ∷ (c ∷ r)) (suc n) l h = refl

at_end-more : (bs : Bytes) → 0 < length bs → at_end bs ≡ false
at_end-more [] h = absurd (omega arith)
at_end-more (b ∷ r) h = refl

stdio-Streams : Streams stdio (λ w. w.coming) (λ w. 0)
stdio-Streams = record {
  fread_next = λ w n. read_one-next w.coming n;
  fread_short = λ w n. read_one-short w.coming n;
  select_stream = λ w tv. refl;
  select_patience = λ w n tv e a s. read_one-progress w.coming n e;
}

stdio-Steady : Steady stdio (λ w. w.coming)
stdio-Steady = record {
  blocks = λ w n l h. (read_one-blocks w.coming n l h, refl);
  ready = λ w tv l. at_end-more w.coming l;
}

write_one-next : (bs gone : Bytes) → (write_one bs gone).1 ≡ gone ++ take (write_one bs gone).0 bs
write_one-next [] gone = sym (append-nil gone)
write_one-next (b ∷ r) gone = refl

write_one-short : (bs gone : Bytes) → (write_one bs gone).0 ≤ length bs
write_one-short [] gone = omega arith
write_one-short (b ∷ r) gone = omega arith

stdio-Takes : Takes stdio (λ w. w.gone) (λ w. 0)
stdio-Takes = record {
  fwrite_next = λ w bs. write_one-next bs w.gone;
  fwrite_short = λ w bs. write_one-short bs w.gone;
  select_sent = λ w tv. refl;
  select_patience = λ w b r tv e a s. omega arith;
}

abbrev five : Link
five = record { coming = 1 ∷ 2 ∷ 3 ∷ 4 ∷ 5 ∷ []; gone = [] }

transport_read_buffer-Read_example :
    Read stdio
      (λ w. w.coming)
      (λ w. 0)
      stdio-Streams
      3
      []
      (1 ∷ 2 ∷ 3 ∷ 4 ∷ 5 ∷ [])
      (transport_read_buffer stdio 3 3 link five)
transport_read_buffer-Read_example =
    transport_read_buffer-Read stdio (λ w. w.coming) (λ w. 0) stdio-Streams 3 3 link five refl refl
      (omega arith)

transport_write_buffer-Wrote_example :
    Wrote (λ w. w.gone) (7 ∷ 8 ∷ []) [] (transport_write_buffer stdio 2 (7 ∷ 8 ∷ []) link five)
transport_write_buffer-Wrote_example =
    transport_write_buffer-Wrote stdio (λ w. w.gone) (λ w. 0) stdio-Takes 2 (7 ∷ 8 ∷ []) link five
      refl refl (omega arith)

transport_read_buffer-Implements_example :
    Implements
      (λ w. w.coming)
      (read_buffer 3 (feed (1 ∷ 2 ∷ 3 ∷ 4 ∷ 5 ∷ []) (at_start one_table)))
      (transport_read_buffer stdio 3 3 link five)
transport_read_buffer-Implements_example =
    transport_read_buffer-Implements stdio (λ w. w.coming) (λ w. 0) stdio-Streams stdio-Steady 3 3
      (feed (1 ∷ 2 ∷ 3 ∷ 4 ∷ 5 ∷ []) (at_start one_table)) five refl refl (omega arith)

opening-Opens_example :
    Opens
      (Connects system 2130706433 12345 transport_create five)
      (transport_open_connection system 2130706433 12345 transport_create five)
    × Opens
        (Listening system 12345 transport_create five)
        (transport_open_listener system 12345 transport_create five)
    × ((t : Transport) (w : Link)
        → (Connects system 2130706433 12345 transport_create five t w
            → transport_open_connection system 2130706433 12345 transport_create five
              ≡ finished tt t w)
          × (Listening system 12345 transport_create five t w
              → transport_open_listener system 12345 transport_create five ≡ finished tt t w))
opening-Opens_example = opening-Opens system 2130706433 12345 transport_create five

transport_close-crashes_example :
    (t : Transport) × (w : Link) × (transport_close system link five ≡ finished tt t w)
    × (is_open t ≡ true)
    × (transport_read_buffer stdio 9 1 t w ≡ crashed)
transport_close-crashes_example =
    transport_close-crashes system stdio 9 0 link five (record { open_fd = refl; has_file = refl })
