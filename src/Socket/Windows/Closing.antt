-- ===== src/Socket/Windows/Closing.antt =====
-- What closing leaves of a transport on Windows (luarpc_socket.c): `transport_close` sets the
-- descriptor to 0, which is not INVALID_TRANSPORT.
use luarpc.Base.{ℕ, zero, suc, ◌≡◌, refl, Bytes, true, Option, none, some, []}
use luarpc.Transport.{Transport}
use luarpc.State.{is_open}
use luarpc.Socket.{finished}
use luarpc.Socket.Windows.{
  Winsock, on_fd, read_rounds, transport_read_buffer, write_rounds, transport_write_buffer,
  transport_close,
}

module _ {W : Type 0} (win : Winsock W) where
  -- A transport that counts as open, that a close leaves as it is, and on which reads and writes go to
  -- the descriptor 0.
  pub record StaysOpen (t : Transport) : Type 0 where
    pub counts : is_open t ≡ true
    pub again : (w : W) → transport_close win t w ≡ finished tt t w
    pub reads : (k n : ℕ) (w : W) → transport_read_buffer win k n t w ≡ read_rounds win k 0 n [] t w
    pub writes :
        (k : ℕ) (bs : Bytes) (w : W)
        → transport_write_buffer win k bs t w ≡ write_rounds win k 0 bs t w

  abbrev at_fd : Option ℕ → Transport → Transport
  at_fd d t = record t { fd = d }

  stays : (t : Transport) → StaysOpen (at_fd (some 0) t)
  unfolding transport_close transport_read_buffer transport_write_buffer on_fd
  stays t = record {
    counts = refl;
    again = λ w. refl;
    reads = λ k n w. refl;
    writes = λ k bs w. refl;
  }

  close_at :
      (d : Option ℕ) (t : Transport) (w : W)
      → (w' : W) × (transport_close win (at_fd d t) w ≡ finished tt (at_fd (some 0) t) w')
  unfolding transport_close
  close_at none t w = (win.closesocket w none, refl)
  close_at (some zero) t w = (w, refl)
  close_at (some (suc n)) t w = (win.closesocket w (some (suc n)), refl)

  -- On Windows the transport that transport_close leaves behind, even of one that was never opened,
  -- counts as open: another close does nothing, and every read and write of it is made on the
  -- descriptor 0.
  pub windows_close-StaysOpen :
      (t : Transport) (w : W)
      → (t' : Transport) × (w' : W) × (transport_close win t w ≡ finished tt t' w') × StaysOpen t'
  windows_close-StaysOpen t w =
      let (w', e) = close_at t.fd t w in (at_fd (some 0) t, w', e, stays t)
