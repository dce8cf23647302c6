-- ===== src/Witnesses/Windows.antt =====
-- The theorems about the transport over sockets on Windows, each at a concrete input: a connection
-- that moves one byte at a time.
use luarpc.Base.{
  ℕ, suc, ◌≤◌, ◌≡◌, refl, sym, Bytes, true, false, some, [], ◌∷◌, ◌++◌, length, take, append-nil,
  arith,
}
use luarpc.Transport.{Transport, transport_create}
use luarpc.Socket.{finished, unfinished}
use luarpc.Socket.Writing.{Wrote}
use luarpc.Socket.Windows.{Winsock, transport_read_buffer, transport_write_buffer, transport_close}
use luarpc.Socket.Windows.Reading.{Stale, windows_read_buffer-endless}
use luarpc.Socket.Windows.Writing.{Takes, windows_write_buffer-Wrote}
use luarpc.Socket.Windows.Closing.{StaysOpen, windows_close-StaysOpen}
use luarpc.Examples.{system, link, Link, read_one, write_one, at_end}

abbrev winsock : Winsock Link
winsock = record {
  sys = system;
  ioctlsocket = λ w n. (true, w);
  closesocket = λ w d. w;
  read_file =
      λ w fd n. (some (read_one w.coming n).0, record w { coming = (read_one w.coming n).1 });
  write_file =
      λ w fd bs. (some (write_one bs w.gone).0, record w { gone = (write_one bs w.gone).1 });
  flush_file_buffers = λ w fd. w;
  get_last_error = λ w. 997;
  select_read = λ w fd tv. (at_end w.coming, tv, w);
  error_io_pending = 997;
}

-- No call is ever pending.
abbrev plain_winsock : Winsock Link
plain_winsock = record winsock { get_last_error = λ w. 10035 }

-- The last error stays ERROR_IO_PENDING, and `select` reports a stream that has ended.
abbrev stale_winsock : Winsock Link
stale_winsock = record winsock { select_read = λ w fd tv. (false, tv, w) }

read-none : (bs : Bytes) (n : ℕ) → bs ≡ [] → (read_one bs n).0 ≡ []
read-none [] n e = refl
read-none (b ∷ r) n e = absurd (cc)

read-nothing_left : (bs : Bytes) (n : ℕ) → bs ≡ [] → (read_one bs n).1 ≡ []
read-nothing_left [] n e = refl
read-nothing_left (b ∷ r) n e = absurd (cc)

stale_winsock-Stale : Stale stale_winsock 3 (λ w. w.coming ≡ [])
stale_winsock-Stale = record {
  nothing = λ w n j. read-none w.coming (suc n) j;
  pending = λ w n j. refl;
  ready = λ w n tv j. (refl, read-nothing_left w.coming (suc n) j);
}

write-next : (bs gone : Bytes) → (write_one bs gone).1 ≡ gone ++ take (write_one bs gone).0 bs
write-next [] gone = sym (append-nil gone)
write-next (b ∷ r) gone = refl

write-short : (bs gone : Bytes) → (write_one bs gone).0 ≤ length bs
write-short [] gone = omega arith
write-short (b ∷ r) gone = omega arith

winsock-Takes : Takes winsock (λ w. w.gone) (λ w. 0)
winsock-Takes = record {
  next = λ w fd bs. write-next bs w.gone;
  short = λ w fd bs. write-short bs w.gone;
  advances = λ w fd bs h. omega arith;
  select_sent = λ w fd tv. refl;
  waits = λ w fd b r tv e pending timed. absurd (omega arith);
}

abbrev five : Link
five = record { coming = 1 ∷ 2 ∷ 3 ∷ 4 ∷ 5 ∷ []; gone = [] }

windows_read_buffer-endless_example :
    transport_read_buffer stale_winsock 100 1 link (record { coming = []; gone = [] }) ≡ unfinished
windows_read_buffer-endless_example =
    windows_read_buffer-endless stale_winsock 3 (λ w. w.coming ≡ []) stale_winsock-Stale 100 0 link
      (record { coming = []; gone = [] }) refl refl

windows_write_buffer-Wrote_example :
    Wrote (λ w. w.gone) (7 ∷ 8 ∷ []) [] (transport_write_buffer winsock 2 (7 ∷ 8 ∷ []) link five)
windows_write_buffer-Wrote_example =
    windows_write_buffer-Wrote winsock (λ w. w.gone) (λ w. 0) winsock-Takes 2 3 (7 ∷ 8 ∷ []) link
      five refl (omega arith)

windows_close-StaysOpen_example :
    (t' : Transport) × (w' : Link) × (transport_close winsock transport_create five
      ≡ finished tt t' w')
    × StaysOpen winsock t'
windows_close-StaysOpen_example = windows_close-StaysOpen winsock transport_create five
