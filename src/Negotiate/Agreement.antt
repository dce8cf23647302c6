-- ===== src/Negotiate/Agreement.antt =====
-- The handshake between any two machines.
use Prim.Native.Nat.{min}
use luarpc.Base.{◌%◌, ◌<◌, ◌≡◌, refl, Bytes, false, ◌&&◌, ◌||◌, [], ◌∷◌, length, arith, ap}
use luarpc.Codes.{rpc_cmd_con}
use luarpc.Errors.{exception, nonfatal, err_header}
use luarpc.Machine.{Machine}
use luarpc.Transport.{Transport}
use luarpc.State.{State, ok, throw}
use luarpc.Wire.{read_string}
use luarpc.Wire.Laws.{
  emit, feed, Works, emit-emit, read_string-feed, write_string-emit, read_uint8-feed,
  write_uint8-emit,
}
use luarpc.Negotiate.{
  bit, header, set_local, set_server, adopt, check_header, client_negotiate, server_negotiate,
  reconcile, reply, good_header,
}

-- What the client sends behind its command byte, and what the server with `t` answers.
abbrev pub hello : Machine → Bytes
hello m = header (bit m.little) (m.sizeof_number % 256) (bit m.number_integral)

abbrev pub answer : Machine → Machine → Transport → Bytes
answer mc ms t = reply ms (hello mc) (set_server ms t)

-- Both ends have the link's settings: big endian unless both machines are little endian, the
-- smaller of the two number sizes, and integers if either machine has only those.
pub record Agree (mc ms : Machine) (c s : Transport) : Type 0 where
  pub client_little : c.net_little ≡ (mc.little && ms.little)
  pub server_little : s.net_little ≡ (mc.little && ms.little)
  pub client_lnum : c.lnum_bytes ≡ min mc.sizeof_number ms.sizeof_number
  pub server_lnum : s.lnum_bytes ≡ min mc.sizeof_number ms.sizeof_number
  pub client_intnum : c.net_intnum ≡ (mc.number_integral || ms.number_integral)
  pub server_intnum : s.net_intnum ≡ (mc.number_integral || ms.number_integral)
  pub client_local : (c.loc_little ≡ mc.little) × (c.loc_intnum ≡ mc.number_integral)
  pub server_local : (s.loc_little ≡ ms.little) × (s.loc_intnum ≡ ms.number_integral)

pub reconcile-Agree :
    (mc ms : Machine) (c s : Transport)
    → mc.sizeof_number < 128
    → ms.sizeof_number < 128
    → Agree mc ms
        (adopt (answer mc ms s) (set_local mc c))
        (reconcile ms (hello mc) (set_server ms s))
unfolding reconcile reply
reconcile-Agree mc ms c s hc hs = record {
  client_little = ground arith;
  server_little = ground arith;
  client_lnum = ground arith;
  server_lnum = ground arith;
  client_intnum = ground arith;
  server_intnum = ground arith;
  client_local = (refl, refl);
  server_local = (refl, refl);
}

module _ {G : Type 0} where
  check_header-bad :
      (h : Bytes) (s : State G)
      → good_header h ≡ false
      → check_header h s ≡ throw (exception nonfatal err_header) s
  unfolding check_header
  check_header-bad h s bad = rw bad

  pub client_run :
      (mc ms : Machine) (c : State G) (t : Transport)
      → Works c
      → client_negotiate mc (feed (answer mc ms t) c)
        ≡ ok tt (
            emit
              (rpc_cmd_con ∷ hello mc)
              (record c { tpt = adopt (answer mc ms t) (set_local mc c.tpt) }))
  unfolding client_negotiate check_header reply
  client_run mc ms c t w =
      let a = answer mc ms t in
      let s0 : State G = record (feed a c) { tpt = set_local mc c.tpt } in
      let w0 : Works s0 = record { opened = w.opened; unbroken = w.unbroken } in
      let s1 = emit (rpc_cmd_con ∷ []) s0 in
      let w1 : Works s1 = record { opened = w.opened; unbroken = w.unbroken } in
      let s2 : State G =
        emit (hello mc) (emit (rpc_cmd_con ∷ []) (record c { tpt = set_local mc c.tpt })) in
      rw
        (
          write_uint8-emit s0 rpc_cmd_con w0,
          write_string-emit s1 (hello mc) w1 (omega arith),
          w.opened,
          read_string-feed s2 a w.opened (omega arith),
        )
        (ap (ok tt) (
          emit-emit (record c { tpt = adopt a (set_local mc c.tpt) }) (rpc_cmd_con ∷ [])
            (hello mc)))

  pub server_run :
      (mc ms : Machine) (s : State G)
      → Works s
      → server_negotiate ms (feed (rpc_cmd_con ∷ hello mc) s)
        ≡ ok tt (
            emit
              (answer mc ms s.tpt)
              (record s { tpt = reconcile ms (hello mc) (set_server ms s.tpt) }))
  unfolding server_negotiate
  server_run mc ms s w =
      let s0 : State G = feed (hello mc) s in
      let s1 : State G = record s { tpt = set_server ms s.tpt } in
      let s2 : State G = record s { tpt = reconcile ms (hello mc) (set_server ms s.tpt) } in
      rw (
        read_uint8-feed s0 rpc_cmd_con w.opened,
        read_string-feed s1 (hello mc) w.opened (omega arith),
        write_string-emit s2 (answer mc ms s.tpt)
            (record { opened = w.opened; unbroken = w.unbroken }) (omega arith),
        w.opened,
      )

  -- For any two machines whose numbers have fewer than 128 bytes: if each end, its link open, is
  -- given what the other one writes, both handshakes succeed, each consumes exactly that and
  -- writes the bytes stated, and the two ends hold the same settings: little endian exactly if
  -- both machines are, the smaller number size, integers exactly if one machine has only those.
  pub negotiate-Agree :
      (mc ms : Machine) (c s : State G)
      → Works c
      → Works s
      → mc.sizeof_number < 128
      → ms.sizeof_number < 128
      → (let ct = adopt (answer mc ms s.tpt) (set_local mc c.tpt) in
          let st = reconcile ms (hello mc) (set_server ms s.tpt) in
          (client_negotiate mc (feed (answer mc ms s.tpt) c)
            ≡ ok tt (emit (rpc_cmd_con ∷ hello mc) (record c { tpt = ct })))
          × (server_negotiate ms (feed (rpc_cmd_con ∷ hello mc) s)
              ≡ ok tt (emit (answer mc ms s.tpt) (record s { tpt = st })))
          × Agree mc ms ct st)
  negotiate-Agree mc ms c s wc ws hc hs =
      (client_run mc ms c s.tpt wc, server_run mc ms s ws, reconcile-Agree mc ms c.tpt s.tpt hc hs)

  -- An answer that does not begin with "LRPC" and version 3 is refused: the client throws the
  -- nonfatal error ERR_HEADER, having taken over nothing of it.
  pub client_negotiate-bad_header :
      (m : Machine) (h : Bytes) (c : State G)
      → Works c
      → length h ≡ 8
      → good_header h ≡ false
      → client_negotiate m (feed h c)
        ≡ throw
            (exception nonfatal err_header)
            (emit (rpc_cmd_con ∷ hello m) (record c { tpt = set_local m c.tpt }))
  unfolding client_negotiate
  client_negotiate-bad_header m h c w e bad =
      let s0 : State G = record (feed h c) { tpt = set_local m c.tpt } in
      let w0 : Works s0 = record { opened = w.opened; unbroken = w.unbroken } in
      let s1 = emit (rpc_cmd_con ∷ []) s0 in
      let w1 : Works s1 = record { opened = w.opened; unbroken = w.unbroken } in
      let s2 : State G =
        emit (hello m) (emit (rpc_cmd_con ∷ []) (record c { tpt = set_local m c.tpt })) in
      let got : read_string 8 (feed h s2) ≡ ok h s2 =
        rw e at (read_string-feed s2 h w.opened (omega arith)) in
      rw
        (
          write_uint8-emit s0 rpc_cmd_con w0,
          write_string-emit s1 (hello m) w1 (omega arith),
          w.opened,
          got,
          check_header-bad h s2 bad,
        )
        (ap (throw (exception nonfatal err_header))
          (emit-emit (record c { tpt = set_local m c.tpt }) (rpc_cmd_con ∷ []) (hello m)))
