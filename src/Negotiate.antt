-- ===== src/Negotiate.antt =====
-- `client_negotiate` and `server_negotiate` of luarpc_protocol.c.
pub mod Agreement
use luarpc.Base.{
  ℕ, ◌%◌, ◌≡◌, Bytes, Bool, true, false, [], ◌∷◌, get_or, if◌then◌else◌, ltb, leb, ◌==◌, ◌&&◌, not,
}
use luarpc.Errors.{Exception, exception, nonfatal, err_header}
use luarpc.Codes.{rpc_cmd_con, rpc_protocol_version}
use luarpc.Machine.{Machine}
use luarpc.Transport.{Transport}
use luarpc.State.{State, Cmd, pure, throw, ok, ◌>>=◌, ◌>>◌, modify, verify_open}
use luarpc.Wire.{read_string, write_string, read_uint8, write_uint8}

-- A one-bit field as a number, and the number that such a field keeps of a byte.
abbrev pub bit : Bool → ℕ
bit b = if b then 1 else 0

abbrev low_bit : ℕ → Bool
low_bit x = x % 2 == 1

-- Comparisons of a `char`, given as a byte, with an unsigned byte.
abbrev char_gt : Machine → ℕ → ℕ → Bool
char_gt m c n = if m.char_signed && leb 128 c then false else ltb n c

abbrev char_lt : Machine → ℕ → ℕ → Bool
char_lt m c n = if m.char_signed && leb 128 c then true else ltb c n

-- "LRPC", the version and the three bytes of the configuration.
abbrev pub header : (little lnum intnum : ℕ) → Bytes
header l n i = b'L' ∷ b'R' ∷ b'P' ∷ b'C' ∷ rpc_protocol_version ∷ l ∷ n ∷ i ∷ []

unfoldable pub good_header : Bytes → Bool
good_header h =
    (get_or h 0 0 == b'L')
    && ((get_or h 1 0 == b'R')
        && ((get_or h 2 0 == b'P')
            && ((get_or h 3 0 == b'C') && (get_or h 4 0 == rpc_protocol_version))))

-- The local configuration, which both sides set first.
abbrev pub set_local : Machine → Transport → Transport
set_local m t = record t {
  loc_little = m.little;
  lnum_bytes = m.sizeof_number % 256;
  loc_intnum = m.number_integral;
}

-- What the client takes over from the answer.
abbrev pub adopt : Bytes → Transport → Transport
adopt h t = record t {
  net_little = low_bit (get_or h 5 0);
  lnum_bytes = get_or h 6 0;
  net_intnum = low_bit (get_or h 7 0);
}

module _ {G : Type 0} where
  -- The bytes reach the operating system; nothing of the state changes.
  abbrev pub transport_flush : Cmd G (Unit {0})
  transport_flush = verify_open

  unfoldable pub check_header : Bytes → Cmd G (Unit {0})
  unfolding good_header
  check_header h s = if good_header h then ok tt s else throw (exception nonfatal err_header) s

  unfoldable pub client_negotiate : Machine → Cmd G (Unit {0})
  client_negotiate m = do
    modify (set_local m)
    write_uint8 rpc_cmd_con
    (λ s. write_string (header (bit s.tpt.loc_little) s.tpt.lnum_bytes (bit s.tpt.loc_intnum)) 8 s)
    transport_flush
    h ← read_string 8
    check_header h
    modify (adopt h)

-- The answer to the client's three bytes, and the configuration that the server keeps.
abbrev little_reply : Transport → ℕ → ℕ
little_reply t l = if l == bit t.loc_little then l else 0

abbrev lnum_reply : Machine → Transport → ℕ → ℕ
lnum_reply m t n = if char_gt m n t.lnum_bytes then t.lnum_bytes else n

abbrev intnum_reply : Transport → ℕ → ℕ
intnum_reply t i = if i == bit t.loc_intnum then i else 1

unfoldable pub reconcile : Machine → Bytes → Transport → Transport
reconcile m h t =
    let n = lnum_reply m t (get_or h 6 0) in
    record t {
      net_little = if get_or h 5 0 == bit t.loc_little then t.net_little else false;
      lnum_bytes = if char_lt m n t.lnum_bytes then n else t.lnum_bytes;
      net_intnum = if get_or h 7 0 == bit t.loc_intnum then t.net_intnum else true;
    }

unfoldable pub reply : Machine → Bytes → Transport → Bytes
reply m h t =
    header (little_reply t (get_or h 5 0)) (lnum_reply m t (get_or h 6 0))
      (intnum_reply t (get_or h 7 0))

-- `set_local`, with the link's settings made the local ones.
abbrev pub set_server : Machine → Transport → Transport
set_server m t = record (set_local m t) { net_little = m.little; net_intnum = m.number_integral }

module _ {G : Type 0} where
  unfoldable send_reply : Machine → Bytes → Transport → Cmd G (Unit {0})
  unfolding reconcile reply
  send_reply m h t = modify (reconcile m h) >> write_string (reply m h t) 8

  unfoldable pub server_negotiate : Machine → Cmd G (Unit {0})
  unfolding check_header send_reply
  server_negotiate m = do
    b ← read_uint8
    (λ s. if b == rpc_cmd_con then ok tt s else throw (exception nonfatal err_header) s)
    modify (set_server m)
    h ← read_string 8
    check_header h
    (λ s. send_reply m h s.tpt s)
    transport_flush
