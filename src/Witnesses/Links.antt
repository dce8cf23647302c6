-- ===== src/Witnesses/Links.antt =====
-- The theorems about words and the handshake, each at a concrete input.
use luarpc.Base.{drop, length, Bytes, false, [], ◌∷◌, ◌≡◌, refl, arith}
use luarpc.Errors.{exception, nonfatal, err_header}
use luarpc.Codes.{rpc_cmd_con}
use luarpc.State.{State, ok, throw}
use luarpc.Wire.Laws.{emit, feed, Works, Linked}
use luarpc.Negotiate.{
  client_negotiate, server_negotiate, set_local, set_server, adopt, reconcile, good_header,
}
use luarpc.Negotiate.Agreement.{hello, answer, Agree, negotiate-Agree, client_negotiate-bad_header}
use luarpc.Machine.{Machine}
use luarpc.Wire.Framing.{write_number-unread}
use luarpc.Wire.{read_number, write_number}
use luarpc.Examples.{World, link, machine, big_machine, at_start, one_table, library}

at_start-Works : (g : World) → Works (at_start g)
at_start-Works g = record { opened = refl; unbroken = refl }

at_start-Linked : (g : World) → Linked machine (at_start g)
at_start-Linked g = record { works = at_start-Works g; agree = refl }

negotiate-Agree_example :
    (let c = at_start one_table in
      let s = at_start library in
      let ct = adopt (answer machine big_machine s.tpt) (set_local machine c.tpt) in
      let st = reconcile big_machine (hello machine) (set_server big_machine s.tpt) in
      (client_negotiate machine (feed (answer machine big_machine s.tpt) c)
        ≡ ok tt (emit (rpc_cmd_con ∷ hello machine) (record c { tpt = ct })))
      × (server_negotiate big_machine (feed (rpc_cmd_con ∷ hello machine) s)
          ≡ ok tt (emit (answer machine big_machine s.tpt) (record s { tpt = st })))
      × Agree machine big_machine ct st)
negotiate-Agree_example =
    negotiate-Agree machine big_machine (at_start one_table) (at_start library)
      (at_start-Works one_table) (at_start-Works library) (omega arith) (omega arith)

-- An answer of version 2.
abbrev bad_answer : Bytes
bad_answer = b'L' ∷ b'R' ∷ b'P' ∷ b'C' ∷ 2 ∷ 1 ∷ 8 ∷ 0 ∷ []

bad_answer-bad : good_header bad_answer ≡ false
unfolding good_header
bad_answer-bad = refl

client_negotiate-bad_header_example :
    client_negotiate machine (feed bad_answer (at_start one_table))
    ≡ throw (exception nonfatal err_header) (
        emit
          (rpc_cmd_con ∷ hello machine)
          (record (at_start one_table) { tpt = set_local machine link }))
client_negotiate-bad_header_example =
    client_negotiate-bad_header machine bad_answer (at_start one_table) (at_start-Works one_table)
      refl bad_answer-bad

-- A machine with numbers of four bytes, and an end that agreed on these.
abbrev small_machine : Machine
small_machine = record machine { sizeof_number = 4 }

abbrev small_end : State World
small_end = record (at_start library) { tpt = record link { lnum_bytes = 4 } }

write_number-unread_example :
    (w y : Bytes) × (write_number machine (1 ∷ 2 ∷ 3 ∷ 4 ∷ 5 ∷ 6 ∷ 7 ∷ 8 ∷ []) (at_start one_table)
      ≡ ok tt (emit w (at_start one_table)))
    × (length w ≡ 8)
    × (read_number small_machine (feed w small_end) ≡ ok y (feed (drop 4 w) small_end))
write_number-unread_example =
    write_number-unread machine small_machine (1 ∷ 2 ∷ 3 ∷ 4 ∷ 5 ∷ 6 ∷ 7 ∷ 8 ∷ [])
      (at_start one_table) small_end refl refl (at_start-Works one_table) refl refl (omega arith)
      (omega arith)
