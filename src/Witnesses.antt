-- ===== src/Witnesses.antt =====
-- The theorems about values, commands and requests, each at a concrete input.
pub mod Links
pub mod Sockets
pub mod Lists
pub mod Failures
pub mod Serial
pub mod Server
pub mod Functions
pub mod Registration
pub mod Windows
pub mod Assignments
pub mod Sessions
use luarpc.Base.{
  ℕ, zero, suc, ◌≤◌, ◌&&◌, append-nil, sym, take, ◌==◌, ◌^◌, ◌<◌, ◌↔◌, ◌≢◌, Bytes, true, false,
  none, [], ◌∷◌, ◌++◌, length, codes, ◌≡◌, refl, arith,
}
use luarpc.Errors.{exception, nonfatal, err_header}
use luarpc.Codes.{rpc_cmd_call, rpc_cmd_get, rpc_cmd_con, rpc_ready}
use luarpc.Lua.{Helper, child, Value}
use luarpc.State.{ok, throw, out_of_fuel}
use luarpc.Wire.{swap_bytes, read_uint32, write_uint32}
use luarpc.Wire.Words.{wire}
use luarpc.Wire.Laws.{emit, feed, Works, Linked, read_uint32-feed, write_uint32-emit}
use luarpc.Wire.Swap.{swap_bytes-reverse}
use luarpc.Negotiate.{
  client_negotiate, server_negotiate, set_local, set_server, adopt, reconcile, good_header,
}
use luarpc.Negotiate.Agreement.{hello, answer, Agree, negotiate-Agree, client_negotiate-bad_header}
use luarpc.Helper.{handle, helper_remote_index, funcname}
use luarpc.Helper.Remote.{
  IsChain, depth, announced, joined, root_name, helper_remote_index-emit,
  helper_remote_index-misframed,
}
use luarpc.Variable.Tree.{Tree, Pairs, enc, enc_text, size, Holds, Builds, Fields, PathTo}
use luarpc.Variable.Writes.{write_variable-enc}
use luarpc.Variable.Reads.{built, read_value-enc}
use luarpc.Variable.Lists.{enc_all, HoldsAll, BuildsAll, pushed}
use luarpc.Variable.Name.{tokens}
use luarpc.Variable.RoundTrip.{write_variable-read_value}
use luarpc.Variable.Consumption.{Leaves}
use luarpc.Variable.Total.{read_variable-Leaves}
use luarpc.Variable.{write_variable, read_value}
use luarpc.Server.{rpc_dispatch_worker}
use luarpc.Server.Replies.{reply_get}
use luarpc.Server.Calls.{reply_call}
use luarpc.Client.{helper_get, remote_call}
use luarpc.Client.Requests.{
  Usable, sent_name, timed, in_com, helper_get-answered, remote_call-answered,
}
use luarpc.Transport.{Timeval}
use luarpc.State.{read_buffer}
use luarpc.Socket.{transport_read_buffer, transport_write_buffer}
use luarpc.Socket.Reading.{Streams, Read, transport_read_buffer-Read}
use luarpc.Socket.Writing.{Takes, Wrote, transport_write_buffer-Wrote}
use luarpc.Socket.Contract.{Implements}
use luarpc.Socket.Refinement.{Steady, transport_read_buffer-Implements}
use luarpc.Exchange.{Paired, exchange_get, exchange_call}
use luarpc.Examples.{
  helper_t, World, link, pairs_a, pairs_t, interpreter, machine, big_machine, at_start, one_table,
  two_tables, library, grown, Link, stdio, read_one, write_one, at_end, helper_t_f, helper_t_g,
}

abbrev small_tree : Tree
small_tree = Tree.table (Pairs.pair (Tree.string (codes "a")) (Tree.boolean true) Pairs.done)

at_start-Works : (g : World) → Works (at_start g)
at_start-Works g = record { opened = refl; unbroken = refl }

at_start-Linked : (g : World) → Linked machine (at_start g)
at_start-Linked g = record { works = at_start-Works g; agree = refl }

small_tree-Holds :
    Holds interpreter machine (at_start one_table).tpt 0 one_table small_tree (Value.table 0)
unfolding Holds
small_tree-Holds = (
  0,
  refl,
  (Value.string (codes "a"), Value.boolean true, [], refl, (refl, omega arith), refl, refl),
)

small_tree-Holds-library :
    Holds interpreter machine (at_start library).tpt 0 library small_tree (Value.table 1)
unfolding Holds
small_tree-Holds-library = (
  1,
  refl,
  (Value.string (codes "a"), Value.boolean true, [], refl, (refl, omega arith), refl, refl),
)

small_tree-Builds :
    Builds interpreter machine
      (at_start one_table).tpt
      small_tree
      one_table
      (Value.table 1)
      two_tables
unfolding Builds
small_tree-Builds =
    let g = record one_table { tables = pairs_a ∷ [] ∷ [] } in
    (
      refl,
      (
        Value.string (codes "a"),
        Value.boolean true,
        g,
        g,
        two_tables,
        (refl, refl, omega arith),
        (refl, refl),
        refl,
        refl,
      ),
    )

small_tree-Builds-library :
    Builds interpreter machine (at_start library).tpt small_tree library (Value.table 2) grown
unfolding Builds
small_tree-Builds-library =
    let g = record library { tables = pairs_t ∷ pairs_a ∷ [] ∷ [] } in
    (
      refl,
      (
        Value.string (codes "a"),
        Value.boolean true,
        g,
        g,
        grown,
        (refl, refl, omega arith),
        (refl, refl),
        refl,
        refl,
      ),
    )

small_tree-size : size small_tree < 9
unfolding size
small_tree-size = omega arith

path_t_g : PathTo interpreter (tokens (joined helper_t_g)) library (Value.table 1) library
unfolding PathTo Fields tokens joined
path_t_g = (Value.table 0, library, refl, (Value.table 1, library, refl, (refl, refl)))

path_t_f : PathTo interpreter (tokens (joined helper_t_f)) library (Value.function 7) library
unfolding PathTo Fields tokens joined
path_t_f = (Value.table 0, library, refl, (Value.function 7, library, refl, (refl, refl)))

usable : (h : Helper) → IsChain h → depth h < 256 → handle h ≡ 0 → Usable h (at_start one_table)
usable h c d o = record { chain = c; depth_lt = d; own = o }

helper_t_f-IsChain : IsChain helper_t_f
helper_t_f-IsChain = (refl, refl, omega arith, (refl, omega arith))

helper_t_g-IsChain : IsChain helper_t_g
helper_t_g-IsChain = (refl, refl, omega arith, (refl, omega arith))

paired :
    (h : Helper)
    → IsChain h
    → depth h < 256
    → handle h ≡ 0
    → announced h ≡ length (joined h)
    → length (joined h) < 2 ^ 31
    → Paired interpreter interpreter machine machine h (at_start one_table) (at_start library)
paired h c d o f l = record {
  usable = record { chain = c; depth_lt = d; own = o };
  framed = f;
  short = l;
  client_linked = at_start-Linked one_table;
  server_linked = at_start-Linked library;
  same_order = refl;
}

framed_g :
    (announced helper_t_g ≡ length (joined helper_t_g)) × (length (joined helper_t_g) < 2 ^ 31)
unfolding announced joined
framed_g = (refl, omega arith)

framed_f :
    (announced helper_t_f ≡ length (joined helper_t_f)) × (length (joined helper_t_f) < 2 ^ 31)
unfolding announced joined
framed_f = (refl, omega arith)

held :
    HoldsAll interpreter machine
      (at_start one_table).tpt
      0
      9
      one_table
      (small_tree ∷ [])
      (Value.table 0 ∷ [])
held = (Value.table 0, [], refl, small_tree-Holds, small_tree-size, refl)

answered :
    HoldsAll interpreter machine
      (at_start library).tpt
      0
      9
      grown
      (small_tree ∷ [])
      (Value.table 2 ∷ [])
unfolding Holds
answered = (
  Value.table 2,
  [],
  refl,
  (
    2,
    refl,
    (Value.string (codes "a"), Value.boolean true, [], refl, (refl, omega arith), refl, refl),
  ),
  small_tree-size,
  refl,
)

built_all :
    BuildsAll interpreter machine
      (at_start one_table).tpt
      (small_tree ∷ [])
      one_table
      (Value.table 1 ∷ [])
      two_tables
built_all = (Value.table 1, [], two_tables, refl, small_tree-Builds, (refl, refl))

built_all_library :
    BuildsAll interpreter machine
      (at_start library).tpt
      (small_tree ∷ [])
      library
      (Value.table 2 ∷ [])
      grown
built_all_library = (Value.table 2, [], grown, refl, small_tree-Builds-library, (refl, refl))

exchange_get_example :
    (ask answer : Bytes) × (helper_get interpreter machine helper_t_g
        (feed answer (at_start one_table))
      ≡ ok 1 (emit ask (built (Value.table 1) two_tables (at_start one_table))))
    × (rpc_dispatch_worker interpreter machine 9 (feed ask (at_start library))
        ≡ ok tt (emit answer (at_start library)))
exchange_get_example =
    exchange_get interpreter interpreter machine machine 9 helper_t_g small_tree (Value.table 1)
      library (Value.table 1) two_tables (at_start one_table) (at_start library) path_t_g
      small_tree-Holds-library small_tree-Builds small_tree-size
      (paired helper_t_g helper_t_g-IsChain (omega arith) refl framed_g.0 framed_g.1)

exchange_call_example :
    (ask answer : Bytes) × (remote_call interpreter machine 9 helper_t_f
        (Value.table 0 ∷ [])
        (feed answer (at_start one_table))
      ≡ ok 1
          (emit ask (timed in_com (pushed (Value.table 1 ∷ []) two_tables (at_start one_table)))))
    × (rpc_dispatch_worker interpreter machine 9 (feed ask (at_start library))
        ≡ ok tt (emit answer (at_start grown)))
exchange_call_example =
    exchange_call interpreter interpreter machine machine 9 9 helper_t_f 7 (small_tree ∷ [])
      (Value.table 0 ∷ []) library (Value.table 2 ∷ []) grown grown (Value.table 2 ∷ [])
      (small_tree ∷ []) (Value.table 1 ∷ []) two_tables (at_start one_table) (at_start library) held
      refl path_t_f built_all_library refl answered built_all (omega arith) (omega arith) refl
      (paired helper_t_f helper_t_f-IsChain (omega arith) refl framed_f.0 framed_f.1)

write_variable-read_value_example :
    (bs : Bytes) × (write_variable interpreter machine 9 (Value.table 0) (at_start one_table)
      ≡ ok tt (emit bs (at_start one_table)))
    × (read_value interpreter machine (feed bs (at_start library))
        ≡ ok true (built (Value.table 2) grown (at_start library)))
write_variable-read_value_example =
    write_variable-read_value interpreter interpreter machine machine small_tree 9 (Value.table 0)
      (at_start one_table) (Value.table 2) (at_start library) grown small_tree-Holds
      small_tree-Builds-library small_tree-size refl refl refl (at_start-Works one_table) refl

read_variable-Leaves_example :
    Leaves 3 (read_value interpreter machine (feed (4 ∷ 4 ∷ 0 ∷ []) (at_start one_table)))
    × (read_value interpreter machine (feed (4 ∷ 4 ∷ 0 ∷ []) (at_start one_table)) ≢ out_of_fuel)
read_variable-Leaves_example =
    read_variable-Leaves interpreter machine (feed (4 ∷ 4 ∷ 0 ∷ []) (at_start one_table))

-- `handle.t.name.f`, where the names of `t` and `name` differ in length.
abbrev helper_t_name : Helper
helper_t_name = child helper_t 0 1 none (codes "name")

helper_remote_index-misframed_example :
    (len : ℕ) × (helper_remote_index machine
        (child helper_t_name 0 2 none (codes "f"))
        (at_start one_table)
      ≡ ok tt (
          emit
            (wire true 4 len ++ joined (child helper_t_name 0 2 none (codes "f")))
            (at_start one_table)))
    × (len ≢ length (joined (child helper_t_name 0 2 none (codes "f"))))
helper_remote_index-misframed_example =
    helper_remote_index-misframed machine helper_t_name 0 2 none (codes "f") (at_start one_table)
      (refl, refl, omega arith, (refl, refl, omega arith, (refl, omega arith))) (omega arith) refl
      refl (at_start-Works one_table) (λ e. omega arith)
