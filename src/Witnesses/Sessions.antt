-- ===== src/Witnesses/Sessions.antt =====
-- The theorems about the beginning of a session, each at a concrete input: a little-endian client
-- with 8-byte numbers and a big-endian server with 4-byte integers.
use luarpc.Base.{◌<◌, ◌≡◌, refl, Bytes, true, none, some, [], ◌∷◌, ◌++◌, arith}
use luarpc.Transport.{Transport, transport_create}
use luarpc.Lua.{Value}
use luarpc.State.{ok, ◌>>◌, read_buffer, write_buffer}
use luarpc.Wire.{read_uint8, read_string, write_string}
use luarpc.Socket.{finished}
use luarpc.Socket.Lifecycle.{transport_accept}
use luarpc.Codes.{rpc_cmd_con, rpc_cmd_call}
use luarpc.Wire.Laws.{emit, feed}
use luarpc.Negotiate.{client_negotiate, server_negotiate}
use luarpc.Negotiate.Agreement.{hello, answer}
use luarpc.Helper.Remote.{joined, announced}
use luarpc.Variable.Tree.{Tree, size, Holds, Builds, Fields, PathTo}
use luarpc.Variable.Name.{tokens}
use luarpc.Variable.Lists.{HoldsAll, BuildsAll, pushed}
use luarpc.Client.{remote_call}
use luarpc.Client.Requests.{timed, in_com}
use luarpc.Server.{rpc_dispatch_worker}
use luarpc.Exchange.Session.{client_end, server_end, Fresh, session_call}
use luarpc.Base.{Bool, false}
use luarpc.Nodes.{transport_insert_to_list, transport_new_list}
use luarpc.Process.{view, Step, Connection, Process, Network, continues}
use luarpc.Process.Loop.{rounds, start_list, new_worker, enlist, rpc_dispatch_accept}
use luarpc.Process.Keeping.{Keeps}
use luarpc.Process.Listed.{Lists, Listed}
use luarpc.Process.Settling.{Settles}
use luarpc.Process.Settling.Rounds.{rounds-start_list}
use luarpc.Process.Refusing.{Refused, rpc_dispatch_accept-Refused}
use luarpc.Process.Greeting.{Greeted, rpc_dispatch_accept-Greeted}
use luarpc.Examples.{
  World, Link, interpreter, machine, big_machine, at_start, one_table, library, helper_t_f, system,
}

fresh :
    Fresh interpreter interpreter machine big_machine helper_t_f
      (at_start one_table)
      (at_start library)
unfolding announced joined
fresh = record {
  usable = record {
    chain = (refl, refl, omega arith, (refl, omega arith));
    depth_lt = omega arith;
    own = refl;
  };
  framed = refl;
  short = omega arith;
  client_works = record { opened = refl; unbroken = refl };
  server_works = record { opened = refl; unbroken = refl };
  client_size = omega arith;
  server_size = omega arith;
}

path : PathTo interpreter (tokens (joined helper_t_f)) library (Value.function 7) library
unfolding PathTo Fields tokens joined
path = (Value.table 0, library, refl, (Value.function 7, library, refl, (refl, refl)))

true-size : size (Tree.boolean true) < 9
unfolding size
true-size = omega arith

held :
    (t : Transport) (g : World)
    → HoldsAll interpreter machine t 0 9 g (Tree.boolean true ∷ []) (Value.boolean true ∷ [])
unfolding Holds
held t g = (Value.boolean true, [], refl, refl, true-size, refl)

held_there :
    (t : Transport) (g : World)
    → HoldsAll interpreter big_machine t 0 9 g (Tree.boolean true ∷ []) (Value.boolean true ∷ [])
unfolding Holds
held_there t g = (Value.boolean true, [], refl, refl, true-size, refl)

built :
    (t : Transport) (g : World)
    → BuildsAll interpreter machine t (Tree.boolean true ∷ []) g (Value.boolean true ∷ []) g
unfolding Builds
built t g = (Value.boolean true, [], g, refl, (refl, refl), (refl, refl))

built_there :
    (t : Transport) (g : World)
    → BuildsAll interpreter big_machine t (Tree.boolean true ∷ []) g (Value.boolean true ∷ []) g
unfolding Builds
built_there t g = (Value.boolean true, [], g, refl, (refl, refl), (refl, refl))

session_call_example :
    (ask reply : Bytes) × ((client_negotiate machine
          >> remote_call interpreter machine 9 helper_t_f (Value.boolean true ∷ []))
        (feed (answer machine big_machine (at_start library).tpt ++ reply) (at_start one_table))
      ≡ ok 1 (
          emit ((rpc_cmd_con ∷ hello machine) ++ ask) (
            timed in_com (
              pushed (Value.boolean true ∷ []) one_table (record (at_start one_table) {
                tpt =
                    client_end machine big_machine (at_start one_table).tpt (at_start library).tpt;
              })))))
    × ((server_negotiate big_machine >> rpc_dispatch_worker interpreter big_machine 9)
          (feed ((rpc_cmd_con ∷ hello machine) ++ ask) (at_start library))
        ≡ ok tt (
            emit
              (answer machine big_machine (at_start library).tpt ++ reply)
              (record (at_start library) {
                tpt = server_end machine big_machine (at_start library).tpt;
              })))
session_call_example =
    session_call interpreter interpreter machine big_machine 9 9 helper_t_f 7
      (Tree.boolean true ∷ []) (Value.boolean true ∷ []) library (Value.boolean true ∷ []) library
      library (Value.boolean true ∷ []) (Tree.boolean true ∷ []) (Value.boolean true ∷ []) one_table
      (at_start one_table) (at_start library) (held _ one_table) refl path (built_there _ library)
      refl (held_there _ library) (built _ one_table) (omega arith) (omega arith) refl fresh

-- A server whose transport 5 listens with the descriptor 3, without clients; whoever connects is a
-- little-endian client, which has sent its handshake and the byte 9.
abbrev no_link : Connection
no_link = record { tpt = transport_create; input = []; errno = 0; output = []; broken = none }

abbrev listening : Process World Link
listening = record {
  store = record { next = λ n. 1; prev = λ n. 1; transport = λ n. none; free = 2 };
  list = 1;
  links = λ t. record no_link { tpt = record transport_create { fd = some 3; file = true } };
  fresh = 6;
  stray = [];
  stack = [];
  lua = library;
  handler = none;
  world = record { coming = []; gone = [] };
}

abbrev greeting_network : Network Link
greeting_network = record {
  sys = system;
  select = λ socks w. (none, w);
  arriving = λ fd w. record no_link { input = (rpc_cmd_con ∷ hello machine) ++ 9 ∷ [] };
}

abbrev worker : Transport
worker = new_worker interpreter big_machine greeting_network 4 4

abbrev accepted_link : Transport
accepted_link = record worker { fd = some 4; file = true }

accepted :
    transport_accept system
      (record transport_create { fd = some 3; file = true })
      worker
      listening.world
    ≡ finished tt accepted_link listening.world
unfolding transport_accept
accepted = refl

rpc_dispatch_accept-Greeted_example :
    (q : Process World Link) × (rpc_dispatch_accept interpreter big_machine greeting_network 4 4 5
        listening
      ≡ continues tt q)
    × Greeted interpreter big_machine greeting_network 4 4 machine 6 accepted_link []
        (9 ∷ [])
        (enlist interpreter big_machine greeting_network 4 4 worker listening)
        q
rpc_dispatch_accept-Greeted_example =
    rpc_dispatch_accept-Greeted interpreter big_machine greeting_network 4 4 5 4 machine
      accepted_link (9 ∷ []) listening.world listening (λ e. omega arith) accepted refl refl refl

-- Whoever connects sends the byte of a call first.
abbrev refusing_network : Network Link
refusing_network = record greeting_network {
  arriving = λ fd w. record no_link { input = rpc_cmd_call ∷ 9 ∷ [] };
}

no_client-Lists : Lists 5 [] listening
no_client-Lists = record {
  ring = (omega arith, tt, (refl, refl));
  different = tt;
  below = tt;
  server_below = omega arith;
}

rpc_dispatch_accept-Refused_example :
    (q : Process World Link) × (rpc_dispatch_accept interpreter big_machine refusing_network 4 4 5
        listening
      ≡ continues tt q)
    × Refused interpreter big_machine refusing_network 4 4 6 [] [] listening q
rpc_dispatch_accept-Refused_example =
    rpc_dispatch_accept-Refused interpreter big_machine refusing_network 4 4 5 4 rpc_cmd_call
      accepted_link (9 ∷ []) listening.world [] listening no_client-Lists (omega arith) accepted
      refl refl (λ e. omega arith)

-- The server is ready for a client in each of two rounds.
abbrev serving_network : Network Link
serving_network = record greeting_network { select = λ socks w. (some (λ fd. true), w) }

rounds-start_list_example :
    (let r =
        rounds interpreter big_machine serving_network 5 5 2 5
          (start_list interpreter big_machine serving_network 5 5 5 listening) in
      Settles r × Keeps (Listed 5 3) r)
rounds-start_list_example =
    rounds-start_list interpreter big_machine serving_network 5 5 5 2 listening (omega arith)
      (omega arith)

-- After a round the server has a client and goes on.
abbrev goes_on : {P : Type 0} → Step P Bool → Bool
goes_on (continues b p) = b
goes_on _ = false

one_round :
    goes_on (
      rounds interpreter big_machine serving_network 5 5 1 5
        (start_list interpreter big_machine serving_network 5 5 5 listening))
    ≡ true
unfolding rounds transport_insert_to_list transport_new_list transport_accept server_negotiate
    read_uint8 view read_buffer read_string write_string write_buffer
one_round = refl
