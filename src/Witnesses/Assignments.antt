-- ===== src/Witnesses/Assignments.antt =====
-- The theorems about assignments, each at a concrete input.
use luarpc.Base.{◌<◌, ◌≡◌, refl, Bytes, true, some, List, [], ◌∷◌, ◌++◌, codes, arith}
use luarpc.Lua.{Helper, root, Value}
use luarpc.State.{State, ok}
use luarpc.Wire.Laws.{emit, feed, Linked}
use luarpc.Helper.Remote.{joined, announced}
use luarpc.Variable.Tree.{Tree, size, Holds, Builds, Fields, PathTo}
use luarpc.Variable.Name.{tokens}
use luarpc.Client.{helper_newindex, client_newindex}
use luarpc.Server.{rpc_dispatch_worker}
use luarpc.Exchange.{Paired}
use luarpc.Exchange.Assignments.{exchange_newindex, exchange_newindex_global}
use luarpc.Examples.{
  World, interpreter, machine, at_start, one_table, library, pairs_a, pairs_t, helper_t,
}

abbrev set_t : World
set_t = record library {
  tables = (pairs_t ++ (Value.string (codes "k"), Value.boolean true) ∷ []) ∷ pairs_a ∷ [];
}

abbrev client_state : State World
client_state = record (at_start one_table) {
  stack = Value.boolean true ∷ (Value.string (codes "k") ∷ (Value.helper helper_t ∷ []));
}

linked : (g : World) (st : List Value) → Linked machine (record (at_start g) { stack = st })
linked g st = record { works = record { opened = refl; unbroken = refl }; agree = refl }

path_t : PathTo interpreter (tokens (joined helper_t)) library (Value.table 0) library
unfolding PathTo Fields tokens joined
path_t = (Value.table 0, library, refl, (refl, refl))

true-Holds :
    (g : World)
    → Holds interpreter machine (at_start g).tpt 0 g (Tree.boolean true) (Value.boolean true)
unfolding Holds
true-Holds g = refl

true-Builds :
    (g : World)
    → Builds interpreter machine (at_start library).tpt (Tree.boolean true) g (Value.boolean true) g
unfolding Builds
true-Builds g = (refl, refl)

true-size : size (Tree.boolean true) < 9
unfolding size
true-size = omega arith

paired : Paired interpreter interpreter machine machine helper_t client_state (at_start library)
unfolding announced joined
paired = record {
  usable = record { chain = (refl, omega arith); depth_lt = omega arith; own = refl };
  framed = refl;
  short = omega arith;
  client_linked = linked one_table _;
  server_linked = linked library [];
  same_order = refl;
}

exchange_newindex_example :
    (ask answer : Bytes) × (helper_newindex interpreter machine 9 (feed answer client_state)
      ≡ ok 0 (emit ask client_state))
    × (rpc_dispatch_worker interpreter machine 9 (feed ask (at_start library))
        ≡ ok tt (emit answer (at_start set_t)))
unfolding joined
exchange_newindex_example =
    exchange_newindex interpreter interpreter machine machine 9 9 helper_t (codes "k")
      (Tree.boolean true) (Value.boolean true) [] (Value.table 0) (Value.boolean true) library
      library set_t client_state (at_start library) refl (omega arith) (true-Holds one_table)
      true-size path_t (true-Builds library) refl refl paired

-- The helper that takes the handle's place, and the server with the global variable `y`.
abbrev nameless : Helper
nameless = root 0 0 (some 0) []

abbrev with_y : World
with_y = record library { globals = (codes "y", Value.boolean true) ∷ library.globals }

exchange_newindex_global_example :
    (ask answer : Bytes) × (client_newindex interpreter machine 9 (
        feed answer (record (at_start one_table) {
          stack = Value.boolean true ∷ (Value.string (codes "y") ∷ (Value.client 0 ∷ []));
        }))
      ≡ ok 0 (
          emit ask (record (at_start one_table) {
            stack = Value.boolean true ∷ (Value.string (codes "y") ∷ (Value.helper nameless ∷ []));
          })))
    × (rpc_dispatch_worker interpreter machine 9 (feed ask (at_start library))
        ≡ ok tt (emit answer (at_start with_y)))
exchange_newindex_global_example =
    exchange_newindex_global interpreter interpreter machine machine 9 9 (codes "y")
      (Tree.boolean true) (Value.boolean true) (Value.boolean true) library with_y
      (at_start one_table) (at_start library) (omega arith) refl (true-Holds one_table) true-size
      (true-Builds library) refl refl (linked one_table []) (linked library []) refl
