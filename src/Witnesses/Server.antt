-- ===== src/Witnesses/Server.antt =====
-- The theorems about the server process, each at a concrete input.
use luarpc.Base.{ℕ, ◌≡◌, refl, true, none, some, List, [], ◌∷◌, ◌==◌, if◌then◌else◌, arith}
use luarpc.Examples.{World, Link, interpreter, machine, link, library, system}
use luarpc.Nodes.{Store}
use luarpc.Nodes.Ring.{Ring}
use luarpc.Process.{Connection, Process, Network, continues}
use luarpc.Process.Loop.{serve_rounds, sweep_rounds}
use luarpc.Process.Serving.{serve_all, serve_rounds-serve_all}
use luarpc.Process.Sweeping.{Closed, Swept, sweep_rounds-survivors}

-- A head with the nodes 2 and 3 of the transports 7 and 8.
abbrev two_nodes : Store
two_nodes = record {
  next = λ n. if n == 1 then 2 else (if n == 2 then 3 else 1);
  prev = λ n. if n == 1 then 3 else (if n == 2 then 1 else 2);
  transport = λ n. if n == 2 then some 7 else (if n == 3 then some 8 else none);
  free = 4;
}

abbrev nodes : List (ℕ × ℕ)
nodes = (2, 7) ∷ ((3, 8) ∷ [])

two_nodes-Ring : Ring two_nodes 1 nodes
two_nodes-Ring = (
  omega arith,
  (λ e. omega arith, (λ e. omega arith, tt)),
  (
    refl,
    refl,
    refl,
    omega arith,
    λ e. omega arith,
    (λ e. omega arith, tt),
    (refl, refl, refl, omega arith, λ e. omega arith, tt, (refl, refl)),
  ),
)

abbrev waiting_link : Connection
waiting_link = record {
  tpt = record link { is_set = true; must_die = true };
  input = 9 ∷ [];
  errno = 0;
  output = [];
  broken = none;
}

-- Every descriptor is ready.
abbrev network : Network Link
network = record {
  sys = system;
  select = λ socks w. (some (λ fd. true), w);
  arriving = λ fd w. waiting_link;
}

-- Before the server has a transport; and with a server's transport 5 and two clients that both have
-- sent an unknown command.
abbrev idle : Process World Link
idle = record {
  store = two_nodes;
  list = 1;
  links = λ t. waiting_link;
  fresh = 9;
  stray = [];
  stack = [];
  lua = library;
  handler = none;
  world = record { coming = []; gone = [] };
}

serve_rounds-serve_all_example :
    serve_rounds interpreter machine network 4 4 5 3 1 idle
    ≡ serve_all interpreter machine network 4 4 (7 ∷ (8 ∷ [])) idle
serve_rounds-serve_all_example =
    serve_rounds-serve_all interpreter machine network 4 4 3 5 idle nodes two_nodes-Ring
      ((λ e. omega arith, tt), (tt, tt)) (omega arith)

sweep_rounds-survivors_example :
    (p' : Process World Link) × (sweep_rounds interpreter machine network 4 4 4 1 idle
      ≡ continues tt p')
    × Ring p'.store 1 []
    × Closed (λ u. true) p' nodes
    × Swept (λ u. true) idle p'
sweep_rounds-survivors_example =
    sweep_rounds-survivors interpreter machine network 4 4 idle nodes two_nodes-Ring (omega arith)
