-- ===== src/Witnesses/Functions.antt =====
-- The theorems about the module's functions, each at a concrete input. A `double` is a number of
-- thousandths, with a second byte if it is negative.
use luarpc.Base.{
  ℕ, ◌+◌, ◌-◌, ◌*◌, ◌/◌, ◌%◌, ◌^◌, ◌<◌, ◌≡◌, refl, ℤ, pos, negsuc, Bytes, Bool, true, false, Option,
  none, some, [], ◌∷◌, ◌++◌, ◌==◌, ==_self, ltb, ◌≢◌, get_or, codes, arith, ap,
}
use luarpc.Transport.{Transport, transport_create}
use luarpc.Lua.{Value, number, client, table}
use luarpc.Examples.{World, Link, interpreter, machine, library, system}
use luarpc.Process.{Connection, Process, Network, continues}
use luarpc.Process.Starting.{server_create, rpc_server}
use luarpc.Process.Arguments.{Begins, server_create-Begins}
use luarpc.Process.Endless.{rpc_server-endless}
use luarpc.Functions.Ports.{Casts, Ordered}
use luarpc.Functions.{Numbers, Values, set_wait, set_com, rpc_wait_timeout, rpc_com_timeout}
use luarpc.Negotiate.Agreement.{answer}
use luarpc.Socket.Lifecycle
use luarpc.Functions.Connecting.{Resolver, set_timeouts, rpc_client}
use luarpc.Functions.Connected.{Reached, Shaken, rpc_client-connected}
use luarpc.Functions.Timeouts.{Exact, timeval, RoundTrip, rpc_timeouts-RoundTrip}
use luarpc.Functions.Unresolved.{called}

abbrev frac : Bytes → ℕ
frac x = get_or x 0 0

abbrev is_equal : Bytes → Bytes → Bool
is_equal (x ∷ []) (y ∷ []) = x == y
is_equal (x ∷ (s ∷ r)) (y ∷ (t ∷ q)) = x == y
is_equal _ _ = false

abbrev is_less : Bytes → Bytes → Bool
is_less (x ∷ []) (y ∷ []) = ltb x y
is_less (x ∷ (s ∷ r)) y = true
is_less _ _ = false

abbrev of_integer : ℤ → Bytes
of_integer (pos n) = (n * 1000) ∷ []
of_integer (negsuc n) = n ∷ (1 ∷ [])

abbrev to_integer : Bytes → Option ℤ
to_integer (x ∷ []) = some (pos (x / 1000))
to_integer (x ∷ (s ∷ r)) = some (negsuc x)
to_integer [] = none

abbrev thousandths : Numbers
thousandths = record {
  div = λ x y. (frac x * 1000 / frac y) ∷ [];
  mul = λ x y. (frac x * frac y / 1000) ∷ [];
  add = λ x y. (frac x + frac y) ∷ [];
  sub = λ x y. (frac x - frac y) ∷ [];
  less = is_less;
  equal = is_equal;
  of_int = of_integer;
  to_int = to_integer;
  time_max = 2 ^ 63 - 1;
}

one_byte-ap : (x y : ℕ) → x ≡ y → ◌≡◌ {A = Bytes} (x ∷ []) (y ∷ [])
one_byte-ap x y e = ap (λ z. z ∷ []) e

thousandths-Exact : Exact thousandths
thousandths-Exact = record {
  quotient = λ n h. ap (λ k. some (pos k)) (omega arith);
  whole = λ n h. one_byte-ap _ _ (omega arith);
  cast = λ n h. ap (λ k. some (pos k)) (omega arith);
  times = λ n h. one_byte-ap _ _ (omega arith);
  plus = λ n k h. one_byte-ap _ _ (omega arith);
  minus = λ n k l h. one_byte-ap _ _ (omega arith);
  apart = λ n h. refl;
  same = refl;
  time_wide = omega arith;
}

thousandths-Ordered : Ordered thousandths
thousandths-Ordered = record {
  not_less = λ n k h. ground arith;
  equal_self = λ n. ==_self (n * 1000);
}

abbrev same_table : Value → Value → Bool
same_table (table a) (table b) = a == b
same_table _ _ = false

abbrev number_of : Value → Option Bytes
number_of (number x) = some x
number_of _ = none

abbrev metatable_of : Value → Option Value
metatable_of (client a) = some (table 99)
metatable_of _ = none

abbrev plain_values : Values
plain_values = record {
  tonumber = number_of;
  number_error = λ v. Value.nil;
  metatable = metatable_of;
  registered = λ name. table 99;
  rawequal = same_table;
}

abbrev empty_link : Connection
empty_link = record { tpt = transport_create; input = []; errno = 0; output = []; broken = none }

abbrev at_rest : Process World Link
at_rest = record {
  store = record { next = λ n. 1; prev = λ n. 1; transport = λ n. none; free = 2 };
  list = 1;
  links = λ t. empty_link;
  fresh = 6;
  stray = [];
  stack = [];
  lua = library;
  handler = some 0;
  world = record { coming = []; gone = [] };
}

abbrev quiet_network : Network Link
quiet_network = record {
  sys = system;
  select = λ socks w. (none, w);
  arriving = λ fd w. empty_link;
}

abbrev no_names : Resolver Link
no_names = λ name w. (none, w)

rpc_timeouts-RoundTrip_example :
    RoundTrip {G = World} {W = Link} thousandths
      (rpc_wait_timeout thousandths plain_values)
      set_wait
      5
      2500
      at_rest
    × RoundTrip {G = World} {W = Link} thousandths
        (rpc_com_timeout thousandths plain_values)
        set_com
        5
        2500
        at_rest
    × (2500 % 1000 * 1000 < 10 ^ 6)
rpc_timeouts-RoundTrip_example =
    rpc_timeouts-RoundTrip thousandths plain_values thousandths-Exact 5 2500 at_rest (omega arith)
      (omega arith) refl (table 99, refl, refl)

cast_one :
    (d : Bytes)
    → is_equal d d ≡ true
    → is_less d (0 ∷ []) ≡ false
    → is_less (65535000 ∷ []) d ≡ false
    → (n : ℕ) × (to_integer d ≡ some (pos n)) × (n < 65536)
cast_one [] e low high = absurd (cc)
cast_one (x ∷ []) e low high = (x / 1000, refl, ground arith)
cast_one (x ∷ (s ∷ r)) e low high = absurd (cc)

cast_nan : (d : Bytes) → is_equal d d ≡ false → to_integer d ≡ none
cast_nan [] e = refl
cast_nan (x ∷ []) e = absurd (let same = ==_self x in cc)
cast_nan (x ∷ (s ∷ r)) e = absurd (let same = ==_self x in cc)

thousandths-Casts : Casts thousandths
thousandths-Casts = record { in_range_cast = cast_one; nan_cast = cast_nan }

-- `rpc.server( 12346 )`
abbrev at_server : Process World Link
at_server = record at_rest { stack = number (12346000 ∷ []) ∷ [] }

server_create-Begins_example :
    Begins interpreter machine quiet_network 4 4 thousandths plain_values transport_create at_server
      (server_create interpreter machine quiet_network 4 4 thousandths plain_values transport_create
        at_server)
server_create-Begins_example =
    server_create-Begins interpreter machine quiet_network 4 4 thousandths plain_values
      thousandths-Casts transport_create at_server

rpc_server-endless_example :
    rpc_server interpreter machine quiet_network 4 4 thousandths plain_values 2 transport_create
      at_server
    ≢ continues tt at_server
rpc_server-endless_example =
    rpc_server-endless interpreter machine quiet_network 4 4 thousandths plain_values 2
      transport_create at_server at_server

-- Each connection begins with a server's answer to the handshake and the byte 9.
abbrev shaking_network : Network Link
shaking_network = record quiet_network {
  arriving =
      λ fd w. record empty_link { input = answer machine machine transport_create ++ 9 ∷ [] };
}

abbrev local_host : Resolver Link
local_host = λ name w. (some (true, 2130706433), w)

abbrev unconnected : Transport
unconnected =
    set_timeouts interpreter machine shaking_network thousandths plain_values local_host
      (timeval 1000) (timeval 3000) transport_create

abbrev connected_link : Transport
connected_link = record unconnected { fd = some 3; file = true; timeout = unconnected.com_timeout }

reached :
    Reached interpreter machine shaking_network thousandths plain_values local_host
      thousandths-Exact thousandths-Ordered
      (codes "localhost")
      2130706433
      12346
      unconnected
      connected_link
      3
      at_rest.world
      at_rest.world
      at_rest.world
unfolding Lifecycle.transport_open_connection
reached = record { found = refl; made = refl; descriptor = refl }

rpc_client-connected_example :
    (q : Process World Link) × (rpc_client interpreter machine shaking_network thousandths
        plain_values local_host transport_create
        (called thousandths (codes "localhost") 12346 at_rest)
      ≡ continues 1 q)
    × (q.stack ≡ client 6 ∷ (called thousandths (codes "localhost") 12346 at_rest).stack)
    × Shaken interpreter machine shaking_network thousandths plain_values local_host
        thousandths-Exact thousandths-Ordered 6 connected_link
        (answer machine machine transport_create)
        (9 ∷ [])
        []
        q
rpc_client-connected_example =
    rpc_client-connected interpreter machine shaking_network thousandths plain_values local_host
      thousandths-Exact thousandths-Ordered machine transport_create transport_create connected_link
      12346 2130706433 3 (codes "localhost") (9 ∷ []) at_rest.world at_rest.world at_rest
      (omega arith) refl refl reached refl refl refl
