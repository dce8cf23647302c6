-- ===== src/Functions/Connecting.antt =====
-- `rpc_client` (luarpc.c), with `client_create` (luarpc_protocol.c) and the arguments of
-- `transport_open_connection` (luarpc_socket.c).
use luarpc.Base.{ℕ, ◌+◌, pos, Bytes, Bool, true, false, Option, none, some, [], codes}
use luarpc.Errors.{error_string}
use luarpc.Machine.{Machine}
use luarpc.Transport.{Timeval, Transport}
use luarpc.Lua.{Lua, nil, string, client}
use luarpc.Socket.Lifecycle
use luarpc.Negotiate.{client_negotiate}
use luarpc.ErrorHandler.{formatted, deal_with_error}
use luarpc.Variable.Name.{c_string}
use luarpc.Process.Streams.{attach}
use luarpc.Process.{
  Connection, Process, Network, Step, continues, raises, breaks, out_of_rounds, throws, and_on,
  transport_at, set_link, set_tpt, view, after_run, after_io, Act,
}
use luarpc.Functions.Ports.{get_port_number}
use luarpc.Functions.{
  Numbers, Values, argument, fail_with, push_value, opt_number, with_timeval, timeval_from_ms,
}

-- gethostbyname: whether the address found is one of IPv4, and the address; `none` for no host.
abbrev pub Resolver : Type 0 → Type 0
Resolver W = Bytes → W → Option (Bool × ℕ) × W

module _ {G W : Type 0} (lua : Lua G) (m : Machine) (net : Network W) (nums : Numbers)
    (values : Values) (gethostbyname : Resolver W) where
  -- lua_newuserdata; the fields are what the memory `u` holds.
  unfoldable pub client_create : Transport → Act G W ℕ
  client_create u p =
      let fresh_link : Connection = record {
        tpt = u;
        input = [];
        errno = 0;
        output = [];
        broken = none;
      } in
      continues p.fresh
        (record (push_value nums values (client p.fresh) (set_link p.fresh fresh_link p)) {
          fresh = p.fresh + 1;
        })

  -- A host that is of no use: `rpc_client` does not look at the result, nor at the nil.
  unfoldable pub no_host : ℕ → Bytes → Act G W (Unit {0})
  no_host a msg p =
      and_on (after_run a p (deal_with_error lua msg (view a p)))
        λ _ p. continues tt (push_value nums values nil p)

  unfoldable pub resolved : (a port : ℕ) → Option (Bool × ℕ) × W → Act G W (Unit {0})
  unfolding no_host
  resolved a port (none, w) p =
      no_host a (codes "could not resolve internet address") (record p { world = w })
  resolved a port (some (false, ip), w) p =
      no_host a (codes "not an internet IPv4 address") (record p { world = w })
  resolved a port (some (true, ip), w) p =
      and_on
        (after_io a (record p { world = w })
          (Lifecycle.transport_open_connection net.sys ip port (transport_at p a) w))
        λ _ p. continues tt (attach net a p)

  abbrev pub named : ℕ → Option Bytes → Act G W (Unit {0})
  named a none p = fail_with nums values (codes "first argument must be an ip address string") p
  named a (some name) p =
      and_on (get_port_number nums values 2 p)
        λ port p. resolved a port (gethostbyname (c_string name) p.world) p

  unfoldable pub transport_open_connection : ℕ → Act G W (Unit {0})
  unfolding resolved get_port_number
  transport_open_connection a p = named a (lua.tolstring p.lua (argument nums values 1 p)) p

  abbrev pub set_timeouts : Timeval → Timeval → Transport → Transport
  set_timeouts c w t = record t { com_timeout = c; wait_timeout = w; timeout = c }

  unfoldable pub connect_client : ℕ → Act G W ℕ
  unfolding transport_open_connection
  connect_client a p =
      and_on (transport_open_connection a p)
        λ _ p. and_on (after_run a p (client_negotiate m (view a p))) λ _. continues 1

  -- Inside of Try.
  unfoldable pub try_client : Transport → Act G W ℕ
  unfolding connect_client client_create
  try_client u p = and_on (opt_number nums values 3 (nums.of_int (pos 1000)) p) λ com_ms p.
      and_on (opt_number nums values 5 (nums.of_int (pos 3000)) p) λ wait_ms p.
        and_on (client_create u p) λ a. with_timeval nums values (timeval_from_ms nums com_ms) λ c.
          with_timeval nums values (timeval_from_ms nums wait_ms)
            λ w p. connect_client a (set_tpt a (set_timeouts c w (transport_at p a)) p)

  -- luaL_error( L, error_string( e.errnum ) ), the text being a format.
  abbrev raise_formatted : Option Bytes → Act G W ℕ
  raise_formatted none p = breaks
  raise_formatted (some text) p = raises (string text) p

  unfoldable pub caught : Step (Process G W) ℕ → Step (Process G W) ℕ
  caught (continues a p) = continues a p
  caught (raises v p) = raises v p
  caught (throws e p) = raise_formatted (formatted (error_string lua.strerror e.errnum)) p
  caught breaks = breaks
  caught out_of_rounds = out_of_rounds

  unfoldable pub rpc_client : Transport → Act G W ℕ
  unfolding try_client caught
  rpc_client u p = caught (try_client u p)
