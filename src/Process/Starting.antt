-- ===== src/Process/Starting.antt =====
-- The start of `rpc_server` (luarpc.c): `server_create`, and the arguments of `transport_open_listener`
-- (luarpc_socket.c).
use luarpc.Base.{ℕ, ◌+◌, ◌∷◌}
use luarpc.Machine.{Machine}
use luarpc.Transport.{Transport}
use luarpc.Lua.{Lua, Value}
use luarpc.Socket.Lifecycle
use luarpc.ErrorHandler.{check_num_args}
use luarpc.Functions.{Numbers, Values}
use luarpc.Functions.Ports.{get_port_number}
use luarpc.Process.{
  Process, Network, continues, and_on, transport_at, set_tpt, view, after_run, after_io, Act,
}
use luarpc.Process.Loop.{run_server}

module _ {G W : Type 0} (lua : Lua G) (m : Machine) (net : Network W) (d fuel : ℕ) (nums : Numbers)
    (values : Values) where
  -- lua_newuserdata; no metatable is found under the name that is set.
  abbrev new_userdata : Process G W → Process G W
  new_userdata p = record p { fresh = p.fresh + 1; stack = Value.userdata ∷ p.stack }

  -- The port, behind the count of the arguments, of which the server's transport is the second.
  unfoldable pub listener_port : (server : ℕ) → Act G W ℕ
  unfolding check_num_args get_port_number
  listener_port server p =
      and_on (after_run server p (check_num_args lua 2 (view server p)))
        λ _. get_port_number nums values 1

  unfoldable pub transport_open_listener : (server : ℕ) → Act G W (Unit {0})
  unfolding listener_port
  transport_open_listener server p = and_on (listener_port server p) λ port q.
      after_io server q
        (Lifecycle.transport_open_listener net.sys port (transport_at q server) q.world)

  -- The server's transport lies in fresh memory `u`.
  abbrev pub new_server : Transport → Process G W → Process G W
  new_server u p = set_tpt p.fresh (Lifecycle.transport_init net.sys u) (new_userdata p)

  unfoldable pub server_create : Transport → Act G W ℕ
  unfolding transport_open_listener
  server_create u p =
      and_on (transport_open_listener p.fresh (new_server u p)) λ _. continues p.fresh

  unfoldable pub rpc_server : (k : ℕ) → Transport → Act G W (Unit {0})
  unfolding server_create run_server
  rpc_server k u p = and_on (server_create u p) λ server. run_server lua m net d fuel k server
