-- ===== src/Functions/Unresolved.antt =====
-- `rpc_client` (luarpc.c) for a host that is not found.
use luarpc.Base.{ℕ, pos, Bytes, [], ◌∷◌, codes}
use luarpc.Machine.{Machine}
use luarpc.Transport.{Transport}
use luarpc.Lua.{Lua, number, string}
use luarpc.State.{State}
use luarpc.Negotiate.{client_negotiate}
use luarpc.Variable.Name.{c_string}
use luarpc.Process.{Process, Network, continues, and_on, view, after_run, Act}
use luarpc.Functions.{Numbers, Values}
use luarpc.Functions.Ports.{Ordered}
use luarpc.Functions.Connecting.{Resolver, resolved}
use luarpc.Functions.Timeouts.{Exact}

abbrev pub not_found : Bytes
not_found = codes "could not resolve internet address"

-- The process when `rpc.client` is called with a host and a port.
abbrev pub called : {G W : Type 0} → Numbers → Bytes → ℕ → Process G W → Process G W
called nums host port p = record p { stack = number (nums.of_int (pos port)) ∷ string host ∷ [] }

module _ {G W : Type 0} (lua : Lua G) (m : Machine) (net : Network W) (nums : Numbers)
    (values : Values) (gethostbyname : Resolver W) (e : Exact nums) (o : Ordered nums) where
  -- What follows the port number.
  abbrev go_on : Bytes → ℕ → ℕ → Act G W (Unit {0})
  go_on host a port p =
      resolved lua m net nums values gethostbyname a port (gethostbyname (c_string host) p.world) p

  -- The handshake of the new client, and the count of results.
  abbrev pub negotiate_client : ℕ → Act G W ℕ
  negotiate_client a q = and_on (after_run a q (client_negotiate m (view a q))) λ _. continues 1
