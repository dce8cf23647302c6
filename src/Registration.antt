-- ===== src/Registration.antt =====
-- What `luaopen_rpc` registers (luarpc.c, the standalone build): the tables of functions and the
-- metatables. The calls of the Lua API are parameters.
pub mod Promises
pub mod Entries
use luarpc.Base.{ℕ, String, Bytes, Option, none, some, List, [], ◌∷◌, codes}
use luarpc.Errors.{Exception}
use luarpc.Socket.Windows.Startup.{Wsa, net_startup}

-- What a field can hold: a function of the module, by its name, or a text.
pub data Field : Type 0 where
  c_function : Bytes → Field
  text : Bytes → Field

-- The calls on Lua in the state `G`; a table is a number. `register` is luaL_register with the name
-- of a module, which it pushes; `register_into` is that with a null pointer, on the table on top.
-- `newmetatable` gives the metatable that it pushes.
pub record Api (G : Type 0) : Type 0 where
  pub register : G → Bytes → List (Bytes × Field) → ℕ × G
  pub register_into : G → ℕ → List (Bytes × Field) → G
  pub newmetatable : G → Bytes → ℕ × G
  pub setfield : G → ℕ → Bytes → Field → G

-- The tables on the Lua stack, the top first, and Lua.
pub record Opening (G : Type 0) : Type 0 where
  pub stack : List ℕ
  pub lua : G

-- The entries, a name and a function each.
abbrev entry : String → String → Bytes × Field
entry k f = (codes k, c_function (codes f))

abbrev pub rpc_client_mt : List (Bytes × Field)
rpc_client_mt =
    entry "__index" "client_index"
    ∷ entry "__newindex" "client_newindex"
    ∷ entry "__gc" "rpc_close"
    ∷ []

abbrev pub rpc_helper_mt : List (Bytes × Field)
rpc_helper_mt =
    entry "__call" "helper_call"
    ∷ entry "__index" "helper_index"
    ∷ entry "__newindex" "helper_newindex"
    ∷ entry "__gc" "helper_close"
    ∷ []

abbrev pub rpc_map : List (Bytes × Field)
rpc_map =
    entry "client" "rpc_client"
    ∷ entry "close" "rpc_close"
    ∷ entry "server" "rpc_server"
    ∷ entry "on_error" "rpc_on_error"
    ∷ entry "com_timeout" "rpc_com_timeout"
    ∷ entry "wait_timeout" "rpc_wait_timeout"
    ∷ []

-- LUARPC_MODE, for sockets
abbrev pub luarpc_mode : Bytes
luarpc_mode = codes "tcpip"

module _ {G : Type 0} (api : Api G) where
  unfoldable pub register_module : Opening G → Opening G
  register_module s =
      let (t, g) = api.register s.lua (codes "rpc") rpc_map in
      record { stack = t ∷ s.stack; lua = api.setfield g t (codes "mode") (text luarpc_mode) }

  -- luaL_newmetatable, and luaL_register on the table that it leaves on top.
  unfoldable pub register_type : Bytes → List (Bytes × Field) → Opening G → Opening G
  register_type name entries s =
      let (t, g) = api.newmetatable s.lua name in
      record { stack = t ∷ s.stack; lua = api.register_into g t entries }

  unfoldable pub register_handle : Opening G → Opening G
  register_handle s =
      let (t, g) = api.newmetatable s.lua (codes "rpc.server_handle") in
      record { stack = t ∷ s.stack; lua = g }

  -- The number of results, of which the last is on top of the stack.
  unfoldable pub luaopen_rpc : Opening G → ℕ × Opening G
  unfolding register_module register_type register_handle
  luaopen_rpc s = (
    1,
    register_handle (
        register_type (codes "rpc.client") rpc_client_mt
          (register_type (codes "rpc.helper") rpc_helper_mt (register_module s))),
  )

  -- The end on Windows: an exception of `net_startup` leaves the function.
  unfoldable pub started :
      {W : Type 0} → ℕ × Opening G → Option Exception × W → Option Exception × ℕ × Opening G × W
  started (n, s) (e, w) = (e, n, s, w)

  unfoldable luaopen_rpc_win32 :
      {W : Type 0} → Wsa W → Opening G → W → Option Exception × ℕ × Opening G × W
  unfolding luaopen_rpc net_startup started
  luaopen_rpc_win32 wsa s w = started (luaopen_rpc s) (net_startup wsa w)
