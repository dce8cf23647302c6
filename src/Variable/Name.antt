-- ===== src/Variable/Name.antt =====
-- Names with dots, looked up from the globals (`read_index` of luarpc_protocol.c; the commands
-- `read_cmd_call`, `read_cmd_get` and `read_cmd_newindex` repeat the same lines).
use luarpc.Base.{Bytes, true, false, List, [], ◌∷◌, ◌++◌, ◌==◌}
use luarpc.Machine.{Machine}
use luarpc.Lua.{Value, Lua}
use luarpc.State.{Cmd, pure, crash, ◌>>=◌, push, call}
use luarpc.Wire.{read_string, read_uint32}

-- The characters in front of the first NUL.
abbrev pub c_string : Bytes → Bytes
c_string [] = []
c_string (c ∷ r) = elim (c == 0) [ true ↦ [] | false ↦ c ∷ c_string r ]

-- The tokens that `strtok( name, "." )` and the calls after it find; `cur` is the one begun.
unfoldable tokens_from : Bytes → Bytes → List Bytes
tokens_from [] [] = []
tokens_from (b ∷ cur) [] = (b ∷ cur) ∷ []
tokens_from [] (c ∷ r) = elim (c == b'.') [
  | true ↦ tokens_from [] r
  | false ↦ tokens_from (c ∷ []) r
]
tokens_from (b ∷ cur) (c ∷ r) = elim (c == b'.') [
  | true ↦ (b ∷ cur) ∷ tokens_from [] r
  | false ↦ tokens_from ((b ∷ cur) ++ c ∷ []) r
]

unfoldable pub tokens : Bytes → List Bytes
unfolding tokens_from
tokens name = tokens_from [] (c_string name)

module _ {G : Type 0} (lua : Lua G) where
  -- lua_getfield( L, -1, token ); lua_remove( L, -2 ), for each token that is left
  unfoldable pub get_fields : List Bytes → Value → Cmd G Value
  get_fields [] v = pure v
  get_fields (t ∷ ts) v = call (λ g. lua.getfield g v t) >>= get_fields ts

  -- With no token `lua_getglobal` is given a null pointer.
  unfoldable pub get_path : List Bytes → Cmd G (Unit {0})
  unfolding get_fields
  get_path [] = crash
  get_path (t ∷ ts) = call (λ g. lua.getglobal g t) >>= get_fields ts >>= push

  unfoldable pub read_index : Machine → Cmd G (Unit {0})
  unfolding tokens get_path
  read_index m = do len ← read_uint32 m; name ← read_string len; get_path (tokens name)
