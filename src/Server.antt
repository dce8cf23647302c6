-- ===== src/Server.antt =====
-- The server's side of the commands (luarpc_protocol.c): `read_cmd_call`, `read_cmd_get`,
-- `read_cmd_newindex` and `rpc_dispatch_worker`. `d` is how deep the C stack lets
-- `write_variable` follow tables.
pub mod Assignments
pub mod Calls
pub mod Failures
pub mod Refusals
pub mod Replies
pub mod Undefined
use luarpc.Base.{
  ℕ, zero, suc, ◌+◌, ◌-◌, ◌%◌, ◌^◌, Bytes, Bool, true, false, Option, none, some, List, [], ◌∷◌,
  ◌++◌, length, get_elem?, take, drop, reverse, if◌then◌else◌, ltb, ◌==◌, codes,
}
use luarpc.Errors.{
  Exception, ExceptionType, exception, nonfatal, fatal, done, err_command, error_string,
}
use luarpc.Codes.{
  rpc_cmd_call, rpc_cmd_get, rpc_cmd_con, rpc_cmd_newindex, rpc_ready, rpc_unsupported_cmd,
}
use luarpc.Machine.{Machine}
use luarpc.Lua.{Value, nil, Lua}
use mathlib.Core.Option
use luarpc.State.{State, Cmd, ok, throw, fault, pure, crash, modify, try_catch, call, ◌>>=◌, ◌>>◌}
use luarpc.Wire.{read_string, write_string, read_uint8, write_uint8, read_uint32, write_uint32}
use luarpc.Negotiate.{server_negotiate, transport_flush}
use luarpc.ErrorHandler.{is_callable, deal_with_error}
use luarpc.Variable.{write_variable, read_value, read_values, write_values}
use luarpc.Variable.Name.{c_string, tokens, get_path}

abbrev pub top : List Value → Value
top [] = nil
top (v ∷ vs) = v

-- The buffer of a name behind `strtok`: the dot that ends a token is a NUL now. `inside` says
-- whether a token has begun; behind a NUL nothing changes.
unfoldable pub after_strtok : (inside : Bool) → Bytes → Bytes
after_strtok inside [] = []
after_strtok inside (c ∷ r) = elim (c == 0) [
  | true ↦ c ∷ r
  | false ↦ elim (c == b'.') [
    | true ↦ (if inside then 0 else c) ∷ after_strtok false r
    | false ↦ c ∷ after_strtok true r
  ]
]

abbrev pub undefined_function : Bytes
undefined_function = codes "undefined function: "

module _ {G : Type 0} (lua : Lua G) (m : Machine) where
  -- lua_settop( L, 0 )
  abbrev empty_stack : Cmd G (Unit {0})
  empty_stack s = ok tt (record s { stack = [] })

  -- The name that a command begins with.
  unfoldable pub read_name : Cmd G Bytes
  read_name = do len ← read_uint32 m; read_string len

  -- The results of a call that failed, or the message of an undefined function.
  unfoldable pub write_error : ℕ → Bytes → Cmd G (Unit {0})
  write_error code msg = do
    write_uint8 1
    write_uint32 m code
    write_uint32 m (length msg % 2 ^ 32)
    write_string msg (length msg % 2 ^ 32)

  unfoldable pub write_undefined : Bytes → Cmd G (Unit {0})
  write_undefined name = do
    write_uint8 1
    write_uint32 m lua.errrun
    write_uint32 m ((length undefined_function + length name) % 2 ^ 32)
    write_string undefined_function (length undefined_function)
    write_string (after_strtok false name) (length name)

  module _ (d : ℕ) where
    -- The values above `stackpos`, from the bottom.
    unfoldable pub write_results : ℕ → Cmd G (Unit {0})
    write_results stackpos s =
        (do
          write_uint8 0
          write_uint32 m (length s.stack - stackpos)
          write_values lua m d (reverse (take (length s.stack - stackpos) s.stack)))
          s

    unfoldable finish_call : ℕ → ℕ × List Value × G → List Value → Cmd G (Unit {0})
    unfolding write_error write_results
    finish_call stackpos (code, results, g) rest s =
        if code == 0
        then write_results stackpos (record s { stack = reverse results ++ rest; lua = g })
        else write_error code (Option.get_or (lua.tolstring g (top results)) [])
            (record s { stack = results ++ rest; lua = g })

    unfoldable call_value : ℕ → ℕ → Option Value → Cmd G (Unit {0})
    unfolding finish_call
    call_value stackpos nargs none s = fault
    call_value stackpos nargs (some f) s =
        finish_call stackpos (lua.pcall s.lua f (reverse (take nargs s.stack)))
          (drop (nargs + 1) s.stack) s

    -- lua_pcall( L, nargs, LUA_MULTRET, 0 ) on the `nargs` values on top and the one below them.
    unfoldable pub call_function : ℕ → ℕ → Cmd G (Unit {0})
    unfolding call_value
    call_function stackpos nargs s = call_value stackpos nargs (get_elem? s.stack nargs) s

    -- Behind the lookup: `good` says whether the value found can be called. A count of 2 ^ 31 or
    -- more is a negative `int`.
    unfoldable pub call_found : Bytes → ℕ → Bool → Cmd G (Unit {0})
    unfolding call_function write_undefined
    call_found name stackpos good = do
      nargs ← read_uint32 m
      if ltb nargs (2 ^ 31) then read_values lua m nargs else pure tt
      if good
          then if ltb nargs (2 ^ 31) then call_function stackpos nargs else crash
          else write_undefined name
      empty_stack

    unfoldable pub read_cmd_call : Cmd G (Unit {0})
    unfolding read_name call_found
    read_cmd_call = do
      name ← read_name
      get_path lua (tokens name)
      (λ s. call_found name (length s.stack - 1) (is_callable (top s.stack)) s)

    unfoldable pub read_cmd_get : Cmd G (Unit {0})
    unfolding read_name
    read_cmd_get = do
      name ← read_name
      get_path lua (tokens name)
      (λ s. write_variable lua m d (top s.stack) s)
      empty_stack

  -- lua_settable( L, -3 )
  unfoldable set_table : List Value → Cmd G (Unit {0})
  set_table (v ∷ (k ∷ (t ∷ rest))) s =
      call (λ g. lua.settable g t k v) (record s { stack = t ∷ rest })
  set_table _ s = fault

  -- lua_setglobal( L, lua_tostring( L, -2 ) ); a key that is no text gives a null pointer.
  unfoldable pub set_global : List Value → Cmd G (Unit {0})
  set_global (v ∷ (k ∷ rest)) s = elim (lua.tolstring s.lua k) [
    | none ↦ fault
    | some name ↦ call (λ g. lua.setglobal g (c_string name) v) (record s { stack = k ∷ rest })
  ]
  set_global _ s = fault

  unfoldable pub read_key_value : Cmd G (Unit {0})
  read_key_value = do _ ← read_value lua m; _ ← read_value lua m; pure tt

  unfoldable pub newindex_at : Bytes → Cmd G (Unit {0})
  unfolding read_key_value set_table
  newindex_at name = do get_path lua (tokens name); read_key_value; (λ s. set_table s.stack s)

  unfoldable pub newindex_global : Cmd G (Unit {0})
  unfolding read_key_value set_global
  newindex_global = do read_key_value; (λ s. set_global s.stack s)

  unfoldable pub read_cmd_newindex : Cmd G (Unit {0})
  unfolding read_name newindex_at newindex_global
  read_cmd_newindex = do
    name ← read_name
    if ltb 0 (length (c_string name)) then newindex_at name else newindex_global
    write_uint8 0
    empty_stack

  unfoldable dispatch : ℕ → ℕ → Cmd G (Unit {0})
  unfolding read_cmd_call read_cmd_get read_cmd_newindex
  dispatch d cmd =
      if cmd == rpc_cmd_call
      then write_uint8 rpc_ready >> read_cmd_call d
      else if cmd == rpc_cmd_get
      then write_uint8 rpc_ready >> read_cmd_get d
      else if cmd == rpc_cmd_con
      then server_negotiate m
      else if cmd == rpc_cmd_newindex
      then write_uint8 rpc_ready >> read_cmd_newindex
      else write_uint8 rpc_unsupported_cmd >> throw (exception nonfatal err_command)

  unfoldable catch_worker : ExceptionType → ℕ → Cmd G (Unit {0})
  catch_worker fatal n = deal_with_error lua (error_string lua.strerror n)
  catch_worker nonfatal n = pure tt
  catch_worker done n = throw (exception done n)

  unfoldable pub rpc_dispatch_worker : ℕ → Cmd G (Unit {0})
  unfolding dispatch catch_worker
  rpc_dispatch_worker d =
      try_catch (do cmd ← read_uint8; dispatch d cmd; transport_flush)
        (λ e. modify (λ t. record t { must_die = true }) >> catch_worker e.type e.errnum)
