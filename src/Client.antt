-- ===== src/Client.antt =====
-- The client's side (luarpc_protocol.c): indexing a handle and a helper, calls, reads and
-- assignments. An operation runs in the state of its helper's own transport, its arguments on
-- the stack; it returns how many results it left on top. `d` is how deep the C stack lets
-- `write_variable` follow tables.
pub mod Requests
pub mod Assignments
use luarpc.Base.{
  ℕ, zero, suc, ◌+◌, ◌-◌, ◌%◌, ◌^◌, Bytes, Bool, true, false, Option, none, some, List, [], ◌∷◌,
  ◌++◌, length, get_elem?, reverse, same_bytes, if◌then◌else◌, ltb, ◌==◌, codes,
}
use luarpc.Errors.{
  Exception, ExceptionType, exception, nonfatal, fatal, done, err_protocol, err_longfname,
  error_string,
}
use luarpc.Codes.{rpc_cmd_call, rpc_cmd_get, rpc_cmd_newindex, rpc_ready}
use luarpc.Machine.{Machine}
use luarpc.Transport.{Transport}
use luarpc.Lua.{Helper, root, child, Value, nil, string, helper, client, Lua}
use luarpc.State.{State, Cmd, ok, throw, fault, pure, crash, push, modify, try_catch, ◌>>=◌, ◌>>◌}
use luarpc.Wire.{read_string, read_uint8, write_uint8, read_uint32, write_uint32}
use luarpc.Negotiate.{transport_flush}
use luarpc.ErrorHandler.{lua_error, check_num_args, deal_with_error}
use luarpc.Helper.{handle, nparents, funcname, parent, helper_remote_index}
use luarpc.Variable.{at_index, write_variable, read_value, read_values, write_values}
use luarpc.Variable.Name.{c_string}

-- NUM_FUNCNAME_CHARS
abbrev pub num_funcname_chars : ℕ
num_funcname_chars = 20

abbrev name_get : Bytes
name_get = codes "get"

-- A helper's reference, and the helper with LUA_REFNIL.
abbrev without_ref : Helper → Option ℕ × Helper
without_ref (root t n p f) = (p, root t n none f)
without_ref (child q t n p f) = (p, child q t n none f)

module _ {G : Type 0} (lua : Lua G) where
  -- The value at index 1, which a helper keeps alive.
  abbrev parent_value : State G → Value
  parent_value s = elim (at_index 1 s.stack) [ none ↦ nil | some v ↦ v ]

  -- A name of at most 19 characters, so that `strncpy` copies its NUL.
  unfoldable pub helper_create : ℕ → Bytes → Cmd G (Unit {0})
  helper_create transport name s =
      let (r, g) = lua.ref s.lua (parent_value s) in
      push (helper (root transport 0 (some r) name)) (record s { lua = g })

  unfoldable pub helper_append : Helper → Bytes → Cmd G (Unit {0})
  helper_append h name s =
      let (r, g) = lua.ref s.lua (parent_value s) in
      push (helper (child h (handle h) ((nparents h + 1) % 256) (some r) name))
        (record s { lua = g })

  -- The key of an index: a string, cut at a NUL, of at most 19 characters. `msg` is the error for
  -- any other key.
  unfoldable check_key : Bytes → Value → (Bytes → Cmd G ℕ) → Cmd G ℕ
  check_key msg (string k) use_key s =
      if ltb (num_funcname_chars - 1) (length (c_string k))
      then lua_error (error_string lua.strerror err_longfname) s
      else use_key (c_string k) s
  check_key msg _ use_key s = lua_error msg s

  -- handle[ key ]
  unfoldable index_of : List Value → Cmd G ℕ
  unfolding check_key helper_create
  index_of (k ∷ (client t ∷ [])) s =
      check_key (codes "can't index a handle with a non-string") k
        (λ name. helper_create t name >> pure 1) s
  index_of _ s = fault

  unfoldable pub client_index : Cmd G ℕ
  unfolding check_num_args index_of
  client_index = do _ ← check_num_args lua 2; (λ s. index_of s.stack s)

  -- helper[ key ]
  unfoldable append_to : List Value → Cmd G ℕ
  unfolding check_key helper_append
  append_to (k ∷ (helper h ∷ [])) s =
      check_key (codes "can't index handle with non-string") k
        (λ name. helper_append h name >> pure 1) s
  append_to _ s = fault

  unfoldable pub helper_index : Cmd G ℕ
  unfolding check_num_args append_to
  helper_index = do _ ← check_num_args lua 2; (λ s. append_to s.stack s)

  -- luaL_unref; the object, the first argument, is changed in place.
  unfoldable close_on : List Value → Cmd G ℕ
  close_on (helper h ∷ rest) s =
      let (p, h') = without_ref h in
      ok 0 (record s { stack = reverse (helper h' ∷ rest); lua = lua.unref s.lua p })
  close_on _ s = lua_error (codes "helper expected") s

  unfoldable pub helper_close : Cmd G ℕ
  unfolding close_on
  helper_close s = close_on (reverse s.stack) s

  -- `transport_delete` in the fatal case frees a userdata of Lua's.
  unfoldable after_error : ExceptionType → Cmd G ℕ
  after_error nonfatal = push nil >> pure 1
  after_error fatal = crash
  after_error done = pure 0

  unfoldable generic_catch_handler : Exception → Cmd G ℕ
  unfolding after_error
  generic_catch_handler e = do
    deal_with_error lua (error_string lua.strerror e.errnum)
    after_error e.type

  module _ (m : Machine) where
    unfoldable pub helper_wait_ready : ℕ → Cmd G (Unit {0})
    helper_wait_ready cmd = do
      write_uint8 cmd
      resp ← read_uint8
      if resp == rpc_ready then pure tt else throw (exception nonfatal err_protocol)

    -- The error code, which is not used, and the message, as far as its first NUL.
    unfoldable read_error : Cmd G (Unit {0})
    read_error = do
      _ ← read_uint32 m
      len ← read_uint32 m
      msg ← read_string len
      deal_with_error lua (c_string msg)

    unfoldable pub helper_get : Helper → Cmd G ℕ
    unfolding helper_wait_ready generic_catch_handler
    helper_get h =
        try_catch
          (do helper_wait_ready rpc_cmd_get; helper_remote_index m h; _ ← read_value lua m; pure 1)
          generic_catch_handler

    -- A count of 2 ^ 31 or more is a negative `int`: nothing is read, and Lua is told of fewer
    -- than no results.
    unfoldable pub take_results : Cmd G ℕ
    take_results = do
      nret ← read_uint32 m
      if ltb nret (2 ^ 31) then read_values lua m nret >> pure nret else crash

    unfoldable take_reply : ℕ → Cmd G ℕ
    unfolding read_error
    take_reply code = if code == 0 then take_results else (read_error >> pure 0)

    module _ (d : ℕ) where
      unfoldable pub send_call : Helper → List Value → Cmd G (Unit {0})
      unfolding helper_wait_ready
      send_call h args = do
        modify (λ t. record t { timeout = t.com_timeout })
        helper_wait_ready rpc_cmd_call
        helper_remote_index m h
        write_uint32 m (length args)
        write_values lua m d args
        transport_flush
        modify (λ t. record t { timeout = t.wait_timeout })

      unfoldable pub remote_call : Helper → List Value → Cmd G ℕ
      unfolding take_reply generic_catch_handler
      remote_call h args =
          try_catch
            (do
              send_call h args
              code ← read_uint8
              modify (λ t. record t { timeout = t.com_timeout })
              take_reply code)
            generic_catch_handler

      -- A name `get` asks for the value that the parent stands for; there may be no parent.
      unfoldable call_helper : List Value → Cmd G ℕ
      unfolding helper_get remote_call
      call_helper (helper h ∷ args) s =
          (if same_bytes (funcname h) name_get
              then elim (parent h) [ none ↦ crash | some q ↦ do _ ← helper_get q; pure 1 ]
              else remote_call h args)
            s
      call_helper _ s = lua_error (codes "rpc.helper expected") s

      unfoldable pub helper_call : Cmd G ℕ
      unfolding call_helper
      helper_call s = call_helper (reverse s.stack) s

      unfoldable check_reply : ℕ → Cmd G ℕ
      unfolding read_error
      check_reply code = if code == 0 then pure 0 else (read_error >> pure 0)

      unfoldable pub assign_remote : Helper → Value → Value → Cmd G ℕ
      unfolding helper_wait_ready check_reply generic_catch_handler
      assign_remote h k v =
          try_catch
            (do
              helper_wait_ready rpc_cmd_newindex
              helper_remote_index m h
              write_variable lua m d k
              write_variable lua m d v
              code ← read_uint8
              check_reply code)
            generic_catch_handler

      -- helper[ key ] = value
      unfoldable pub assign : List Value → Cmd G ℕ
      unfolding assign_remote
      assign (v ∷ (string k ∷ (helper h ∷ rest))) s = assign_remote h (string k) v s
      assign _ s = lua_error (codes "bad argument") s

      unfoldable pub helper_newindex : Cmd G ℕ
      unfolding assign
      helper_newindex s = assign s.stack s

      -- lua_replace( L, 1 ), and the assignment.
      unfoldable replace_handle : List Value → Cmd G ℕ
      unfolding helper_newindex
      replace_handle (h ∷ (v ∷ (k ∷ (c ∷ [])))) s =
          helper_newindex (record s { stack = v ∷ (k ∷ (h ∷ [])) })
      replace_handle _ s = fault

      -- handle[ key ] = value: a helper with an empty name takes the place of the handle.
      unfoldable new_global : List Value → Cmd G ℕ
      unfolding check_key helper_create replace_handle
      new_global (v ∷ (k ∷ (client t ∷ []))) s =
          check_key (codes "can't index handle with a non-string") k
            (λ name. do helper_create t []; (λ s'. replace_handle s'.stack s')) s
      new_global _ s = fault

      unfoldable pub client_newindex : Cmd G ℕ
      unfolding check_num_args new_global
      client_newindex = do _ ← check_num_args lua 3; (λ s. new_global s.stack s)
