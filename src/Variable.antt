-- ===== src/Variable.antt =====
-- Lua values on the wire: `write_variable`, `read_variable` and what they call
-- (luarpc_protocol.c).
pub mod Name
pub mod Tree
pub mod Consumption
pub mod Total
pub mod Writes
pub mod Reads
pub mod Lists
pub mod RoundTrip
use luarpc.Base.{
  ℕ, zero, suc, ◌+◌, ◌-◌, ◌%◌, ◌^◌, ◌≡◌, Bytes, Bool, true, false, not, ◌&&◌, Option, none, some,
  List, [], ◌∷◌, length, get_elem?, if◌then◌else◌, ltb, leb, ◌==◌, codes,
}
use luarpc.Errors.{exception, fatal}
use luarpc.Codes.{
  rpc_nil, rpc_number, rpc_boolean, rpc_string, rpc_table, rpc_table_end, rpc_function,
  rpc_function_end, rpc_remote,
}
use luarpc.Machine.{Machine}
use luarpc.Lua.{
  Helper, Value, nil, number, boolean, string, table, function, helper, client, userdata, thread,
  lightuserdata, Lua,
}
use luarpc.State.{
  State, Cmd, pure, crash, ok, throw, raise, fault, out_of_fuel, ◌>>=◌, ◌>>◌, push, call,
}
use luarpc.Wire.{
  read_string, write_string, read_uint8, write_uint8, read_uint32, write_uint32, read_number,
  write_number,
}
use luarpc.Helper.{helper_remote_index}
use Name.{read_index}

-- luaL_error( L, msg )
abbrev pub lua_error : {G A : Type 0} → Bytes → Cmd G A
lua_error msg s = raise (string msg) s

-- lua_pop( L, n ), within the stack.
abbrev pop_values : {A : Type 0} → ℕ → List A → List A
pop_values zero vs = vs
pop_values (suc n) [] = []
pop_values (suc n) (v ∷ vs) = pop_values n vs

abbrev pub pop : {G : Type 0} → ℕ → Cmd G (Unit {0})
pop n s = ok tt (record s { stack = pop_values n s.stack })

-- The value at the absolute index `i`, counted from 1 at the bottom of the stack.
abbrev pub at_index : ℕ → List Value → Option Value
at_index i vs = if ltb 0 i && leb i (length vs) then get_elem? vs (length vs - i) else none

module _ {G : Type 0} (lua : Lua G) (m : Machine) where
  -- The loop of `write_table` over the pairs that are left; `write` is `write_variable`.
  unfoldable pub write_pairs : (Value → Cmd G (Unit {0})) → List (Value × Value) → Cmd G (Unit {0})
  write_pairs write [] = pure tt
  write_pairs write ((k, v) ∷ r) = do push k; push v; write k; write v; pop 2; write_pairs write r

  -- The text of a string, with its length as a `uint32_t`.
  unfoldable pub write_text : Bytes → Cmd G (Unit {0})
  write_text b = do
    write_uint8 rpc_string
    write_uint32 m (length b % 2 ^ 32)
    write_string b (length b % 2 ^ 32)

  -- Tables are followed as deep as the fuel goes.
  unfoldable pub write_variable : ℕ → Value → Cmd G (Unit {0})
  unfolding write_pairs write_text
  write_variable zero v s = out_of_fuel
  write_variable (suc f) nil s = write_uint8 rpc_nil s
  write_variable (suc f) (number x) s = (write_uint8 rpc_number >> write_number m x) s
  write_variable (suc f) (boolean b) s =
      (write_uint8 rpc_boolean >> write_uint8 (if b then 1 else 0)) s
  write_variable (suc f) (string b) s = write_text b s
  write_variable (suc f) (table r) s =
      (do
        write_uint8 rpc_table
        write_pairs (write_variable f) (lua.entries s.lua r)
        write_uint8 rpc_table_end)
        s
  write_variable (suc f) (function r) s =
      (do
        write_uint8 rpc_function
        push (function r)
        push (string (lua.dump s.lua r))
        write_variable f (string (lua.dump s.lua r))
        pop 2
        write_uint8 rpc_function_end)
        s
  write_variable (suc f) (helper h) s = (write_uint8 rpc_remote >> helper_remote_index m h) s
  write_variable (suc f) (client h) s = lua_error (codes "userdata transmission unsupported") s
  write_variable (suc f) userdata s = lua_error (codes "userdata transmission unsupported") s
  write_variable (suc f) thread s = lua_error (codes "thread transmission unsupported") s
  write_variable (suc f) lightuserdata s =
      lua_error (codes "light userdata transmission unsupported") s

  -- `t[k] = v` for a table; for anything else Lua's own assertion fails.
  unfoldable pub store : Option Value → List Value → Cmd G (Unit {0})
  store (some (table r)) (v ∷ (k ∷ rest)) s =
      call (λ g. lua.rawset g r k v) (record s { stack = rest })
  store _ _ s = fault

  -- lua_rawset( L, i ): the value on top, the key below it.
  unfoldable pub raw_set : ℕ → Cmd G (Unit {0})
  unfolding store
  raw_set i s = store (at_index i s.stack) s.stack s

  -- A round of `read_table` behind its first read, which said whether a key was there; whether
  -- the second one finds a value is not looked at.
  unfoldable pub table_round : Cmd G Bool → ℕ → Cmd G (Unit {0}) → Bool → Cmd G (Unit {0})
  unfolding raw_set
  table_round read i rest true = do _ ← read; raw_set i; rest
  table_round read i rest false = pure tt

  -- The loop of `read_table`; `read` is `read_variable`, and each round costs a unit of fuel.
  unfoldable pub table_loop : Cmd G Bool → ℕ → ℕ → Cmd G (Unit {0})
  unfolding table_round
  table_loop read zero i s = out_of_fuel
  table_loop read (suc k) i s = (read >>= table_round read i (λ s'. table_loop read k i s')) s

  -- luaL_checklstring, luaL_loadbuffer, lua_insert and lua_pop: the string on top gives way to
  -- the chunk, or to the message of the compiler.
  unfoldable pub loaded : Option Bytes → List Value → Cmd G (Unit {0})
  loaded none rest s = raise (string (codes "string expected")) s
  loaded (some b) rest s =
      ok tt
        (record s { stack = (lua.loadbuffer s.lua b).0 ∷ rest; lua = (lua.loadbuffer s.lua b).1 })

  unfoldable pub load_from : List Value → Cmd G (Unit {0})
  unfolding loaded
  load_from [] s = raise (string (codes "string expected")) s
  load_from (v ∷ rest) s = loaded (lua.tolstring s.lua v) rest s

  unfoldable pub load_top : Cmd G (Unit {0})
  unfolding load_from
  load_top s = load_from s.stack s

  unfoldable pub function_round : Cmd G (Unit {0}) → Bool → Cmd G (Unit {0})
  unfolding load_top
  function_round rest true = load_top >> rest
  function_round rest false = pure tt

  unfoldable pub function_loop : Cmd G Bool → ℕ → Cmd G (Unit {0})
  unfolding function_round
  function_loop read zero s = out_of_fuel
  function_loop read (suc k) s = (read >>= function_round (λ s'. function_loop read k s')) s

  unfoldable new_table : Cmd G (Unit {0})
  new_table s =
      ok tt
        (record s { stack = table (lua.newtable s.lua).0 ∷ s.stack; lua = (lua.newtable s.lua).1 })

  -- What `read_variable` does behind the tag; `read` reads what is nested, with `f` fuel.
  unfoldable pub read_tagged : Cmd G Bool → ℕ → ℕ → Cmd G Bool
  unfolding table_loop function_loop new_table
  read_tagged read f tag =
      if tag == rpc_nil
      then push nil >> pure true
      else if tag == rpc_boolean
      then (do b ← read_uint8; push (boolean (not (b == 0))); pure true)
      else if tag == rpc_number
      then (do x ← read_number m; push (number x); pure true)
      else if tag == rpc_string
      then (do len ← read_uint32 m; b ← read_string len; push (string b); pure true)
      else if tag == rpc_table
      then (do new_table; (λ s. table_loop read f (length s.stack) s); pure true)
      else if tag == rpc_table_end
      then pure false
      else if tag == rpc_function
      then function_loop read f >> pure true
      else if tag == rpc_function_end
      then pure false
      else if tag == rpc_remote
      then read_index lua m >> pure true
      else throw (exception fatal tag)

  unfoldable pub read_variable : ℕ → Cmd G Bool
  unfolding read_tagged
  read_variable zero s = out_of_fuel
  read_variable (suc f) s = (do tag ← read_uint8; read_tagged (read_variable f) f tag) s

  -- With a unit of fuel for each byte to come and one more, which `Variable.Total` shows is enough.
  unfoldable pub read_value : Cmd G Bool
  read_value s = read_variable (suc (length s.input)) s

  -- The loops over arguments and results: so many values read, or these written, first to last.
  unfoldable pub read_values : ℕ → Cmd G (Unit {0})
  read_values zero = pure tt
  read_values (suc n) = do _ ← read_value; read_values n

  unfoldable pub write_values : ℕ → List Value → Cmd G (Unit {0})
  write_values d [] = pure tt
  write_values d (v ∷ vs) = do write_variable d v; write_values d vs
