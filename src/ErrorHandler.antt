-- ===== src/ErrorHandler.antt =====
-- Error handling on the Lua side: `check_num_args`, `deal_with_error` (luarpc_protocol.c) and
-- `rpc_on_error` (luarpc.c, and once more in luarpc_protocol.c).
use luarpc.Base.{
  ℕ, zero, suc, ◌+◌, ◌/◌, ◌%◌, ltb, Bytes, Bool, true, false, Option, none, some, List, [], ◌∷◌,
  ◌++◌, length, if◌then◌else◌, ◌==◌, codes,
}
use mathlib.Core.Option
use luarpc.Lua.{Value, string, function, nil, Lua}
use luarpc.State.{Cmd, ok, raise, fault, ◌>>=◌, ◌>>◌}

-- luaL_error( L, msg )
abbrev pub lua_error : {G A : Type 0} → Bytes → Cmd G A
lua_error msg s = raise (string msg) s

-- LUA_ISCALLABLE, in a build without read-only tables.
abbrev pub is_callable : Value → Bool
is_callable (function r) = true
is_callable _ = false

abbrev is_nil : Value → Bool
is_nil nil = true
is_nil _ = false

-- The format `%d`, with a unit of fuel more than the number is enough.
unfoldable digits : (fuel n : ℕ) → Bytes
digits zero n = []
digits (suc k) n =
    let front = digits k (n / 10) in
    if ltb n 10 then (b'0' + n) ∷ [] else front ++ (b'0' + n % 10) ∷ []

unfoldable pub decimal : ℕ → Bytes
unfolding digits
decimal n = digits (suc n) n

-- The message of `check_num_args`; luaL_error adds nothing for the format `%c` of '\0'.
unfoldable pub arg_message : ℕ → Bytes
unfolding decimal
arg_message n =
    codes "must have " ++ (decimal n ++ (codes " arg" ++ (if n == 1 then [] else codes "s")))

-- What luaL_error makes of a text that it is given for a format: two percent signs stand for
-- one, and anything else behind one wants an argument that is not there (`none`).
unfoldable pub formatted : Bytes → Option Bytes
formatted [] = some []
formatted (c ∷ []) = if c == b'%' then none else some (c ∷ [])
formatted (c ∷ (e ∷ r)) = elim (c == b'%') [
  | true ↦ elim (e == b'%') [ true ↦ Option.map (λ t. c ∷ t) (formatted r) | false ↦ none ]
  | false ↦ Option.map (λ t. c ∷ t) (formatted (e ∷ r))
]

module _ {G : Type 0} (lua : Lua G) where
  unfoldable pub check_num_args : ℕ → Cmd G ℕ
  unfolding arg_message
  check_num_args n s =
      if length s.stack == n then ok (length s.stack) s else lua_error (arg_message n) s

  -- lua_pcall( L, 1, 0, 0 ) leaves the message on the stack if the handler fails.
  unfoldable pub after_handler : ℕ × List Value × G → Cmd G (Unit {0})
  after_handler (code, results, g) s =
      ok tt (record s { stack = if code == 0 then s.stack else results ++ s.stack; lua = g })

  -- With no handler the text is the format of luaL_error.
  unfoldable pub deal_with_error : Bytes → Cmd G (Unit {0})
  unfolding after_handler formatted
  deal_with_error msg s = elim s.handler [
    | none ↦ elim (formatted msg) [ none ↦ fault | some text ↦ lua_error text s ]
    | some r ↦ after_handler (lua.pcall s.lua (lua.getref s.lua r) (string msg ∷ [])) s
  ]

  -- The handler is released, and one is taken over if the argument can be called.
  unfoldable release_handler : Cmd G (Unit {0})
  release_handler s = elim s.handler [
    | none ↦ ok tt s
    | some r ↦ ok tt (record s { handler = none; lua = lua.unref s.lua (some r) })
  ]

  unfoldable take_handler : List Value → Cmd G ℕ
  take_handler [] s = lua_error (codes "bad args") s
  take_handler (v ∷ rest) s =
      if is_callable v
      then ok 0
          (record s { stack = rest; handler = some (lua.ref s.lua v).0; lua = (lua.ref s.lua v).1 })
      else if is_nil v
      then ok 0 s
      else lua_error (codes "bad args") s

  unfoldable pub rpc_on_error : Cmd G ℕ
  unfolding check_num_args release_handler take_handler
  rpc_on_error = do _ ← check_num_args 1; release_handler; (λ s. take_handler s.stack s)
