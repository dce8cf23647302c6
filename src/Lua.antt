-- ===== src/Lua.antt =====
-- What the module sees of Lua: the values that the API tells apart, with tables and functions as
-- references into the interpreter's state, and the calls that read or change that state. The
-- state `G` and the calls are parameters; a call that can raise an error says so.
use luarpc.Base.{ℕ, Bool, Bytes, Option, List}

-- A helper object: `root` is one with no parent pointer. Parents are never reassigned, so the
-- chain of pointers is a term. `pref` is the reference in the registry, `none` once released.
pub data Helper : Type 0 where
  root : (handle nparents : ℕ) (pref : Option ℕ) (funcname : Bytes) → Helper
  child : Helper → (handle nparents : ℕ) (pref : Option ℕ) (funcname : Bytes) → Helper

pub data Value : Type 0 where
  nil : Value
  number : Bytes → Value
  boolean : Bool → Value
  string : Bytes → Value
  table : ℕ → Value
  function : ℕ → Value
  helper : Helper → Value
  client : ℕ → Value
  userdata thread lightuserdata : Value

-- The outcome of a call that may raise a Lua error.
pub data Outcome (G A : Type 0) : Type 0 where
  returned : A → G → Outcome G A
  raised : Value → G → Outcome G A

pub record Lua (G : Type 0) : Type 0 where
  -- the pairs of a table, in the order of `lua_next`
  pub entries : G → ℕ → List (Value × Value)
  pub newtable : G → ℕ × G
  pub rawset : G → ℕ → Value → Value → Outcome G (Unit {0})
  pub getglobal : G → Bytes → Outcome G Value
  pub getfield : G → Value → Bytes → Outcome G Value
  pub setglobal : G → Bytes → Value → Outcome G (Unit {0})
  pub settable : G → Value → Value → Value → Outcome G (Unit {0})
  -- `none` for a value that is no string and no number
  pub tolstring : G → Value → Option Bytes
  pub dump : G → ℕ → Bytes
  -- the compiled chunk, or the message if the text does not compile
  pub loadbuffer : G → Bytes → Value × G
  -- error code and results: code 0 with the results, or another with the one message
  pub pcall : G → Value → List Value → ℕ × List Value × G
  pub ref : G → Value → ℕ × G
  pub getref : G → ℕ → Value
  pub unref : G → Option ℕ → G
  -- LUA_ERRRUN
  pub errrun : ℕ
  pub strerror : ℕ → Bytes
