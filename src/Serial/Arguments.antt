-- ===== src/Serial/Arguments.antt =====
-- The arguments of the functions that open the serial transport (luarpc_serial.c,
-- `transport_open_listener` and `transport_open_connection`), in a process.
use luarpc.Base.{
  ℕ, ◌≡◌, refl, Bytes, Bool, true, false, Option, none, some, length, ◌==◌, codes, if◌then◌else◌,
}
use luarpc.Lua.{Lua, Value, nil, string}
use luarpc.State.{ok, raise}
use luarpc.ErrorHandler.{check_num_args}
use luarpc.Variable.{at_index}
use luarpc.Variable.Name.{c_string}
use luarpc.Process.{
  Process, Step, continues, raises, and_on, transport_at, view, put_back, after_run, after_io, Act,
}
use luarpc.Serial
use luarpc.Serial.{Port}

module _ {G W : Type 0} (lua : Lua G) (port : Port W) where
  abbrev first_argument : Process G W → Value
  first_argument p = elim (at_index 1 p.stack) [ none ↦ nil | some v ↦ v ]

  abbrev no_path : Bytes
  no_path = codes "first argument must be serial serial port"

  -- lua_isstring and lua_tostring.
  abbrev path_of : Option Bytes → Act G W Bytes
  path_of none p = raises (string no_path) p
  path_of (some path) p = continues (c_string path) p

  -- The path, behind the count of the arguments, of which the handle is the second.
  unfoldable port_path : (t : ℕ) → Act G W Bytes
  unfolding check_num_args
  port_path t p =
      and_on (after_run t p (check_num_args lua 2 (view t p)))
        λ _ p. path_of (lua.tolstring p.lua (first_argument p)) p

  unfoldable open_listener : (fuel t : ℕ) → Act G W (Unit {0})
  unfolding port_path
  open_listener k t p =
      and_on (port_path t p) λ path p.
        after_io t p (Serial.transport_open_listener port k path (transport_at p t) p.world)

  unfoldable open_connection : (t : ℕ) → Act G W ℕ
  unfolding port_path
  open_connection t p = and_on (port_path t p) λ path p.
      and_on (after_io t p (Serial.transport_open_connection port path (transport_at p t) p.world))
        λ _. continues 1

  -- The path was found, or a Lua error is raised; the system is as it was.
  data Asked (p : Process G W) : Step (Process G W) Bytes → Type 0 where
    given : {path : Bytes} {q : Process G W} → q.world ≡ p.world → Asked p (continues path q)
    refused : {v : Value} {q : Process G W} → q.world ≡ p.world → Asked p (raises v q)

  path_of-Asked : (p q : Process G W) (o : Option Bytes) → q.world ≡ p.world → Asked p (path_of o q)
  path_of-Asked p q none e = refused e
  path_of-Asked p q (some path) e = given e

  counted-Asked :
      (b : Bool) (t n : ℕ) (v : Value) (p : Process G W)
      → Asked p (
          and_on
            (after_run t p (if b then ok n (view t p) else raise v (view t p)))
            λ _ p. path_of (lua.tolstring p.lua (first_argument p)) p)
  unfolding view put_back
  counted-Asked true t n v p = path_of-Asked p _ (lua.tolstring p.lua (first_argument p)) refl
  counted-Asked false t n v p = refused refl

  -- No system call is made before the arguments are known to be right.
  port_path-Asked : (t : ℕ) (p : Process G W) → Asked p (port_path t p)
  unfolding port_path check_num_args view
  port_path-Asked t p = counted-Asked (length p.stack == 2) t (length p.stack) _ p
