-- ===== src/Machine.antt =====
-- What the C implementation fixes: byte order, the type lua_Number, and its conversions to and
-- from the integer types. A number is its object representation, the bytes that it has in memory.
use luarpc.Base.{ℕ, Bool, Bytes}

pub record Machine : Type 0 where
  pub little : Bool
  pub char_signed : Bool
  pub sizeof_number : ℕ
  pub number_integral : Bool
  -- the representation of `(intN_t)x` for N = 8 * n, and of `(lua_Number)y`
  pub to_int : ℕ → Bytes → Bytes
  pub of_int : ℕ → Bytes → Bytes
