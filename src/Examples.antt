-- ===== src/Examples.antt =====
-- Every theorem about the code at a concrete input: two ends with an interpreter whose state is a
-- list of tables and a list of globals.
use luarpc.Base.{
  ◌+◌, zero, suc, ℕ, Bytes, Bool, true, false, Option, none, some, List, [], ◌∷◌, ◌++◌, length,
  get_or, set, codes, same_bytes, if◌then◌else◌,
}
use luarpc.Machine.{Machine}
use luarpc.Transport.{Transport, transport_create}
use luarpc.Lua.{Helper, root, child, Value, Lua, Outcome, returned, raised}
use luarpc.State.{State}
use luarpc.Socket.{Stdio}
use luarpc.Socket.Lifecycle.{System}

pub record World : Type 0 where
  pub tables : List (List (Value × Value))
  pub globals : List (Bytes × Value)

abbrev lookup : Bytes → List (Bytes × Value) → Value
lookup n [] = Value.nil
lookup n ((k, v) ∷ r) = if same_bytes n k then v else lookup n r

abbrev same_key : Bytes → Value → Bool
same_key n (Value.string k) = same_bytes n k
same_key n _ = false

abbrev field : Bytes → List (Value × Value) → Value
field n [] = Value.nil
field n ((k, v) ∷ r) = if same_key n k then v else field n r

abbrev get_field : World → Value → Bytes → Outcome World Value
get_field g (Value.table r) n = returned (field n (get_or g.tables r [])) g
get_field g _ n = raised Value.nil g

abbrev raw : World → ℕ → Value → Value → Outcome World (Unit {0})
raw g r Value.nil v = raised Value.nil g
raw g r k v =
    returned tt (record g { tables = set g.tables r (get_or g.tables r [] ++ (k, v) ∷ []) })

abbrev set_field : World → Value → Value → Value → Outcome World (Unit {0})
set_field g (Value.table r) k v = raw g r k v
set_field g t k v = raised Value.nil g

abbrev text : Value → Option Bytes
text (Value.string b) = some b
text _ = none

-- Every function returns its arguments.
abbrev pub interpreter : Lua World
interpreter = record {
  entries = λ g r. get_or g.tables r [];
  newtable = λ g. (length g.tables, record g { tables = g.tables ++ [] ∷ [] });
  rawset = raw;
  getglobal = λ g n. returned (lookup n g.globals) g;
  getfield = get_field;
  setglobal = λ g n v. returned tt (record g { globals = (n, v) ∷ g.globals });
  settable = set_field;
  tolstring = λ g v. text v;
  dump = λ g r. [];
  loadbuffer = λ g b. (Value.nil, g);
  pcall = λ g f vs. (0, vs, g);
  ref = λ g v. (0, g);
  getref = λ g r. Value.nil;
  unref = λ g r. g;
  errrun = 2;
  strerror = λ n. [];
}

abbrev pub machine : Machine
machine = record {
  little = true;
  char_signed = true;
  sizeof_number = 8;
  number_integral = false;
  to_int = λ n b. b;
  of_int = λ n b. b;
}

abbrev pub big_machine : Machine
big_machine = record machine { little = false; sizeof_number = 4; number_integral = true }

-- Open, after a handshake between two such machines.
abbrev pub link : Transport
link = record transport_create {
  fd = some 3;
  loc_little = true;
  net_little = true;
  lnum_bytes = 8;
  file = true;
}

abbrev pub at_start : World → State World
at_start g = record {
  tpt = link;
  self = 0;
  input = [];
  errno = 0;
  output = [];
  broken = none;
  peer_open = λ n. false;
  stray = [];
  stack = [];
  lua = g;
  handler = none;
}

-- A table with the one field `a`; a world with that table, and one where `t.f` is a function and
-- `t.g` that table.
abbrev pub pairs_a : List (Value × Value)
pairs_a = (Value.string (codes "a"), Value.boolean true) ∷ []

abbrev pub pairs_t : List (Value × Value)
pairs_t =
    (Value.string (codes "f"), Value.function 7) ∷ (Value.string (codes "g"), Value.table 1) ∷ []

abbrev pub one_table : World
one_table = record { tables = pairs_a ∷ []; globals = [] }

abbrev pub library : World
library = record {
  tables = pairs_t ∷ pairs_a ∷ [];
  globals = (codes "x", Value.table 1) ∷ (codes "t", Value.table 0) ∷ [];
}

-- The same with the table once more.
abbrev pub two_tables : World
two_tables = record one_table { tables = pairs_a ∷ pairs_a ∷ [] }

abbrev pub grown : World
grown = record library { tables = pairs_t ∷ pairs_a ∷ pairs_a ∷ [] }

-- The helpers of `handle.t`, `handle.t.f` and `handle.t.g`.
abbrev pub helper_t : Helper
helper_t = root 0 0 none (codes "t")

abbrev pub helper_t_f : Helper
helper_t_f = child helper_t 0 1 none (codes "f")

abbrev pub helper_t_g : Helper
helper_t_g = child helper_t 0 1 none (codes "g")

-- A connection that moves one byte at a time.
pub record Link : Type 0 where
  pub coming : Bytes
  pub gone : Bytes

abbrev pub read_one : Bytes → ℕ → Bytes × Bytes
read_one [] n = ([], [])
read_one (b ∷ r) zero = ([], b ∷ r)
read_one (b ∷ r) (suc n) = (b ∷ [], r)

abbrev pub write_one : Bytes → Bytes → ℕ × Bytes
write_one [] gone = (0, gone)
write_one (b ∷ r) gone = (1, gone ++ b ∷ [])

abbrev pub at_end : Bytes → Bool
at_end [] = true
at_end (b ∷ r) = false

abbrev pub stdio : Stdio Link
stdio = record {
  fread = λ w n. ((read_one w.coming n).0, record w { coming = (read_one w.coming n).1 });
  fwrite = λ w bs. ((write_one bs w.gone).0, record w { gone = (write_one bs w.gone).1 });
  feof = λ w. at_end w.coming;
  errno = λ w. 11;
  select_read = λ w tv. (at_end w.coming, tv, w);
  select_write = λ w tv. (false, tv, w);
  eagain = 11;
}

-- A system in which a connection is first in progress, and then made.
abbrev pub system : System Link
system = record {
  socket = λ w. (some 3, w);
  set_nodelay = λ w n. w;
  fdopen = λ w n. (true, w);
  fclose = λ w. w;
  get_flags = λ w n. (2, w);
  set_flags = λ w n f. (true, w);
  or_nonblock = λ f. f + 2048;
  connect = λ w n a p. (false, w);
  select_write = λ w tv. (true, tv, w);
  getpeername = λ w n. (true, w);
  bind = λ w n a p. (true, w);
  listen = λ w n c. (true, w);
  accept = λ w n. (some 4, w);
  readable = λ w n. (true, w);
  errno = λ w. 115;
  einprogress = 115;
}
