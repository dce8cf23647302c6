-- ===== src/Variable/RoundTrip.antt =====
-- A value sent by one interpreter and received by another.
use luarpc.Base.{ℕ, ◌<◌, ◌≡◌, true, Bytes}
use luarpc.Machine.{Machine}
use luarpc.Lua.{Value, Lua}
use luarpc.State.{State, ok, is_open}
use luarpc.Wire.Laws.{emit, feed, Works}
use luarpc.Variable.{write_variable, read_value}
use luarpc.Variable.Tree.{Tree, enc, size, Holds, Builds}
use luarpc.Variable.Writes.{write_variable-enc}
use luarpc.Variable.Reads.{built, read_value-enc}
use mathlib.Core.Path.{sym, subst}

-- Two machines whose links agree on the byte order, each with its own Lua: if a value of the
-- sender holds a tree, and the tree can be built by the receiver, then there are bytes that the
-- sender writes for the value, and from exactly these the receiver makes the value that is built.
pub write_variable-read_value :
    {G H : Type 0} (here : Lua G) (there : Lua H) (m n : Machine) (t : Tree) (f : ℕ) (v : Value)
    (s : State G) (w : Value) (r : State H) (h : H)
    → Holds here m s.tpt s.self s.lua t v
    → Builds there n r.tpt t r.lua w h
    → size t < f
    → s.tpt.net_little ≡ r.tpt.net_little
    → m.little ≡ s.tpt.loc_little
    → n.little ≡ r.tpt.loc_little
    → Works s
    → is_open r.tpt ≡ true
    → (bs : Bytes) × (write_variable here m f v s ≡ ok tt (emit bs s))
      × (read_value there n (feed bs r) ≡ ok true (built w h r))
write_variable-read_value here there m n t f v s w r h holds builds lt e a b works o = (
  enc s.tpt.net_little t,
  write_variable-enc here m t f v s holds lt a works,
  subst (λ le. read_value there n (feed (enc le t) r) ≡ ok true (built w h r)) (sym e)
      (read_value-enc there n t r w h builds b o),
)
