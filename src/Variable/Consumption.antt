-- ===== src/Variable/Consumption.antt =====
-- What the readers of words, numbers and names leave of the input, on every branch.
use luarpc.Base.{
  ℕ, suc, ◌+◌, ◌^◌, ◌<◌, ◌≡◌, ◌≢◌, refl, Bool, true, false, Bytes, List, [], ◌∷◌, length,
  length-drop, arith, ltb, leb, leb→le, if◌then◌else◌, ◌==◌, ◌||◌, differ,
}
use luarpc.Errors.{Exception}
use luarpc.Machine.{Machine}
use luarpc.Lua.{Value, Lua, Outcome, returned, raised}
use luarpc.State.{
  State, Run, Cmd, ok, throw, raise, fault, out_of_fuel, pure, ◌>>=◌, and_then, read_buffer, push,
  crash, settle, is_open, verify_open, call,
}
use luarpc.Wire.{read_string, read_uint8, read_uint32, read_number}
use luarpc.Variable.Name.{tokens, get_fields, get_path, read_index}

module _ {G : Type 0} where
  -- The run did not end for want of fuel, and if it returned, fewer than `n` bytes are left.
  pub data Leaves {A : Type 0} (n : ℕ) : Run G A → Type 0 where
    returns : {a : A} {s : State G} → length s.input < n → Leaves n (ok a s)
    throws : {e : Exception} {s : State G} → Leaves n (throw e s)
    raises : {v : Value} {s : State G} → Leaves n (raise v s)
    faults : Leaves n fault

  Leaves-if :
      {A : Type 0} {n : ℕ} (b : Bool) {x y : Run G A}
      → (b ≡ true → Leaves n x)
      → Leaves n y
      → Leaves n (if b then x else y)
  Leaves-if true hx hy = hx refl
  Leaves-if false hx hy = hy

  pub Leaves-bind :
      {A B : Type 0} {r : Run G A} {k : A → Cmd G B} {n j : ℕ}
      → Leaves n r
      → ((a : A) (s : State G) → length s.input < n → Leaves j (k a s))
      → Leaves j (and_then r k)
  Leaves-bind (returns h) next = next _ _ h
  Leaves-bind throws next = throws
  Leaves-bind raises next = raises
  Leaves-bind faults next = faults

  pub Leaves-ne : {A : Type 0} {n : ℕ} {r : Run G A} → Leaves n r → r ≢ out_of_fuel
  Leaves-ne (returns h) = cc
  Leaves-ne throws = cc
  Leaves-ne raises = cc
  Leaves-ne faults = cc

  -- A command that adds nothing to the bytes to come, and one that takes away at least one.
  abbrev pub Keeps : {A : Type 0} → Cmd G A → Type 0
  Keeps p = (s : State G) (n : ℕ) → length s.input < n → Leaves n (p s)

  abbrev Consumes : {A : Type 0} → Cmd G A → Type 0
  Consumes p = (s : State G) (n : ℕ) → length s.input < suc n → Leaves n (p s)

  pub Keeps-bind :
      {A B : Type 0} {p : Cmd G A} {k : A → Cmd G B}
      → Keeps p
      → ((a : A) → Keeps (k a))
      → Keeps (p >>= k)
  Keeps-bind hp hk s n h = Leaves-bind (hp s n h) λ a s' h'. hk a s' n h'

  read_buffer-Leaves :
      (k : ℕ) (s : State G) (n : ℕ) → length s.input < k + n → Leaves n (read_buffer k s)
  unfolding read_buffer
  read_buffer-Leaves k s n h =
      Leaves-if (is_open s.tpt)
        (λ o.
          Leaves-if (leb k (length s.input))
            (λ e. returns (omega (arith, length-drop k s.input, leb→le k (length s.input) e)))
            throws)
        throws

  read_buffer-Keeps : (k : ℕ) → Keeps (read_buffer k)
  read_buffer-Keeps k s n h = read_buffer-Leaves k s n (omega arith)

  verify_open-Keeps : Keeps verify_open
  verify_open-Keeps s n h = Leaves-if (is_open s.tpt) (λ o. returns h) throws

  pub pure-Keeps : {A : Type 0} (a : A) → Keeps (pure a)
  pure-Keeps a s n h = returns h

  crash-Keeps : {A : Type 0} → Keeps (crash {A = A})
  crash-Keeps s n h = faults

  if-Keeps :
      {A : Type 0} (b : Bool) {p q : Cmd G A} → Keeps p → Keeps q → Keeps (if b then p else q)
  if-Keeps true hp hq = hp
  if-Keeps false hp hq = hq

  pub read_uint8-Consumes : Consumes read_uint8
  unfolding read_uint8
  read_uint8-Consumes s n h =
      Leaves-bind (verify_open-Keeps s (suc n) h)
        λ _ s' h'. Leaves-bind (read_buffer-Leaves 1 s' n (omega arith)) λ _ s'' h''. returns h''

  pub read_uint8-Keeps : Keeps read_uint8
  read_uint8-Keeps s n h = read_uint8-Consumes s n (omega arith)

  pub read_uint32-Keeps : (m : Machine) → Keeps (read_uint32 m)
  unfolding read_uint32
  read_uint32-Keeps m s n h =
      Leaves-bind (verify_open-Keeps s n h)
        λ _ s' h'. Leaves-bind (read_buffer-Keeps 4 s' n h') λ _ s'' h''. returns h''

  pub read_string-Keeps : (k : ℕ) → Keeps (read_string k)
  unfolding read_string
  read_string-Keeps k = if-Keeps (ltb k (2 ^ 31)) (read_buffer-Keeps k) crash-Keeps

  pub read_number-Keeps : (m : Machine) → Keeps (read_number m)
  unfolding read_number
  read_number-Keeps m s n h =
      let w = s.tpt.lnum_bytes in
      Leaves-bind (verify_open-Keeps s n h) λ _ s' h'.
        Leaves-bind (read_buffer-Keeps w s' n h') λ b s'' h''.
          if-Keeps (differ s.tpt.net_intnum s.tpt.loc_intnum)
            (if-Keeps ((w == 1) || ((w == 2) || ((w == 4) || (w == 8)))) (pure-Keeps _) crash-Keeps)
            (if-Keeps (leb m.sizeof_number w) (pure-Keeps _) crash-Keeps) s'' n h''

  settle-Keeps : {A : Type 0} (o : Outcome G A) → Keeps (settle o)
  settle-Keeps (returned a g) s n h = returns h
  settle-Keeps (raised v g) s n h = raises

  pub call-Keeps : {A : Type 0} (f : G → Outcome G A) → Keeps (call f)
  call-Keeps f s = settle-Keeps (f s.lua) s

  pub push-Keeps : (v : Value) → Keeps (push v)
  push-Keeps v s n h = returns h

  module _ (lua : Lua G) (m : Machine) where
    get_fields-Keeps : (ts : List Bytes) (v : Value) → Keeps (get_fields lua ts v)
    unfolding get_fields
    get_fields-Keeps [] v = pure-Keeps v
    get_fields-Keeps (t ∷ ts) v = Keeps-bind (call-Keeps _) (get_fields-Keeps ts)

    get_path-Keeps : (ts : List Bytes) → Keeps (get_path lua ts)
    unfolding get_path
    get_path-Keeps [] = crash-Keeps
    get_path-Keeps (t ∷ ts) =
        Keeps-bind (Keeps-bind (call-Keeps _) (get_fields-Keeps ts)) push-Keeps

    pub read_index-Keeps : Keeps (read_index lua m)
    unfolding read_index
    read_index-Keeps =
        Keeps-bind (read_uint32-Keeps m)
          λ len. Keeps-bind (read_string-Keeps len) λ name. get_path-Keeps (tokens name)
