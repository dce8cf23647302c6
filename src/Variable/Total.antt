-- ===== src/Variable/Total.antt =====
-- `read_variable` (luarpc_protocol.c) on any input whatever.
use luarpc.Base.{
  ℕ, zero, suc, ◌<◌, ◌≢◌, Bool, true, false, Option, none, some, Bytes, List, [], ◌∷◌, length,
  arith, if◌then◌else◌, ◌==◌,
}
use luarpc.Errors.{Exception}
use luarpc.Machine.{Machine}
use luarpc.Lua.{Value, table, Lua}
use luarpc.State.{State, Cmd, throw, out_of_fuel}
use luarpc.Variable.{
  at_index, store, raw_set, table_round, table_loop, load_top, loaded, load_from, function_round,
  function_loop, read_tagged, read_variable, read_value,
}
use luarpc.Variable.Consumption.{
  Leaves, returns, throws, raises, faults, Leaves-bind, Leaves-ne, Keeps, Keeps-bind, pure-Keeps,
  read_uint8-Consumes, read_uint8-Keeps, read_uint32-Keeps, read_string-Keeps, read_number-Keeps,
  call-Keeps, push-Keeps, read_index-Keeps,
}

module _ {G : Type 0} (lua : Lua G) (m : Machine) where
  store-Keeps : (t : Option Value) (vs : List Value) → Keeps (store lua m t vs)
  unfolding store
  store-Keeps (some (table r)) (v ∷ (k ∷ rest)) s n h =
      call-Keeps (λ g. lua.rawset g r k v) (record s { stack = rest }) n h
  store-Keeps _ _ s n h = faults

  raw_set-Keeps : (i : ℕ) → Keeps (raw_set lua m i)
  unfolding raw_set
  raw_set-Keeps i s = store-Keeps (at_index i s.stack) s.stack s

  loaded-Keeps : (v : Option Bytes) (rest : List Value) → Keeps (loaded lua m v rest)
  unfolding loaded
  loaded-Keeps none rest s n h = raises
  loaded-Keeps (some b) rest s n h = returns h

  load_from-Keeps : (vs : List Value) → Keeps (load_from lua m vs)
  unfolding load_from
  load_from-Keeps [] s n h = raises
  load_from-Keeps (v ∷ rest) s n h = loaded-Keeps (lua.tolstring s.lua v) rest s n h

  load_top-Keeps : Keeps (load_top lua m)
  unfolding load_top
  load_top-Keeps s = load_from-Keeps s.stack s

  throw-Keeps : (e : Exception) → Keeps {G = G} {A = Bool} (throw e)
  throw-Keeps e s n h = throws

  -- A reader that consumes, wherever less than `f` bytes are to come.
  abbrev ConsumesBelow : ℕ → Cmd G Bool → Type 0
  ConsumesBelow f read =
      (s : State G) (n : ℕ) → length s.input < suc n → length s.input < f → Leaves n (read s)

  module _ (f : ℕ) (read : Cmd G Bool) (consumes : ConsumesBelow f read) where
    -- More units of fuel than bytes to come are enough rounds.
    abbrev EndsBelow : ℕ → Cmd G (Unit {0}) → Type 0
    EndsBelow k p =
        (s : State G) (n : ℕ)
        → length s.input < n
        → length s.input < k
        → length s.input < f
        → Leaves n (p s)

    table_round-Leaves :
        (k i : ℕ) (rest : Cmd G (Unit {0}))
        → EndsBelow k rest
        → (more : Bool) → EndsBelow k (table_round lua m read i rest more)
    unfolding table_round
    table_round-Leaves k i rest ih true s n h hk hf =
        Leaves-bind (consumes s (length s.input) (omega arith) hf) λ _ s₁ h₁.
          Leaves-bind (raw_set-Keeps i s₁ (length s.input) h₁)
            λ _ s₂ h₂. ih s₂ n (omega arith) (omega arith) (omega arith)
    table_round-Leaves k i rest ih false s n h hk hf = returns h

    table_loop-Leaves : (k i : ℕ) → EndsBelow k (table_loop lua m read k i)
    unfolding table_loop
    table_loop-Leaves zero i s n h hk hf = absurd (omega arith)
    table_loop-Leaves (suc k) i s n h hk hf =
        Leaves-bind (consumes s (length s.input) (omega arith) hf) λ more s₁ h₁.
          table_round-Leaves k i _ (table_loop-Leaves k i) more s₁ n (omega arith) (omega arith)
            (omega arith)

    function_round-Leaves :
        (k : ℕ) (rest : Cmd G (Unit {0}))
        → EndsBelow k rest
        → (more : Bool) → EndsBelow k (function_round lua m rest more)
    unfolding function_round
    function_round-Leaves k rest ih true s n h hk hf =
        Leaves-bind (load_top-Keeps s (suc (length s.input)) (omega arith))
          λ _ s₁ h₁. ih s₁ n (omega arith) (omega arith) (omega arith)
    function_round-Leaves k rest ih false s n h hk hf = returns h

    function_loop-Leaves : (k : ℕ) → EndsBelow k (function_loop lua m read k)
    unfolding function_loop
    function_loop-Leaves zero s n h hk hf = absurd (omega arith)
    function_loop-Leaves (suc k) s n h hk hf =
        Leaves-bind (consumes s (length s.input) (omega arith) hf) λ more s₁ h₁.
          function_round-Leaves k _ (function_loop-Leaves k) more s₁ n (omega arith) (omega arith)
            (omega arith)

    -- A command that adds nothing to the bytes to come, if less than `f` are.
    abbrev Below : Cmd G Bool → Type 0
    Below p = (s : State G) (n : ℕ) → length s.input < n → length s.input < f → Leaves n (p s)

    Below-if : (b : Bool) {p q : Cmd G Bool} → Below p → Below q → Below (if b then p else q)
    Below-if true hp hq = hp
    Below-if false hp hq = hq

    Keeps→Below : {p : Cmd G Bool} → Keeps p → Below p
    Keeps→Below hp s n h hf = hp s n h

    read_tagged-Below : (tag : ℕ) → Below (read_tagged lua m read f tag)
    unfolding read_tagged
    read_tagged-Below tag =
        Below-if (tag == 0) (λ s n h hf. returns h)
          (Below-if (tag == 2)
            (Keeps→Below
              (Keeps-bind read_uint8-Keeps λ b. Keeps-bind (push-Keeps _) λ _. pure-Keeps true))
            (Below-if (tag == 1)
              (Keeps→Below (
                Keeps-bind (read_number-Keeps m)
                  λ x. Keeps-bind (push-Keeps _) λ _. pure-Keeps true))
              (Below-if (tag == 3)
                (Keeps→Below (
                  Keeps-bind (read_uint32-Keeps m) λ len.
                    Keeps-bind (read_string-Keeps len)
                      λ b. Keeps-bind (push-Keeps _) λ _. pure-Keeps true))
                (Below-if (tag == 4)
                  (λ s n h hf.
                    Leaves-bind (table_loop-Leaves f _ _ n h hf hf) λ _ s₁ h₁. returns h₁)
                  (Below-if (tag == 5) (Keeps→Below (pure-Keeps false)) (
                    Below-if (tag == 6)
                      (λ s n h hf.
                        Leaves-bind (function_loop-Leaves f s n h hf hf) λ _ s₁ h₁. returns h₁)
                      (Below-if (tag == 7) (Keeps→Below (pure-Keeps false)) (
                        Below-if (tag == 8)
                          (Keeps→Below (Keeps-bind (read_index-Keeps lua m) λ _. pure-Keeps true))
                          (Keeps→Below (throw-Keeps _))))))))))

  read_variable-Below : (f : ℕ) → ConsumesBelow f (read_variable lua m f)
  unfolding read_variable
  read_variable-Below zero s n h hf = absurd (omega arith)
  read_variable-Below (suc f) s n h hf =
      Leaves-bind (read_uint8-Consumes s (length s.input) (omega arith)) λ tag s₁ h₁.
        read_tagged-Below f (read_variable lua m f) (read_variable-Below f) tag s₁ n (omega arith)
          (omega arith)

  -- Whatever bytes the peer sends, `read_variable` comes to an end: with a unit of fuel more than
  -- there are bytes to come the model never runs out, and a run that returns has consumed at
  -- least one byte.
  pub read_variable-Leaves :
      (s : State G)
      → Leaves (length s.input) (read_value lua m s) × (read_value lua m s ≢ out_of_fuel)
  unfolding read_value
  read_variable-Leaves s =
      let l =
        read_variable-Below (suc (length s.input)) s (length s.input) (omega arith) (omega arith) in
      (l, Leaves-ne l)
