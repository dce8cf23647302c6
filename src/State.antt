-- ===== src/State.antt =====
-- The state that an operation of the protocol works on, and commands over it. A transport is a
-- stream of bytes to come and of bytes handed over; `Socket` relates it to the system calls.
use luarpc.Base.{
  ℕ, Bool, true, false, Bytes, Option, none, some, List, [], ◌∷◌, ◌++◌, length, take, drop, leb,
  if◌then◌else◌,
}
use luarpc.Errors.{Exception, exception, nonfatal, fatal, err_closed}
use luarpc.Transport.{Transport}
use luarpc.Lua.{Value, Outcome, returned, raised}

-- What was written on another transport: a word, in its own byte order, or bytes.
pub data Sent : Type 0 where
  word : ℕ → Sent
  chars : Bytes → Sent

-- `input` is what the peer sends before the link fails with `errno`; `broken` is the error of
-- every later write, if the link takes no more. `stack` is the Lua stack, its top first.
-- `self` names this transport; `peer_open` and `stray` are the other transports of the process:
-- which are open, and what was written on them. `handler` is the registry reference of the
-- global error handler, `none` for LUA_NOREF.
pub record State (G : Type 0) : Type 0 where
  pub tpt : Transport
  pub self : ℕ
  pub input : Bytes
  pub errno : ℕ
  pub output : Bytes
  pub broken : Option ℕ
  pub peer_open : ℕ → Bool
  pub stray : List (ℕ × Sent)
  pub stack : List Value
  pub lua : G
  pub handler : Option ℕ

-- `throw` is an exception of the module, `raise` a Lua error, `fault` undefined behaviour of C.
pub data Run (G A : Type 0) : Type 0 where
  ok : A → State G → Run G A
  throw : Exception → State G → Run G A
  raise : Value → State G → Run G A
  fault : Run G A
  out_of_fuel : Run G A

abbrev pub Cmd : Type 0 → Type 0 → Type 0
Cmd G A = State G → Run G A

abbrev pub is_open : Transport → Bool
is_open t = elim t.fd [ none ↦ false | some _ ↦ true ]

module _ {G : Type 0} where
  abbrev pub pure : {A : Type 0} → A → Cmd G A
  pure a s = ok a s

  abbrev pub and_then : {A B : Type 0} → Run G A → (A → Cmd G B) → Run G B
  and_then (ok a s) k = k a s
  and_then (throw e s) k = throw e s
  and_then (raise v s) k = raise v s
  and_then fault k = fault
  and_then out_of_fuel k = out_of_fuel

  infixl 5 ◌>>=◌ ◌>>◌
  abbrev pub ◌>>=◌ : {A B : Type 0} → Cmd G A → (A → Cmd G B) → Cmd G B
  m >>= k = λ s. and_then (m s) k

  abbrev pub ◌>>◌ : {B : Type 0} → Cmd G (Unit {0}) → Cmd G B → Cmd G B
  m >> k = m >>= λ _. k

  abbrev recover : {A : Type 0} → Run G A → (Exception → Cmd G A) → Run G A
  recover (ok a s) k = ok a s
  recover (throw e s) k = k e s
  recover (raise v s) k = raise v s
  recover fault k = fault
  recover out_of_fuel k = out_of_fuel

  -- Try { m } Catch( e ) { k e }
  abbrev pub try_catch : {A : Type 0} → Cmd G A → (Exception → Cmd G A) → Cmd G A
  try_catch m k s = recover (m s) k

  abbrev pub crash : {A : Type 0} → Cmd G A
  crash s = fault

  abbrev pub modify : (Transport → Transport) → Cmd G (Unit {0})
  modify f s = ok tt (record s { tpt = f s.tpt })

  -- TRANSPORT_VERIFY_OPEN
  abbrev pub verify_open : Cmd G (Unit {0})
  verify_open s = if is_open s.tpt then ok tt s else throw (exception fatal err_closed) s

  -- The contract of `transport_read_buffer`: the next `n` bytes, or an exception once the link
  -- has failed, with what had arrived consumed.
  unfoldable pub read_buffer : ℕ → Cmd G Bytes
  read_buffer n s =
      if is_open s.tpt
      then if leb n (length s.input)
        then ok (take n s.input) (record s { input = drop n s.input })
        else throw (exception nonfatal s.errno) (record s { input = [] })
      else throw (exception fatal err_closed) s

  -- The contract of `transport_write_buffer`.
  unfoldable pub write_buffer : Bytes → Cmd G (Unit {0})
  write_buffer bs s =
      if is_open s.tpt
      then elim bs [
        | [] ↦ ok tt s
        | b ∷ r ↦ elim s.broken [
          | none ↦ ok tt (record s { output = s.output ++ b ∷ r })
          | some e ↦ throw (exception nonfatal e) s
        ]
      ]
      else throw (exception fatal err_closed) s

  -- The Lua stack.
  abbrev pub push : Value → Cmd G (Unit {0})
  push v s = ok tt (record s { stack = v ∷ s.stack })

  abbrev pub settle : {A : Type 0} → Outcome G A → Cmd G A
  settle (returned a g) s = ok a (record s { lua = g })
  settle (raised v g) s = raise v (record s { lua = g })

  -- A call of the Lua API that may raise an error.
  abbrev pub call : {A : Type 0} → (G → Outcome G A) → Cmd G A
  call f s = settle (f s.lua) s
