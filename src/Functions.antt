-- ===== src/Functions.antt =====
-- Functions of the module on handles (luarpc.c): timeouts and closing. The arithmetic of `double`
-- and the metatables of values are parameters.
pub mod Ports
pub mod Connecting
pub mod Connected
pub mod Unresolved
pub mod Timeouts
use luarpc.Base.{
  ℕ, zero, suc, ◌+◌, ◌*◌, ℤ, pos, negsuc, Bytes, Bool, true, false, Option, none, some, List, [],
  ◌∷◌, length, ◌==◌, leb, if◌then◌else◌, codes,
}
use luarpc.Transport.{Timeval, Transport}
use luarpc.Lua.{Value, nil, number, string, helper, client, userdata, lightuserdata}
use luarpc.Socket.Lifecycle.{transport_close}
use luarpc.ErrorHandler.{arg_message}
use luarpc.Variable.{at_index}
use luarpc.Process.{
  Process, Network, Step, continues, raises, breaks, and_on, transport_at, set_tpt, after_io, Act,
}

-- Numbers of C's `double`, by their bytes; `to_int` is a cast to `int`, `none` where it is undefined.
-- `time_max` is the largest `time_t`.
pub record Numbers : Type 0 where
  pub div : Bytes → Bytes → Bytes
  pub mul : Bytes → Bytes → Bytes
  pub add : Bytes → Bytes → Bytes
  pub sub : Bytes → Bytes → Bytes
  pub less : Bytes → Bytes → Bool
  pub equal : Bytes → Bytes → Bool
  pub of_int : ℤ → Bytes
  pub to_int : Bytes → Option ℤ
  pub time_max : ℕ

-- What the functions ask of Lua: `tonumber` is lua_isnumber and lua_tonumber, `number_error` the
-- error that luaL_optnumber raises; the metatable of a value, the entries of the registry, and
-- lua_rawequal.
pub record Values : Type 0 where
  pub tonumber : Value → Option Bytes
  pub number_error : Value → Value
  pub metatable : Value → Option Value
  pub registered : Bytes → Value
  pub rawequal : Value → Value → Bool

-- A product of a `time_t`; where it overflows it is undefined.
abbrev scale : (time_max : ℕ) → ℤ → ℕ → Option ℤ
scale time_max (pos n) k = if leb (n * suc k) time_max then some (pos (n * suc k)) else none
scale time_max (negsuc n) k =
    if leb (n * suc k + k) time_max then some (negsuc (n * suc k + k)) else none

-- lua_isuserdata, and what lua_touserdata gives as a client.
abbrev is_userdata : Value → Bool
is_userdata (helper h) = true
is_userdata (client a) = true
is_userdata userdata = true
is_userdata lightuserdata = true
is_userdata _ = false

module _ (nums : Numbers) where
  abbrev pub thousand : Bytes
  thousand = nums.of_int (pos 1000)

  abbrev pub minus_one : Bytes
  minus_one = nums.of_int (negsuc 0)

  -- The second cast.
  unfoldable pub with_usec : ℤ → Option ℤ → Option Timeval
  with_usec sec none = none
  with_usec sec (some usec) = some (record { sec = sec; usec = usec })

  unfoldable pub with_rest : Bytes → ℤ → Option ℤ → Option Timeval
  unfolding with_usec
  with_rest ms sec none = none
  with_rest ms sec (some whole) =
      with_usec sec (nums.to_int (nums.mul (nums.sub ms (nums.of_int whole)) thousand))

  unfoldable pub with_sec : Bytes → Option ℤ → Option Timeval
  unfolding with_rest
  with_sec ms none = none
  with_sec ms (some sec) = with_rest ms sec (scale nums.time_max sec 999)

  unfoldable pub timeval_from_ms : Bytes → Option Timeval
  unfolding with_sec
  timeval_from_ms ms = with_sec ms (nums.to_int (nums.div ms thousand))

  unfoldable pub ms_from_timeval : Timeval → Bytes
  ms_from_timeval t =
      nums.add (nums.mul (nums.of_int t.sec) thousand) (nums.div (nums.of_int t.usec) thousand)

abbrev pub set_wait : Timeval → Transport → Transport
set_wait t u = record u { wait_timeout = t }

abbrev pub set_com : Timeval → Transport → Transport
set_com t u = record u { com_timeout = t }

-- What stands behind the test of the metatable, which leaves both metatables on the stack where
-- they differ.
unfoldable pub compared : Values → Bytes → List Value → Option Value → Bool × List Value
compared values tname stack none = (false, stack)
compared values tname stack (some mt) =
    if values.rawequal (values.registered tname) mt
    then (true, stack)
    else (false, values.registered tname ∷ mt ∷ stack)

unfoldable pub ismetatable_type : Values → Value → Bytes → List Value → Bool × List Value
unfolding compared
ismetatable_type values ud tname stack = compared values tname stack (values.metatable ud)

abbrev pub rpc_client_name : Bytes
rpc_client_name = codes "rpc.client"

abbrev pub rpc_server_handle_name : Bytes
rpc_server_handle_name = codes "rpc.server_handle"

module _ {G W : Type 0} (nums : Numbers) (values : Values) where
  abbrev pub argument : ℕ → Process G W → Value
  argument i p = elim (at_index i p.stack) [ none ↦ nil | some v ↦ v ]

  -- luaL_error( L, msg )
  abbrev pub fail_with : {A : Type 0} → Bytes → Act G W A
  fail_with msg p = raises (string msg) p

  abbrev pub push_value : Value → Process G W → Process G W
  push_value v p = record p { stack = v ∷ p.stack }

  abbrev or_default : Bytes → Value → Option Bytes → Act G W Bytes
  or_default def v none p = raises (values.number_error v) p
  or_default def v (some x) p = continues x p

  -- luaL_optnumber( L, i, def )
  unfoldable pub opt_number : ℕ → Bytes → Act G W Bytes
  opt_number i def p = elim (argument i p) [
    | nil ↦ continues def p
    | v ↦ or_default def v (values.tonumber v) p
  ]

  -- A cast out of range is undefined.
  unfoldable pub with_timeval : {A : Type 0} → Option Timeval → (Timeval → Act G W A) → Act G W A
  with_timeval none f p = breaks
  with_timeval (some t) f p = f t p

  -- The transport under a value that has the metatable of clients.
  unfoldable pub on_client : {A : Type 0} → Value → (ℕ → Act G W A) → Act G W A
  on_client (client a) f p = f a p
  on_client _ f p = breaks

  -- A timeout of a transport is set, or given where none is passed.
  unfoldable pub exchange_timeout :
      (Transport → Timeval) → (Timeval → Transport → Transport) → ℕ → Act G W ℕ
  unfolding opt_number with_timeval timeval_from_ms ms_from_timeval
  exchange_timeout get put a p = and_on (opt_number 2 (minus_one nums) p) λ timeout_ms p.
      if nums.equal timeout_ms (minus_one nums)
      then continues 1 (push_value (number (ms_from_timeval nums (get (transport_at p a)))) p)
      else with_timeval (timeval_from_ms nums timeout_ms)
          (λ t p. continues 0 (set_tpt a (put t (transport_at p a)) p)) p

  unfoldable pub check_type : Value → Bytes → Act G W Bool
  unfolding ismetatable_type
  check_type v tname p =
      let (same, stack) = ismetatable_type values v tname p.stack in
      continues same (record p { stack = stack })

  unfoldable pub on_type : {A : Type 0} → Value → Bytes → Act G W A → Act G W A → Act G W A
  unfolding check_type
  on_type v tname f other p = and_on (check_type v tname p) λ same p. if same then f p else other p

  abbrev exchange_wait : Value → Act G W ℕ
  exchange_wait v = on_client v (exchange_timeout (λ u. u.wait_timeout) set_wait)

  abbrev pub exchange_com : Value → Act G W ℕ
  exchange_com v = on_client v (exchange_timeout (λ u. u.com_timeout) set_com)

  unfoldable pub rpc_wait_timeout : Act G W ℕ
  unfolding exchange_timeout on_client on_type
  rpc_wait_timeout p =
      let v = argument 1 p in
      let refuse = fail_with (codes "arg must be rpc.client") in
      if is_userdata v then on_type v rpc_client_name (exchange_wait v) refuse p else refuse p

  unfoldable pub rpc_com_timeout : Act G W ℕ
  unfolding exchange_timeout on_client on_type
  rpc_com_timeout p =
      let v = argument 1 p in
      let refuse = fail_with (codes "arg must be handle") in
      if is_userdata v
      then on_type v rpc_client_name (exchange_com v)
          (on_type v rpc_server_handle_name (exchange_com v) refuse) p
      else refuse p

  unfoldable close_transport : Network W → ℕ → Act G W ℕ
  close_transport net a p =
      and_on (after_io a p (transport_close net.sys (transport_at p a) p.world)) λ _. continues 0

  unfoldable pub rpc_close : Network W → Act G W ℕ
  unfolding close_transport on_client on_type
  rpc_close net p =
      let v = argument 1 p in
      let close = on_client v (close_transport net) in
      let refuse = fail_with (codes "arg must be handle") in
      if length p.stack == 1
      then (if is_userdata v
          then on_type v rpc_client_name close (on_type v rpc_server_handle_name close refuse) p
          else refuse p)
      else fail_with (arg_message 1) p
