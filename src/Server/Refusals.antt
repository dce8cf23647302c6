-- ===== src/Server/Refusals.antt =====
-- What `read_cmd_call` (luarpc_protocol.c) answers when the function called fails.
use luarpc.Base.{
  ℕ, ◌%◌, ◌^◌, ◌<◌, ◌≡◌, ◌≢◌, Bytes, Bool, false, List, [], ◌∷◌, ◌++◌, length, ◌==◌, arith,
}
use luarpc.Codes.{rpc_cmd_call, rpc_ready}
use luarpc.Machine.{Machine}
use luarpc.Lua.{Value, Lua}
use mathlib.Core.Option
use luarpc.State.{State, ok, ◌>>◌}
use luarpc.Wire.{write_string, write_uint8, write_uint32}
use luarpc.Wire.Words.{wire}
use luarpc.Wire.Laws.{
  emit, feed, Works-emit, Linked, seq-emit, write_uint8-emit, write_uint32-emit, write_string-emit,
}
use luarpc.Variable.Lists.{enc_all, BuildsAll, pushed, get_elem?-pushed, take-pushed, drop-pushed}
use luarpc.Variable.Tree.{Tree, enc_text, PathTo}
use luarpc.Variable.Name.{tokens}
use luarpc.Server.{top, write_error, call_function, rpc_dispatch_worker}
use luarpc.Server.Calls.{reply_call-answer}

-- What is sent of an error: a one, its code and its message.
abbrev pub enc_error : (le : Bool) (code : ℕ) → Bytes → Bytes
enc_error le code msg = 1 ∷ (wire le 4 code ++ (wire le 4 (length msg) ++ msg))

module _ {G : Type 0} (lua : Lua G) (m : Machine) where
  write_error-emit :
      (code : ℕ) (msg : Bytes) (s : State G)
      → length msg < 2 ^ 31
      → Linked m s
      → write_error lua m code msg s ≡ ok tt (emit (enc_error s.tpt.net_little code msg) s)
  unfolding write_error
  write_error-emit code msg s h l =
      let le = s.tpt.net_little in
      let size : length msg % 2 ^ 32 ≡ length msg = omega arith in
      let n₁ = wire le 4 code in
      let n₂ = wire le 4 (length msg) in
      let s₁ = emit (1 ∷ []) s in
      let s₂ = emit n₁ s₁ in
      let s₃ = emit n₂ s₂ in
      let w₁ = Works-emit s (1 ∷ []) l.works in
      let w₂ = Works-emit s₁ n₁ w₁ in
      let w₃ = Works-emit s₂ n₂ w₂ in
      let send_text = write_string msg (length msg) in
      let send_size = write_uint32 m (length msg) >> send_text in
      rw size (
        seq-emit (write_uint8 1) (write_uint32 m code >> send_size) s (1 ∷ []) (n₁ ++ (n₂ ++ msg))
          (write_uint8-emit s 1 l.works)
          (seq-emit (write_uint32 m code) send_size s₁ n₁ (n₂ ++ msg)
            (write_uint32-emit m s₁ l.agree code w₁)
            (seq-emit (write_uint32 m (length msg)) send_text s₂ n₂ msg
              (write_uint32-emit m s₂ l.agree (length msg) w₂) (write_string-emit s₃ msg w₃ h))))

  call_function-failed :
      (d : ℕ) (vs : List Value) (f : Value) (base : List Value) (g g' : G) (code : ℕ)
      (results : List Value) (msg : Bytes) (s : State G)
      → lua.pcall g f vs ≡ (code, results, g')
      → code ≢ 0
      → Option.get_or (lua.tolstring g' (top results)) [] ≡ msg
      → length msg < 2 ^ 31
      → Linked m s
      → call_function lua m d
          (length base)
          (length vs)
          (pushed vs g (record s { stack = f ∷ base }))
        ≡ ok tt (
            emit
              (enc_error s.tpt.net_little code msg)
              (record s { stack = results ++ base; lua = g' }))
  unfolding call_function
  call_function-failed d vs f base g g' code results msg s e c t h l =
      let failed : (code == 0) ≡ false = ground arith in
      let s₁ : State G = record s { stack = results ++ base; lua = g' } in
      rw
        (get_elem?-pushed vs f base, take-pushed vs (f ∷ base), drop-pushed vs f base, e, failed, t)
        (write_error-emit code msg s₁ h (record {
          works = record { opened = l.works.opened; unbroken = l.works.unbroken };
          agree = l.agree;
        }))

  -- A call of a function that is found and fails: ready, a one, the error code and the message, the
  -- text of the value that the error left, or none where it has no text. The function was called
  -- once with the arguments that were sent, in order; the stack is emptied, and the transport is
  -- not marked for removal.
  pub reply_call-failed :
      (d : ℕ) (name : Bytes) (r : ℕ) (g₁ : G) (args : List Tree) (vs : List Value) (g₂ g₃ : G)
      (code : ℕ) (results : List Value) (msg : Bytes) (s : State G)
      → PathTo lua (tokens name) s.lua (Value.function r) g₁
      → BuildsAll lua m s.tpt args g₁ vs g₂
      → lua.pcall g₂ (Value.function r) vs ≡ (code, results, g₃)
      → code ≢ 0
      → Option.get_or (lua.tolstring g₃ (top results)) [] ≡ msg
      → length msg < 2 ^ 31
      → length name < 2 ^ 31
      → length args < 2 ^ 31
      → Linked m s
      → rpc_dispatch_worker lua m d (
          feed
            (rpc_cmd_call
              ∷ (enc_text s.tpt.net_little name
                  ++ (wire s.tpt.net_little 4 (length args) ++ enc_all s.tpt.net_little args)))
            s)
        ≡ ok tt (
            emit
              (rpc_ready ∷ enc_error s.tpt.net_little code msg)
              (record s { stack = []; lua = g₃ }))
  reply_call-failed d name r g₁ args vs g₂ g₃ code results msg s p b e c t h hn ha l =
      let s₁ : State G = record (emit (rpc_ready ∷ []) s) { lua = g₁ } in
      reply_call-answer lua m d name r g₁ args vs g₂ g₃ (enc_error s.tpt.net_little code msg)
        (results ++ s.stack) s p b
        (call_function-failed d vs (Value.function r) s.stack g₂ g₃ code results msg s₁ e c t h
          (record {
            works = record { opened = l.works.opened; unbroken = l.works.unbroken };
            agree = l.agree;
          }))
        hn ha l
