-- ===== src/Server/Undefined.antt =====
-- What `read_cmd_call` (luarpc_protocol.c) answers when there is no such function.
use luarpc.Base.{
  ℕ, suc, ◌+◌, ◌%◌, ◌^◌, ◌<◌, ◌≡◌, refl, sym, ap, ◌∙◌, Bytes, Bool, true, false, List, [], ◌∷◌,
  ◌++◌, length, ◌==◌, Bool-cases, inl, inr, lt→ltb, arith,
}
use luarpc.Codes.{rpc_cmd_call, rpc_ready}
use luarpc.Machine.{Machine}
use luarpc.Lua.{Value, Lua}
use luarpc.State.{State, ok, ◌>>◌}
use luarpc.Wire.{write_string, write_uint8, write_uint32}
use luarpc.Wire.Words.{wire}
use luarpc.Wire.Laws.{
  emit, feed, feed-append, Works-emit, Linked, seq-emit, read_uint32-feed, write_uint8-emit,
  write_uint32-emit, write_string-emit,
}
use luarpc.ErrorHandler.{is_callable}
use luarpc.Variable.Lists.{enc_all, BuildsAll, pushed, read_values-BuildsAll}
use luarpc.Variable.Tree.{Tree, enc_text, PathTo}
use luarpc.Variable.Name.{tokens}
use luarpc.Server.{
  after_strtok, undefined_function, write_undefined, call_found, rpc_dispatch_worker,
}
use luarpc.Server.Calls.{reply_call-found}

length-after_strtok : (b : Bool) (bs : Bytes) → length (after_strtok b bs) ≡ length bs
unfolding after_strtok
length-after_strtok b [] = refl
length-after_strtok b (c ∷ r) =
    let dot = length-after_strtok false r in
    let other = length-after_strtok true r in
    elim (Bool-cases (c == 0)) [
      | inl e ↦ rw (e, after_strtok, length) refl
      | inr e ↦ elim (Bool-cases (c == b'.')) [
        | inl f ↦ rw (e, f, after_strtok, length) (ap suc dot)
        | inr f ↦ rw (e, f, after_strtok, length) (ap suc other)
      ]
    ]

-- What is sent: a one, LUA_ERRRUN, and the length of a text and the text.
abbrev pub enc_undefined : (le : Bool) (errrun : ℕ) → Bytes → Bytes
enc_undefined le errrun name =
    1
    ∷ (wire le 4 errrun
        ++ (wire le 4 (length undefined_function + length name)
            ++ (undefined_function ++ after_strtok false name)))

module _ {G : Type 0} (lua : Lua G) (m : Machine) where
  write_undefined-emit :
      (name : Bytes) (s : State G)
      → length name < 2 ^ 31
      → Linked m s
      → write_undefined lua m name s
        ≡ ok tt (emit (enc_undefined s.tpt.net_little lua.errrun name) s)
  unfolding write_undefined
  write_undefined-emit name s h l =
      let le = s.tpt.net_little in
      let text = undefined_function in
      let said = after_strtok false name in
      let total = length text + length name in
      let size : total % 2 ^ 32 ≡ total = omega arith in
      let n₁ = wire le 4 lua.errrun in
      let n₂ = wire le 4 total in
      let s₁ = emit (1 ∷ []) s in
      let s₂ = emit n₁ s₁ in
      let s₃ = emit n₂ s₂ in
      let s₄ = emit text s₃ in
      let w₁ = Works-emit s (1 ∷ []) l.works in
      let w₂ = Works-emit s₁ n₁ w₁ in
      let w₃ = Works-emit s₂ n₂ w₂ in
      let w₄ = Works-emit s₃ text w₃ in
      let same_length = length-after_strtok false name in
      let send_name = write_string said (length name) in
      let send_text = write_string text (length text) >> send_name in
      let send_size = write_uint32 m total >> send_text in
      rw size (
        seq-emit (write_uint8 1) (write_uint32 m lua.errrun >> send_size) s (1 ∷ [])
          (n₁ ++ (n₂ ++ (text ++ said))) (write_uint8-emit s 1 l.works)
          (seq-emit (write_uint32 m lua.errrun) send_size s₁ n₁ (n₂ ++ (text ++ said))
            (write_uint32-emit m s₁ l.agree lua.errrun w₁)
            (seq-emit (write_uint32 m total) send_text s₂ n₂ (text ++ said)
              (write_uint32-emit m s₂ l.agree total w₂)
              (seq-emit (write_string text (length text)) send_name s₃ text said
                (write_string-emit s₃ text w₃ (omega arith))
                (ap (λ n. write_string said n s₄) (sym same_length)
                  ∙ write_string-emit s₄ said w₄ (omega arith))))))

  -- Behind the lookup of a value that cannot be called: the arguments are built all the same.
  call_found-undefined :
      (d : ℕ) (name : Bytes) (v : Value) (args : List Tree) (vs : List Value) (g' : G) (s : State G)
      → BuildsAll lua m s.tpt args s.lua vs g'
      → length name < 2 ^ 31
      → length args < 2 ^ 31
      → Linked m s
      → call_found lua m d name (length s.stack) false (
          feed
            (wire s.tpt.net_little 4 (length args) ++ enc_all s.tpt.net_little args)
            (record s { stack = v ∷ s.stack }))
        ≡ ok tt (
            emit
              (enc_undefined s.tpt.net_little lua.errrun name)
              (record s { stack = []; lua = g' }))
  unfolding call_found
  call_found-undefined d name v args vs g' s b hn ha l =
      let le = s.tpt.net_little in
      let body = enc_all le args in
      let s₁ : State G = record s { stack = v ∷ s.stack } in
      let l₁ : Linked m s₁ = record {
        works = record { opened = l.works.opened; unbroken = l.works.unbroken };
        agree = l.agree;
      } in
      let s₂ : State G = pushed vs g' s₁ in
      rw
        (
          feed-append s₁ (wire le 4 (length args)) body,
          read_uint32-feed m (feed body s₁) l.agree (length args) (omega arith) l.works.opened,
          lt→ltb (length args) (2 ^ 31) ha,
          read_values-BuildsAll lua m args s₁ vs g' b l₁,
          write_undefined-emit name s₂ hn (record {
            works = record { opened = l.works.opened; unbroken = l.works.unbroken };
            agree = l.agree;
          }),
        )
        refl

  -- A call of a name that stands for a value that cannot be called: the arguments are built, and
  -- ready, a one, LUA_ERRRUN and a message are sent. The length announced is that of the whole
  -- name, but in the name a NUL stands for each dot that ends a part of it. The stack is emptied,
  -- and the transport is not marked for removal.
  pub reply_call-undefined :
      (d : ℕ) (name : Bytes) (v : Value) (g₁ : G) (args : List Tree) (vs : List Value) (g₂ : G)
      (s : State G)
      → PathTo lua (tokens name) s.lua v g₁
      → is_callable v ≡ false
      → BuildsAll lua m s.tpt args g₁ vs g₂
      → length name < 2 ^ 31
      → length args < 2 ^ 31
      → Linked m s
      → rpc_dispatch_worker lua m d (
          feed
            (rpc_cmd_call
              ∷ (enc_text s.tpt.net_little name
                  ++ (wire s.tpt.net_little 4 (length args) ++ enc_all s.tpt.net_little args)))
            s)
        ≡ ok tt (
            emit
              (rpc_ready ∷ enc_undefined s.tpt.net_little lua.errrun name)
              (record s { stack = []; lua = g₂ }))
  reply_call-undefined d name v g₁ args vs g₂ s p c b hn ha l =
      let le = s.tpt.net_little in
      let s₃ : State G = record (emit (rpc_ready ∷ []) s) { lua = g₁ } in
      let rest = wire le 4 (length args) ++ enc_all le args in
      reply_call-found lua m d name v g₁ g₂ rest (enc_undefined le lua.errrun name) s p
        (rw c (
          call_found-undefined d name v args vs g₂ s₃ b hn ha (record {
            works = record { opened = l.works.opened; unbroken = l.works.unbroken };
            agree = l.agree;
          })))
        hn l
