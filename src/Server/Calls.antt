-- ===== src/Server/Calls.antt =====
-- What `read_cmd_call` (luarpc_protocol.c) answers: what every answer has in common, and the results
-- of the function called.
use luarpc.Base.{
  ℕ, suc, ◌-◌, ◌^◌, ◌<◌, ◌≡◌, ap, Bytes, true, List, [], ◌∷◌, ◌++◌, length, take, length-append,
  take-append, reverse, arith, lt→ltb,
}
use luarpc.Codes.{rpc_cmd_call, rpc_ready}
use luarpc.Machine.{Machine}
use luarpc.Lua.{Value, Lua}
use luarpc.State.{State, ok, ◌>>◌}
use luarpc.Wire.{write_uint8, write_uint32}
use luarpc.Wire.Words.{wire}
use luarpc.Wire.Laws.{
  emit, feed, feed-append, Works-emit, Linked, seq-emit, emit-emit, read_uint8-feed,
  read_uint32-feed, write_uint8-emit, write_uint32-emit,
}
use luarpc.Variable.{write_values}
use luarpc.Variable.Lists.{
  enc_all, HoldsAll, BuildsAll, pushed, BuildsAll-length, read_values-BuildsAll,
  write_values-HoldsAll, length-reverse, get_elem?-pushed, take-pushed, drop-pushed,
}
use luarpc.Variable.Tree.{Tree, enc_text, PathTo}
use luarpc.ErrorHandler.{is_callable}
use luarpc.Server.{write_results, call_function, call_found, rpc_dispatch_worker}
use luarpc.Server.Replies.{read_name-feed}
use luarpc.Variable.Name.{tokens}
use luarpc.Variable.Reads.{get_path-PathTo}
use mathlib.Core.List.{reverse-reverse}

module _ {G : Type 0} (lua : Lua G) (m : Machine) (d : ℕ) where
  -- The results on top of the `n` values that were there before.
  write_results-HoldsAll :
      (base : List Value) (s : State G) (vs : List Value) (ts : List Tree)
      → HoldsAll lua m s.tpt s.self d s.lua ts vs
      → Linked m s
      → write_results lua m d (length base) (record s { stack = reverse vs ++ base })
        ≡ ok tt (
            emit
              (0 ∷ (wire s.tpt.net_little 4 (length vs) ++ enc_all s.tpt.net_little ts))
              (record s { stack = reverse vs ++ base }))
  unfolding write_results
  write_results-HoldsAll base s vs ts hs l =
      let s₀ : State G = record s { stack = reverse vs ++ base } in
      let l₀ : Linked m s₀ = record {
        works = record { opened = l.works.opened; unbroken = l.works.unbroken };
        agree = l.agree;
      } in
      let count : length (reverse vs ++ base) - length base ≡ length vs =
        omega (arith, length-append (reverse vs) base, length-reverse vs) in
      let whole : take (length vs) (reverse vs ++ base) ≡ reverse vs =
        rw (← length-reverse vs) (take-append (reverse vs) base) in
      let word = wire s.tpt.net_little 4 (length vs) in
      let s₁ = emit (0 ∷ []) s₀ in
      let w₁ = Works-emit s₀ (0 ∷ []) l₀.works in
      rw (count, whole, reverse-reverse vs)
        (seq-emit (write_uint8 0) (write_uint32 m (length vs) >> write_values lua m d vs) s₀
          (0 ∷ []) (word ++ enc_all s.tpt.net_little ts) (write_uint8-emit s₀ 0 l₀.works)
          (seq-emit (write_uint32 m (length vs)) (write_values lua m d vs) s₁ word
            (enc_all s.tpt.net_little ts) (write_uint32-emit m s₁ l.agree (length vs) w₁)
            (write_values-HoldsAll lua m d ts (emit word s₁) vs hs
              (record { works = Works-emit s₁ word w₁; agree = l.agree }))))

  call_function-pushed :
      (vs : List Value) (f : Value) (base : List Value) (g g' : G) (results : List Value)
      (ts : List Tree) (s : State G)
      → lua.pcall g f vs ≡ (0, results, g')
      → HoldsAll lua m s.tpt s.self d g' ts results
      → Linked m s
      → call_function lua m d
          (length base)
          (length vs)
          (pushed vs g (record s { stack = f ∷ base }))
        ≡ ok tt (
            emit
              (0 ∷ (wire s.tpt.net_little 4 (length results) ++ enc_all s.tpt.net_little ts))
              (record s { stack = reverse results ++ base; lua = g' }))
  unfolding call_function
  call_function-pushed vs f base g g' results ts s e hs l =
      rw (get_elem?-pushed vs f base, take-pushed vs (f ∷ base), drop-pushed vs f base, e)
        (write_results-HoldsAll base (record s { lua = g' }) results ts hs
          (record {
            works = record { opened = l.works.opened; unbroken = l.works.unbroken };
            agree = l.agree;
          }))

  -- Behind the lookup of a function that can be called: the arguments are built, and what the call
  -- of the function sends is sent.
  call_found-answer :
      (name : Bytes) (f : Value) (args : List Tree) (vs : List Value) (g g' : G) (answer : Bytes)
      (st : List Value) (s : State G)
      → BuildsAll lua m s.tpt args s.lua vs g
      → call_function lua m d
          (length s.stack)
          (length vs)
          (pushed vs g (record s { stack = f ∷ s.stack }))
        ≡ ok tt (emit answer (record s { stack = st; lua = g' }))
      → length args < 2 ^ 31
      → Linked m s
      → call_found lua m d name (length s.stack) true (
          feed
            (wire s.tpt.net_little 4 (length args) ++ enc_all s.tpt.net_little args)
            (record s { stack = f ∷ s.stack }))
        ≡ ok tt (emit answer (record s { stack = []; lua = g' }))
  unfolding call_found
  call_found-answer name f args vs g g' answer st s b e h l =
      let le = s.tpt.net_little in
      let body = enc_all le args in
      let s₁ : State G = record s { stack = f ∷ s.stack } in
      let l₁ : Linked m s₁ = record {
        works = record { opened = l.works.opened; unbroken = l.works.unbroken };
        agree = l.agree;
      } in
      rw (
        feed-append s₁ (wire le 4 (length args)) body,
        read_uint32-feed m (feed body s₁) l.agree (length args) (omega arith) l.works.opened,
        lt→ltb (length args) (2 ^ 31) h,
        read_values-BuildsAll lua m args s₁ vs g b l₁,
        BuildsAll-length lua m s.tpt args s.lua vs g b,
        e,
      )

  -- A call of a name that stands for the value `v`: what is sent behind the ready byte is what is
  -- sent behind the lookup.
  pub reply_call-found :
      (name : Bytes) (v : Value) (g₁ g₃ : G) (rest answer : Bytes) (s : State G)
      → PathTo lua (tokens name) s.lua v g₁
      → (let s₃ : State G = record (emit (rpc_ready ∷ []) s) { lua = g₁ } in
          call_found lua m d name
              (length s.stack)
              (is_callable v)
              (feed rest (record s₃ { stack = v ∷ s.stack }))
            ≡ ok tt (emit answer (record s₃ { stack = []; lua = g₃ }))
          → length name < 2 ^ 31
          → Linked m s
          → rpc_dispatch_worker lua m d
              (feed (rpc_cmd_call ∷ (enc_text s.tpt.net_little name ++ rest)) s)
            ≡ ok tt (emit (rpc_ready ∷ answer) (record s { stack = []; lua = g₃ })))
  unfolding rpc_dispatch_worker
  reply_call-found name v g₁ g₃ rest answer s p e hn l =
      let text = enc_text s.tpt.net_little name in
      let s₁ = emit (rpc_ready ∷ []) s in
      let s₂ : State G = feed rest s₁ in
      let l₂ : Linked m s₂ = record {
        works = record { opened = l.works.opened; unbroken = l.works.unbroken };
        agree = l.agree;
      } in
      let base : suc (length s.stack) - 1 ≡ length s.stack = omega arith in
      rw
        (
          read_uint8-feed (feed (text ++ rest) s) rpc_cmd_call l.works.opened,
          write_uint8-emit (feed (text ++ rest) s) rpc_ready
              (record { opened = l.works.opened; unbroken = l.works.unbroken }),
          feed-append s₁ text rest,
          read_name-feed lua m name s₂ hn l₂,
          get_path-PathTo lua m (tokens name) s₂ v g₁ p,
          base,
          e,
          l.works.opened,
        )
        (ap (ok tt) (emit-emit (record s { stack = []; lua = g₃ }) (rpc_ready ∷ []) answer))

  -- A call of a function that is found: what is sent behind the ready byte is what its call sends.
  pub reply_call-answer :
      (name : Bytes) (r : ℕ) (g₁ : G) (args : List Tree) (vs : List Value) (g₂ g₃ : G)
      (answer : Bytes) (st : List Value) (s : State G)
      → PathTo lua (tokens name) s.lua (Value.function r) g₁
      → BuildsAll lua m s.tpt args g₁ vs g₂
      → (let s₁ = emit (rpc_ready ∷ []) s in
          call_function lua m d
              (length s.stack)
              (length vs)
              (pushed vs g₂ (record s₁ { stack = Value.function r ∷ s.stack; lua = g₁ }))
            ≡ ok tt (emit answer (record s₁ { stack = st; lua = g₃ }))
          → length name < 2 ^ 31
          → length args < 2 ^ 31
          → Linked m s
          → rpc_dispatch_worker lua m d (
              feed
                (rpc_cmd_call
                  ∷ (enc_text s.tpt.net_little name
                      ++ (wire s.tpt.net_little 4 (length args) ++ enc_all s.tpt.net_little args)))
                s)
            ≡ ok tt (emit (rpc_ready ∷ answer) (record s { stack = []; lua = g₃ })))
  reply_call-answer name r g₁ args vs g₂ g₃ answer st s p b e hn ha l =
      let le = s.tpt.net_little in
      let s₃ : State G = record (emit (rpc_ready ∷ []) s) { lua = g₁ } in
      reply_call-found name (Value.function r) g₁ g₃ (wire le 4 (length args) ++ enc_all le args)
        answer s p
        (call_found-answer name (Value.function r) args vs g₂ g₃ answer st s₃ b e ha (record {
          works = record { opened = l.works.opened; unbroken = l.works.unbroken };
          agree = l.agree;
        }))
        hn l

  -- A call of a function that is found and returns: ready, a zero, the number of the results and
  -- their encodings in order. The function was called once, with exactly the arguments that were
  -- sent, in order; the stack is emptied.
  pub reply_call :
      (name : Bytes) (r : ℕ) (g₁ : G) (args : List Tree) (vs : List Value) (g₂ g₃ : G)
      (results : List Value) (ts : List Tree) (s : State G)
      → PathTo lua (tokens name) s.lua (Value.function r) g₁
      → BuildsAll lua m s.tpt args g₁ vs g₂
      → lua.pcall g₂ (Value.function r) vs ≡ (0, results, g₃)
      → HoldsAll lua m s.tpt s.self d g₃ ts results
      → length name < 2 ^ 31
      → length args < 2 ^ 31
      → Linked m s
      → rpc_dispatch_worker lua m d (
          feed
            (rpc_cmd_call
              ∷ (enc_text s.tpt.net_little name
                  ++ (wire s.tpt.net_little 4 (length args) ++ enc_all s.tpt.net_little args)))
            s)
        ≡ ok tt (
            emit
              (rpc_ready
                ∷ (0 ∷ (wire s.tpt.net_little 4 (length results) ++ enc_all s.tpt.net_little ts)))
              (record s { stack = []; lua = g₃ }))
  reply_call name r g₁ args vs g₂ g₃ results ts s p b e hs hn ha l =
      let s₁ : State G = record (emit (rpc_ready ∷ []) s) { lua = g₁ } in
      reply_call-answer name r g₁ args vs g₂ g₃
        (0 ∷ (wire s.tpt.net_little 4 (length results) ++ enc_all s.tpt.net_little ts))
        (reverse results ++ s.stack) s p b
        (call_function-pushed vs (Value.function r) s.stack g₂ g₃ results ts s₁ e hs (record {
          works = record { opened = l.works.opened; unbroken = l.works.unbroken };
          agree = l.agree;
        }))
        hn ha l
