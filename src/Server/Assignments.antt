-- ===== src/Server/Assignments.antt =====
-- What `read_cmd_newindex` (luarpc_protocol.c) does for an assignment that a client asks for.
use luarpc.Base.{
  arith, ℕ, ◌^◌, ◌<◌, ◌≡◌, ap, Bytes, true, some, List, [], ◌∷◌, ◌++◌, length, ltb, if◌then◌else◌,
}
use luarpc.Codes.{rpc_cmd_newindex, rpc_ready}
use luarpc.Machine.{Machine}
use luarpc.Lua.{Value, Lua, returned}
use luarpc.State.{State, ok}
use luarpc.Wire.Laws.{
  emit, feed, feed-append, Works-emit, Linked, emit-emit, read_uint8-feed, write_uint8-emit,
}
use luarpc.Variable.Tree.{Tree, enc, enc_text, PathTo, Builds}
use luarpc.Variable.Name.{c_string, tokens}
use luarpc.Variable.Reads.{built, read_value-enc, get_path-PathTo}
use luarpc.Server.{set_global, read_key_value, newindex_at, newindex_global, rpc_dispatch_worker}
use luarpc.Server.Replies.{read_name-feed}

module _ {G : Type 0} (lua : Lua G) (m : Machine) where
  -- The key and the value are built, the value on top.
  read_key_value-enc :
      (k t : Tree) (kv v : Value) (g₁ g₂ : G) (s : State G)
      → Builds lua m s.tpt k s.lua kv g₁
      → Builds lua m s.tpt t g₁ v g₂
      → Linked m s
      → read_key_value lua m (feed (enc s.tpt.net_little k ++ enc s.tpt.net_little t) s)
        ≡ ok tt (record s { stack = v ∷ (kv ∷ s.stack); lua = g₂ })
  unfolding read_key_value
  read_key_value-enc k t kv v g₁ g₂ s b c l =
      let le = s.tpt.net_little in
      rw (
        feed-append s (enc le k) (enc le t),
        read_value-enc lua m k (feed (enc le t) s) kv g₁ b l.agree l.works.opened,
        read_value-enc lua m t (built kv g₁ s) v g₂ c l.agree l.works.opened,
      )

  newindex_at-enc :
      (name : Bytes) (a : Value) (k t : Tree) (kv v : Value) (g₁ g₂ g₃ g₄ : G) (s : State G)
      → PathTo lua (tokens name) s.lua a g₁
      → Builds lua m s.tpt k g₁ kv g₂
      → Builds lua m s.tpt t g₂ v g₃
      → lua.settable g₃ a kv v ≡ returned tt g₄
      → Linked m s
      → newindex_at lua m name (feed (enc s.tpt.net_little k ++ enc s.tpt.net_little t) s)
        ≡ ok tt (record s { stack = a ∷ s.stack; lua = g₄ })
  unfolding newindex_at
  newindex_at-enc name a k t kv v g₁ g₂ g₃ g₄ s p b c e l =
      let le = s.tpt.net_little in
      let l₁ : Linked m (built a g₁ s) = record {
        works = record { opened = l.works.opened; unbroken = l.works.unbroken };
        agree = l.agree;
      } in
      rw (
        get_path-PathTo lua m (tokens name) (feed (enc le k ++ enc le t) s) a g₁ p,
        read_key_value-enc k t kv v g₂ g₃ (built a g₁ s) b c l₁,
        e,
      )

  newindex_global-enc :
      (key : Bytes) (k t : Tree) (kv v : Value) (g₁ g₂ g₃ : G) (s : State G)
      → Builds lua m s.tpt k s.lua kv g₁
      → Builds lua m s.tpt t g₁ v g₂
      → lua.tolstring g₂ kv ≡ some key
      → lua.setglobal g₂ (c_string key) v ≡ returned tt g₃
      → Linked m s
      → newindex_global lua m (feed (enc s.tpt.net_little k ++ enc s.tpt.net_little t) s)
        ≡ ok tt (record s { stack = kv ∷ s.stack; lua = g₃ })
  unfolding newindex_global
  newindex_global-enc key k t kv v g₁ g₂ g₃ s b c n e l =
      rw (read_key_value-enc k t kv v g₁ g₂ s b c l, n, e, set_global)

  -- A request for an assignment, of which `rest` follows the name: what the assignment comes to is
  -- answered by ready and a zero.
  answered :
      (d : ℕ) (name rest : Bytes) (st : List Value) (g : G) (s : State G)
      → (let s₁ = emit (rpc_ready ∷ []) s in
          (if ltb 0 (length (c_string name)) then newindex_at lua m name else newindex_global lua m)
              (feed rest s₁)
            ≡ ok tt (record s₁ { stack = st; lua = g })
          → length name < 2 ^ 31
          → Linked m s
          → rpc_dispatch_worker lua m d
              (feed (rpc_cmd_newindex ∷ (enc_text s.tpt.net_little name ++ rest)) s)
            ≡ ok tt (emit (rpc_ready ∷ (0 ∷ [])) (record s { stack = []; lua = g })))
  unfolding rpc_dispatch_worker
  answered d name rest st g s e h l =
      let text = enc_text s.tpt.net_little name in
      let s₁ = emit (rpc_ready ∷ []) s in
      let s₂ : State G = feed rest s₁ in
      let l₂ : Linked m s₂ = record {
        works = record { opened = l.works.opened; unbroken = l.works.unbroken };
        agree = l.agree;
      } in
      rw
        (
          read_uint8-feed (feed (text ++ rest) s) rpc_cmd_newindex l.works.opened,
          write_uint8-emit (feed (text ++ rest) s) rpc_ready
              (record { opened = l.works.opened; unbroken = l.works.unbroken }),
          feed-append s₁ text rest,
          read_name-feed lua m name s₂ h l₂,
          e,
          write_uint8-emit (record s₁ { stack = st; lua = g }) 0
              (record { opened = l.works.opened; unbroken = l.works.unbroken }),
          l.works.opened,
        )
        (ap (ok tt) (emit-emit (record s { stack = []; lua = g }) (rpc_ready ∷ []) (0 ∷ [])))

  -- An assignment to a field of the value that a name stands for: the key and the value are built,
  -- the field is set, and ready and a zero are answered; the stack is emptied.
  pub reply_newindex :
      (d : ℕ) (name : Bytes) (a : Value) (k t : Tree) (kv v : Value) (g₁ g₂ g₃ g₄ : G) (s : State G)
      → PathTo lua (tokens name) s.lua a g₁
      → Builds lua m s.tpt k g₁ kv g₂
      → Builds lua m s.tpt t g₂ v g₃
      → lua.settable g₃ a kv v ≡ returned tt g₄
      → ltb 0 (length (c_string name)) ≡ true
      → length name < 2 ^ 31
      → Linked m s
      → rpc_dispatch_worker lua m d (
          feed
            (rpc_cmd_newindex
              ∷ (enc_text s.tpt.net_little name
                  ++ (enc s.tpt.net_little k ++ enc s.tpt.net_little t)))
            s)
        ≡ ok tt (emit (rpc_ready ∷ (0 ∷ [])) (record s { stack = []; lua = g₄ }))
  reply_newindex d name a k t kv v g₁ g₂ g₃ g₄ s p b c e named h l =
      let le = s.tpt.net_little in
      let s₁ = emit (rpc_ready ∷ []) s in
      answered d name (enc le k ++ enc le t) (a ∷ s.stack) g₄ s
        (rw named (
          newindex_at-enc name a k t kv v g₁ g₂ g₃ g₄ s₁ p b c e
            (record { works = Works-emit s (rpc_ready ∷ []) l.works; agree = l.agree })))
        h l

  -- An assignment with no name in front of it: the key names a global variable, which is set.
  pub reply_newindex_global :
      (d : ℕ) (key : Bytes) (k t : Tree) (kv v : Value) (g₁ g₂ g₃ : G) (s : State G)
      → Builds lua m s.tpt k s.lua kv g₁
      → Builds lua m s.tpt t g₁ v g₂
      → lua.tolstring g₂ kv ≡ some key
      → lua.setglobal g₂ (c_string key) v ≡ returned tt g₃
      → Linked m s
      → rpc_dispatch_worker lua m d (
          feed
            (rpc_cmd_newindex
              ∷ (enc_text s.tpt.net_little []
                  ++ (enc s.tpt.net_little k ++ enc s.tpt.net_little t)))
            s)
        ≡ ok tt (emit (rpc_ready ∷ (0 ∷ [])) (record s { stack = []; lua = g₃ }))
  reply_newindex_global d key k t kv v g₁ g₂ g₃ s b c n e l =
      let le = s.tpt.net_little in
      let s₁ = emit (rpc_ready ∷ []) s in
      answered d [] (enc le k ++ enc le t) (kv ∷ s.stack) g₃ s
        (newindex_global-enc key k t kv v g₁ g₂ g₃ s₁ b c n e
          (record { works = Works-emit s (rpc_ready ∷ []) l.works; agree = l.agree }))
        (omega arith) l
