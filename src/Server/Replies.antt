-- ===== src/Server/Replies.antt =====
-- What `rpc_dispatch_worker` (luarpc_protocol.c) answers to a well-formed command.
use luarpc.Base.{ℕ, ◌^◌, ◌<◌, ◌≡◌, ap, Bytes, [], ◌∷◌, length}
use luarpc.Codes.{rpc_cmd_get, rpc_ready}
use luarpc.Machine.{Machine}
use luarpc.Lua.{Value, Lua}
use luarpc.State.{State, ok}
use luarpc.Wire.Laws.{
  emit, feed, Works, Works-emit, Linked, emit-emit, read_uint8-feed, write_uint8-emit,
}
use luarpc.Variable.Name.{tokens}
use luarpc.Variable.Tree.{Tree, enc, enc_text, size, Holds, PathTo}
use luarpc.Variable.Writes.{write_variable-enc}
use luarpc.Variable.Reads.{built, read_text, get_path-PathTo}
use luarpc.Server.{read_name, rpc_dispatch_worker}

module _ {G : Type 0} (lua : Lua G) (m : Machine) where
  pub read_name-feed :
      (name : Bytes) (s : State G)
      → length name < 2 ^ 31
      → Linked m s
      → read_name lua m (feed (enc_text s.tpt.net_little name) s) ≡ ok name s
  unfolding read_name
  read_name-feed name s h l =
      let r = read_text lua m name s h l.agree l.works.opened in rw (r.0, r.1)

  -- A request for the value that a name stands for: ready, and the encoding of the tree that the
  -- value holds, if it is found and the C stack serves its depth. The stack is emptied.
  pub reply_get :
      (d : ℕ) (name : Bytes) (t : Tree) (v : Value) (g : G) (s : State G)
      → length name < 2 ^ 31
      → PathTo lua (tokens name) s.lua v g
      → Holds lua m s.tpt s.self g t v
      → size t < d
      → Linked m s
      → rpc_dispatch_worker lua m d (feed (rpc_cmd_get ∷ enc_text s.tpt.net_little name) s)
        ≡ ok tt (emit (rpc_ready ∷ enc s.tpt.net_little t) (record s { stack = []; lua = g }))
  unfolding rpc_dispatch_worker
  reply_get d name t v g s h p holds lt l =
      let text = enc_text s.tpt.net_little name in
      let s₁ = emit (rpc_ready ∷ []) s in
      let w₁ = Works-emit s (rpc_ready ∷ []) l.works in
      let l₁ : Linked m s₁ = record { works = w₁; agree = l.agree } in
      let s₂ = built v g s₁ in
      let w₂ : Works s₂ = record { opened = w₁.opened; unbroken = w₁.unbroken } in
      let s₃ : State G = record s { stack = []; lua = g } in
      rw
        (
          read_uint8-feed (feed text s) rpc_cmd_get l.works.opened,
          write_uint8-emit (feed text s) rpc_ready
              (record { opened = l.works.opened; unbroken = l.works.unbroken }),
          read_name-feed name s₁ h l₁,
          get_path-PathTo lua m (tokens name) s₁ v g p,
          write_variable-enc lua m t d v s₂ holds lt l.agree w₂,
          l.works.opened,
        )
        (ap (ok tt) (emit-emit s₃ (rpc_ready ∷ []) (enc s.tpt.net_little t)))
