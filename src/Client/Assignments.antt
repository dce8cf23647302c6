-- ===== src/Client/Assignments.antt =====
-- What the assignments of the client (luarpc_protocol.c, `helper_newindex` and `client_newindex`) send.
use luarpc.Base.{
  ◌-◌, ℕ, ◌^◌, ◌<◌, ◌≡◌, refl, ap, Bytes, false, some, List, [], ◌∷◌, ◌++◌, length, ltb, arith,
}
use luarpc.Codes.{rpc_cmd_newindex, rpc_ready}
use luarpc.Machine.{Machine}
use luarpc.Lua.{Helper, root, Value, string, helper, client, Lua}
use luarpc.State.{State, ok}
use luarpc.Wire.Laws.{emit, feed, Works, Works-emit, Linked, emit-four, read_uint8-feed}
use luarpc.Helper.Remote.{helper_remote_index-emit}
use luarpc.Variable.Name.{c_string}
use luarpc.Variable.Tree.{Tree, enc, size, Holds, size_pos}
use luarpc.Variable.Writes.{write_variable-enc}
use luarpc.Client.{assign_remote, helper_newindex, client_newindex, num_funcname_chars}
use luarpc.Client.Requests.{Usable, sent_name, helper_wait_ready-feed}

-- The request for an assignment of `t` to the field `key` of a helper.
abbrev pub assignment : {G : Type 0} → State G → Helper → Bytes → Tree → Bytes
assignment s h key t =
    rpc_cmd_newindex
    ∷ (sent_name s h ++ (enc s.tpt.net_little (Tree.string key) ++ enc s.tpt.net_little t))

module _ {G : Type 0} (lua : Lua G) (m : Machine) (d : ℕ) where
  assign_remote-answered :
      (h : Helper) (key : Bytes) (t : Tree) (v : Value) (s : State G)
      → Usable h s
      → length key < 2 ^ 31
      → Holds lua m s.tpt s.self s.lua t v
      → size t < d
      → Linked m s
      → assign_remote lua m d h (string key) v (feed (rpc_ready ∷ (0 ∷ [])) s)
        ≡ ok 0 (emit (assignment s h key t) s)
  unfolding assign_remote Holds size
  assign_remote-answered h key t v s u short holds lt l =
      let le = s.tpt.net_little in
      let k : Tree = Tree.string key in
      let s₀ : State G = feed (0 ∷ []) s in
      let s₁ = emit (rpc_cmd_newindex ∷ []) s₀ in
      let w₁ : Works s₁ = record { opened = l.works.opened; unbroken = l.works.unbroken } in
      let s₂ = emit (sent_name s h) s₁ in
      let w₂ = Works-emit s₁ (sent_name s h) w₁ in
      let s₃ = emit (enc le k) s₂ in
      let s₄ =
        emit (enc le t) (emit (enc le k) (emit (sent_name s h) (emit (rpc_cmd_newindex ∷ []) s))) in
      rw
        (
          helper_wait_ready-feed lua m rpc_cmd_newindex (0 ∷ []) s l.works,
          helper_remote_index-emit m h s₁ u.chain u.depth_lt u.own l.agree w₁,
          write_variable-enc lua m k d (string key) s₂ (refl, short) (omega (arith, size_pos t))
              l.agree w₂,
          write_variable-enc lua m t d v s₃ holds lt l.agree (Works-emit s₂ (enc le k) w₂),
          read_uint8-feed s₄ 0 l.works.opened,
        )
        (ap (ok 0) (emit-four s (rpc_cmd_newindex ∷ []) (sent_name s h) (enc le k) (enc le t)))

  -- `helper[ key ] = value`, answered by ready and a zero: the request has been sent, and nothing is
  -- returned.
  pub helper_newindex-answered :
      (h : Helper) (key : Bytes) (t : Tree) (v : Value) (rest : List Value) (s : State G)
      → Usable h s
      → length key < 2 ^ 31
      → Holds lua m s.tpt s.self s.lua t v
      → size t < d
      → Linked m s
      → s.stack ≡ v ∷ (string key ∷ (helper h ∷ rest))
      → helper_newindex lua m d (feed (rpc_ready ∷ (0 ∷ [])) s)
        ≡ ok 0 (emit (assignment s h key t) s)
  unfolding helper_newindex
  helper_newindex-answered h key t v rest s u short holds lt l on_stack =
      let s' : State G = record s { stack = v ∷ (string key ∷ (helper h ∷ rest)) } in
      rw on_stack (
        assign_remote-answered h key t v s'
          (record { chain = u.chain; depth_lt = u.depth_lt; own = u.own }) short holds lt
          (record {
            works = record { opened = l.works.opened; unbroken = l.works.unbroken };
            agree = l.agree;
          }))

  -- `handle[ key ] = value`, answered in the same way: the request is that of a helper with no name,
  -- which has taken the place of the handle.
  pub client_newindex-answered :
      (key : Bytes) (t : Tree) (v : Value) (s : State G)
      → (let (r, g) = lua.ref s.lua (client s.self) in
          let h = root s.self 0 (some r) [] in
          let s₁ : State G = record s { stack = v ∷ (string key ∷ (helper h ∷ [])); lua = g } in
          length key < 2 ^ 31
          → ltb (num_funcname_chars - 1) (length (c_string key)) ≡ false
          → Holds lua m s.tpt s.self g t v
          → size t < d
          → Linked m s
          → client_newindex lua m d (
              feed
                (rpc_ready ∷ (0 ∷ []))
                (record s { stack = v ∷ (string key ∷ (client s.self ∷ [])) }))
            ≡ ok 0 (emit (assignment s₁ h key t) s₁))
  unfolding client_newindex helper_newindex
  client_newindex-answered key t v s short fits holds lt l =
      let (r, g) = lua.ref s.lua (client s.self) in
      let h = root s.self 0 (some r) [] in
      let s₁ : State G = record s { stack = v ∷ (string key ∷ (helper h ∷ [])); lua = g } in
      rw fits (
        assign_remote-answered h key t v s₁
          (record { chain = (refl, omega arith); depth_lt = omega arith; own = refl }) short holds
          lt
          (record {
            works = record { opened = l.works.opened; unbroken = l.works.unbroken };
            agree = l.agree;
          }))
