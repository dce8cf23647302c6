-- ===== src/Exchange/Assignments.antt =====
-- An assignment on a client and its handling by the server.
use luarpc.Base.{
  ℕ, ◌^◌, ◌-◌, ◌<◌, ◌≡◌, refl, sym, ap, Bytes, Bool, true, false, some, List, [], ◌∷◌, ◌++◌, length,
  ltb,
}
use mathlib.Core.Path.{subst, ap₂}
use luarpc.Codes.{rpc_cmd_newindex, rpc_ready}
use luarpc.Machine.{Machine}
use luarpc.Lua.{Helper, root, Value, string, helper, client, Lua, returned}
use luarpc.State.{State, ok}
use luarpc.Wire.Laws.{emit, feed, Linked}
use luarpc.Helper.Remote.{joined, announced}
use luarpc.Variable.Name.{c_string, tokens}
use luarpc.Variable.Tree.{Tree, enc, enc_text, size, Holds, Builds, PathTo}
use luarpc.Client.{helper_newindex, client_newindex, num_funcname_chars}
use luarpc.Client.Assignments.{assignment, helper_newindex-answered, client_newindex-answered}
use luarpc.Server.{rpc_dispatch_worker}
use luarpc.Server.Assignments.{reply_newindex, reply_newindex_global}
use luarpc.Exchange.{Paired, framed_name}

asked :
    (le be : Bool) (name key : Bytes) (t : Tree) (x : Bytes)
    → x ≡ enc_text be name
    → le ≡ be
    → ◌≡◌ {A = Bytes}
        (rpc_cmd_newindex ∷ (x ++ (enc le (Tree.string key) ++ enc le t)))
        (rpc_cmd_newindex ∷ (enc_text be name ++ (enc be (Tree.string key) ++ enc be t)))
asked le be name key t x e o =
    ap₂ (λ y b. rpc_cmd_newindex ∷ (y ++ (enc b (Tree.string key) ++ enc b t))) e o

module _ {G H : Type 0} (here : Lua G) (there : Lua H) (m n : Machine) where
  -- `helper[ key ] = value`, where the server finds what the helper stands for and can set the
  -- field: there are a request and an answer such that each end, given what the other one writes,
  -- writes its own and returns. The server has set the field `key` of that value to what it built
  -- of the tree of the client's value, and its stack is empty.
  pub exchange_newindex :
      (d e : ℕ) (h : Helper) (key : Bytes) (t : Tree) (v : Value) (rest : List Value) (a w : Value)
      (g₁ g₂ g₃ : H) (c : State G) (s : State H)
      → c.stack ≡ v ∷ (string key ∷ (helper h ∷ rest))
      → length key < 2 ^ 31
      → Holds here m c.tpt c.self c.lua t v
      → size t < d
      → PathTo there (tokens (joined h)) s.lua a g₁
      → Builds there n s.tpt t g₁ w g₂
      → there.settable g₂ a (string key) w ≡ returned tt g₃
      → ltb 0 (length (c_string (joined h))) ≡ true
      → Paired here there m n h c s
      → (ask answer : Bytes) × (helper_newindex here m d (feed answer c) ≡ ok 0 (emit ask c))
        × (rpc_dispatch_worker there n e (feed ask s)
            ≡ ok tt (emit answer (record s { stack = []; lua = g₃ })))
  unfolding Builds
  exchange_newindex d e h key t v rest a w g₁ g₂ g₃ c s on_stack short holds lt path builds set
        named p =
      (
        assignment c h key t,
        rpc_ready ∷ (0 ∷ []),
        helper_newindex-answered here m d h key t v rest c p.usable short holds lt p.client_linked
            on_stack,
        subst
            (λ ask.
              rpc_dispatch_worker there n e (feed ask s)
              ≡ ok tt (emit (rpc_ready ∷ (0 ∷ [])) (record s { stack = []; lua = g₃ })))
            (sym (
              asked c.tpt.net_little s.tpt.net_little (joined h) key t _
                (framed_name here there m n p) p.same_order))
            (reply_newindex there n e (joined h) a (Tree.string key) t (string key) w g₁ g₁ g₂ g₃ s
              path (refl, refl, short) builds set named p.short p.server_linked),
      )

  -- `handle[ key ] = value`, with a key of at most 19 characters: in the same way, and the server has
  -- set the global variable that the key names. The client's stack holds a helper with no name in
  -- the handle's place.
  pub exchange_newindex_global :
      (d e : ℕ) (key : Bytes) (t : Tree) (v w : Value) (g₁ g₂ : H) (c : State G) (s : State H)
      → (let (r, g) = here.ref c.lua (client c.self) in
          let h = root c.self 0 (some r) [] in
          let c₁ : State G = record c { stack = v ∷ (string key ∷ (helper h ∷ [])); lua = g } in
          length key < 2 ^ 31
          → ltb (num_funcname_chars - 1) (length (c_string key)) ≡ false
          → Holds here m c.tpt c.self g t v
          → size t < d
          → Builds there n s.tpt t s.lua w g₁
          → there.tolstring g₁ (string key) ≡ some key
          → there.setglobal g₁ (c_string key) w ≡ returned tt g₂
          → Linked m c
          → Linked n s
          → c.tpt.net_little ≡ s.tpt.net_little
          → (ask answer : Bytes) × (client_newindex here m d
                (feed answer (record c { stack = v ∷ (string key ∷ (client c.self ∷ [])) }))
              ≡ ok 0 (emit ask c₁))
            × (rpc_dispatch_worker there n e (feed ask s)
                ≡ ok tt (emit answer (record s { stack = []; lua = g₂ }))))
  unfolding Builds announced joined
  exchange_newindex_global d e key t v w g₁ g₂ c s short fits holds lt builds text set lc ls o =
      let (r, g) = here.ref c.lua (client c.self) in
      let h = root c.self 0 (some r) [] in
      let c₁ : State G = record c { stack = v ∷ (string key ∷ (helper h ∷ [])); lua = g } in
      (
        assignment c₁ h key t,
        rpc_ready ∷ (0 ∷ []),
        client_newindex-answered here m d key t v c short fits holds lt lc,
        subst
            (λ ask.
              rpc_dispatch_worker there n e (feed ask s)
              ≡ ok tt (emit (rpc_ready ∷ (0 ∷ [])) (record s { stack = []; lua = g₂ })))
            (sym (asked c.tpt.net_little s.tpt.net_little [] key t _ (ap (λ b. enc_text b []) o) o))
            (reply_newindex_global there n e key (Tree.string key) t (string key) w s.lua g₁ g₂ s
              (refl, refl, short) builds text set ls),
      )
