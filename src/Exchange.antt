-- ===== src/Exchange.antt =====
-- A client and a server, each with its own machine and its own Lua: one reads what the other one
-- writes. The two streams are compared as wholes.
pub mod Assignments
pub mod Session
use luarpc.Base.{ℕ, ◌^◌, ◌<◌, ◌≡◌, ap, Bytes, Bool, List, [], ◌∷◌, ◌++◌, length}
use mathlib.Core.Path.{subst₂, ap₂}
use luarpc.Codes.{rpc_cmd_call, rpc_cmd_get, rpc_ready}
use luarpc.Machine.{Machine}
use luarpc.Lua.{Helper, Value, Lua}
use luarpc.State.{State, ok}
use luarpc.Wire.Words.{wire}
use luarpc.Wire.Laws.{emit, feed, Linked}
use luarpc.Helper.Remote.{joined, announced}
use luarpc.Variable.Name.{tokens}
use luarpc.Variable.Tree.{Tree, enc, enc_text, size, Holds, Builds, PathTo}
use luarpc.Variable.Reads.{built}
use luarpc.Variable.Lists.{enc_all, HoldsAll, BuildsAll, pushed}
use luarpc.Client.{helper_get, remote_call}
use luarpc.Client.Requests.{
  Usable, sent_name, timed, in_com, helper_get-answered, remote_call-answered,
}
use luarpc.Server.{rpc_dispatch_worker}
use luarpc.Server.Replies.{reply_get}
use luarpc.Server.Calls.{reply_call}

module _ {G H : Type 0} (here : Lua G) (there : Lua H) (m n : Machine) where
  -- What both ends of an exchange are asked for: the helper is the client's own, the length
  -- announced for it is right, both links are open and agree on the byte order.
  pub record Paired (h : Helper) (c : State G) (s : State H) : Type 0 where
    pub usable : Usable h c
    pub framed : announced h ≡ length (joined h)
    pub short : length (joined h) < 2 ^ 31
    pub client_linked : Linked m c
    pub server_linked : Linked n s
    pub same_order : c.tpt.net_little ≡ s.tpt.net_little

  pub framed_name :
      {h : Helper} {c : State G} {s : State H}
      → Paired h c s
      → sent_name c h ≡ enc_text s.tpt.net_little (joined h)
  framed_name {h} {c} {s} p =
      rw (p.framed) (ap (λ le. wire le 4 (length (joined h)) ++ joined h) p.same_order)

  -- `helper.get()`: there are a request and an answer such that each end, given what the other one
  -- writes, writes its own and returns; the client has built the tree that the server's value of
  -- that name holds, and the server's stack is empty.
  pub exchange_get :
      (d : ℕ) (h : Helper) (t : Tree) (v : Value) (g : H) (w : Value) (k : G) (c : State G)
      (s : State H)
      → PathTo there (tokens (joined h)) s.lua v g
      → Holds there n s.tpt s.self g t v
      → Builds here m c.tpt t c.lua w k
      → size t < d
      → Paired h c s
      → (ask answer : Bytes) × (helper_get here m h (feed answer c) ≡ ok 1 (emit ask (built w k c)))
        × (rpc_dispatch_worker there n d (feed ask s)
            ≡ ok tt (emit answer (record s { stack = []; lua = g })))
  exchange_get d h t v g w k c s path holds builds lt p =
      let le = s.tpt.net_little in
      let client = helper_get-answered here m h t w k c p.usable builds p.client_linked in
      let asked : rpc_cmd_get ∷ sent_name c h ≡ rpc_cmd_get ∷ enc_text le (joined h) =
        ap (λ b. rpc_cmd_get ∷ b) (framed_name p) in
      (
        rpc_cmd_get ∷ enc_text le (joined h),
        rpc_ready ∷ enc le t,
        subst₂ (λ a b. helper_get here m h (feed a c) ≡ ok 1 (emit b (built w k c)))
            (ap (λ o. rpc_ready ∷ enc o t) p.same_order) asked client,
        reply_get there n d (joined h) t v g s p.short path holds lt p.server_linked,
      )

  -- `helper( args )`, of a function that the server finds and that returns: there are a request
  -- and an answer such that each end, given what the other one writes, writes its own and returns.
  -- The function was called with the values that the server built of the trees of the client's
  -- arguments, in order; the client has built the trees of its results, in order, and returns
  -- their number; the server's stack is empty.
  pub exchange_call :
      (d e : ℕ) (h : Helper) (f : ℕ) (args : List Tree) (vs : List Value) (g₁ : H) (ws : List Value)
      (g₂ g₃ : H) (results : List Value) (ts : List Tree) (rs : List Value) (k : G) (c : State G)
      (s : State H)
      → HoldsAll here m c.tpt c.self d c.lua args vs
      → length args ≡ length vs
      → PathTo there (tokens (joined h)) s.lua (Value.function f) g₁
      → BuildsAll there n s.tpt args g₁ ws g₂
      → there.pcall g₂ (Value.function f) ws ≡ (0, results, g₃)
      → HoldsAll there n s.tpt s.self e g₃ ts results
      → BuildsAll here m c.tpt ts c.lua rs k
      → length args < 2 ^ 31
      → length ts < 2 ^ 31
      → length results ≡ length ts
      → Paired h c s
      → (ask answer : Bytes) × (remote_call here m d h vs (feed answer c)
          ≡ ok (length ts) (emit ask (timed in_com (pushed rs k c))))
        × (rpc_dispatch_worker there n e (feed ask s)
            ≡ ok tt (emit answer (record s { stack = []; lua = g₃ })))
  exchange_call d e h f args vs g₁ ws g₂ g₃ results ts rs k c s hold same path build run holds
        builds la lt lr p =
      let order = s.tpt.net_little in
      let values = λ (o : Bool) (xs : List Tree). wire o 4 (length xs) ++ enc_all o xs in
      (
        rpc_cmd_call ∷ (enc_text order (joined h) ++ values order args),
        rpc_ready ∷ (0 ∷ values order ts),
        subst₂
            (λ a b.
              remote_call here m d h vs (feed a c)
              ≡ ok (length ts) (emit b (timed in_com (pushed rs k c))))
            (ap (λ o. rpc_ready ∷ (0 ∷ values o ts)) p.same_order)
            (ap₂ (λ x o. rpc_cmd_call ∷ (x ++ values o args)) (framed_name p) p.same_order)
            (remote_call-answered here m d h args vs ts rs k c p.usable hold same builds lt
              p.client_linked),
        rw lr at (
            reply_call there n e (joined h) f g₁ args ws g₂ g₃ results ts s path build run holds
              p.short la p.server_linked),
      )
