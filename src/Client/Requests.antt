-- ===== src/Client/Requests.antt =====
-- What the client's operations (luarpc_protocol.c) send, and what they make of the answer.
use luarpc.Base.{ℕ, ◌^◌, ◌<◌, ◌≡◌, ap, Bytes, List, [], ◌∷◌, ◌++◌, length, arith, lt→ltb}
use luarpc.Codes.{rpc_cmd_call, rpc_cmd_get, rpc_ready}
use luarpc.Machine.{Machine}
use luarpc.Transport.{Transport}
use luarpc.Lua.{Helper, Value, Lua}
use luarpc.State.{State, ok}
use luarpc.Wire.Words.{wire}
use luarpc.Wire.Laws.{
  emit, feed, feed-append, Works, Works-emit, Linked, emit-emit, emit-four, read_uint8-feed,
  read_uint32-feed, write_uint8-emit, write_uint32-emit,
}
use luarpc.Helper.{handle}
use luarpc.Helper.Remote.{IsChain, depth, joined, announced, helper_remote_index-emit}
use luarpc.Variable.Tree.{Tree, enc, Holds, Builds}
use luarpc.Variable.Reads.{built, read_value-enc}
use luarpc.Variable.Lists.{
  enc_all, HoldsAll, BuildsAll, pushed, read_values-BuildsAll, write_values-HoldsAll,
}
use luarpc.Client.{helper_wait_ready, helper_get, send_call, remote_call, take_results}

-- A helper of this transport, as the module builds them, with fewer than 256 parents.
pub record Usable {G : Type 0} (h : Helper) (s : State G) : Type 0 where
  pub chain : IsChain h
  pub depth_lt : depth h < 256
  pub own : handle h ≡ s.self

-- The name as it is sent, under the length that is announced.
abbrev pub sent_name : {G : Type 0} → State G → Helper → Bytes
sent_name s h = wire s.tpt.net_little 4 (announced h) ++ joined h

-- `s` during a call, with the timeout that is in force.
abbrev pub timed : {G : Type 0} → (Transport → Transport) → State G → State G
timed f s = record s { tpt = f s.tpt }

abbrev in_wait : Transport → Transport
in_wait t = record t { timeout = t.wait_timeout }

abbrev pub in_com : Transport → Transport
in_com t = record t { timeout = t.com_timeout }

module _ {G : Type 0} (lua : Lua G) (m : Machine) where
  pub helper_wait_ready-feed :
      (cmd : ℕ) (rest : Bytes) (s : State G)
      → Works s
      → helper_wait_ready lua m cmd (feed (rpc_ready ∷ rest) s)
        ≡ ok tt (emit (cmd ∷ []) (feed rest s))
  unfolding helper_wait_ready
  helper_wait_ready-feed cmd rest s w = rw (
    write_uint8-emit (feed (rpc_ready ∷ rest) s) cmd
        (record { opened = w.opened; unbroken = w.unbroken }),
    read_uint8-feed (emit (cmd ∷ []) (feed rest s)) rpc_ready w.opened,
  )

  -- `helper.get()`, answered by ready and a tree: the value built is pushed, and one result
  -- returned; a request with the helper's name has been sent.
  pub helper_get-answered :
      (h : Helper) (t : Tree) (v : Value) (g : G) (s : State G)
      → Usable h s
      → Builds lua m s.tpt t s.lua v g
      → Linked m s
      → helper_get lua m h (feed (rpc_ready ∷ enc s.tpt.net_little t) s)
        ≡ ok 1 (emit (rpc_cmd_get ∷ sent_name s h) (built v g s))
  unfolding helper_get
  helper_get-answered h t v g s u b l =
      let body = enc s.tpt.net_little t in
      let s₁ = emit (rpc_cmd_get ∷ []) (feed body s) in
      let w₁ : Works s₁ = record { opened = l.works.opened; unbroken = l.works.unbroken } in
      let s₂ = emit (sent_name s h) (emit (rpc_cmd_get ∷ []) s) in
      rw
        (
          helper_wait_ready-feed rpc_cmd_get body s l.works,
          helper_remote_index-emit m h s₁ u.chain u.depth_lt u.own l.agree w₁,
          read_value-enc lua m t s₂ v g b l.agree l.works.opened,
        )
        (ap (ok 1) (emit-emit (built v g s) (rpc_cmd_get ∷ []) (sent_name s h)))

  send_call-feed :
      (d : ℕ) (h : Helper) (args : List Tree) (vs : List Value) (rest : Bytes) (s : State G)
      → Usable h s
      → HoldsAll lua m s.tpt s.self d s.lua args vs
      → length args ≡ length vs
      → Linked m s
      → send_call lua m d h vs (feed (rpc_ready ∷ rest) s)
        ≡ ok tt (
            emit
              (rpc_cmd_call
                ∷ (sent_name s h
                    ++ (wire s.tpt.net_little 4 (length args) ++ enc_all s.tpt.net_little args)))
              (timed in_wait (feed rest s)))
  unfolding send_call Holds
  send_call-feed d h args vs rest s u hs e l =
      let le = s.tpt.net_little in
      let word = wire le 4 (length vs) in
      let q : State G = feed rest (timed in_com s) in
      let wq : Works q = record { opened = l.works.opened; unbroken = l.works.unbroken } in
      let s₁ = emit (rpc_cmd_call ∷ []) q in
      let w₁ = Works-emit q (rpc_cmd_call ∷ []) wq in
      let s₂ = emit (sent_name s h) s₁ in
      let w₂ = Works-emit s₁ (sent_name s h) w₁ in
      let s₃ = emit word s₂ in
      let l₃ : Linked m s₃ = record { works = Works-emit s₂ word w₂; agree = l.agree } in
      rw
        (
          e,
          helper_wait_ready-feed rpc_cmd_call rest (timed in_com s)
              (record { opened = l.works.opened; unbroken = l.works.unbroken }),
          helper_remote_index-emit m h s₁ u.chain u.depth_lt u.own l.agree w₁,
          write_uint32-emit m s₂ l.agree (length vs) w₂,
          write_values-HoldsAll lua m d args s₃ vs hs l₃,
          l.works.opened,
        )
        (ap (ok tt) (
          emit-four (timed in_wait (feed rest s)) (rpc_cmd_call ∷ []) (sent_name s h) word
            (enc_all le args)))

  -- The results, as they are built.
  take_results-feed :
      (ts : List Tree) (rs : List Value) (g : G) (s : State G)
      → BuildsAll lua m s.tpt ts s.lua rs g
      → length ts < 2 ^ 31
      → Linked m s
      → take_results lua m
          (feed (wire s.tpt.net_little 4 (length ts) ++ enc_all s.tpt.net_little ts) s)
        ≡ ok (length ts) (pushed rs g s)
  unfolding take_results
  take_results-feed ts rs g s b h l =
      let le = s.tpt.net_little in
      rw (
        feed-append s (wire le 4 (length ts)) (enc_all le ts),
        read_uint32-feed m (feed (enc_all le ts) s) l.agree (length ts) (omega arith)
            l.works.opened,
        lt→ltb (length ts) (2 ^ 31) h,
        read_values-BuildsAll lua m ts s rs g b l,
      )

  -- A call, answered by ready, a zero, a number of results and their encodings: the request that
  -- was sent holds the helper's name and the arguments in order, the results are built and pushed
  -- in order, and their number is returned. The answer was awaited under `wait_timeout`, and
  -- `com_timeout` is in force again.
  pub remote_call-answered :
      (d : ℕ) (h : Helper) (args : List Tree) (vs : List Value) (ts : List Tree) (rs : List Value)
      (g : G) (s : State G)
      → Usable h s
      → HoldsAll lua m s.tpt s.self d s.lua args vs
      → length args ≡ length vs
      → BuildsAll lua m s.tpt ts s.lua rs g
      → length ts < 2 ^ 31
      → Linked m s
      → remote_call lua m d h vs (
          feed
            (rpc_ready ∷ (0 ∷ (wire s.tpt.net_little 4 (length ts) ++ enc_all s.tpt.net_little ts)))
            s)
        ≡ ok (length ts) (
            emit
              (rpc_cmd_call
                ∷ (sent_name s h
                    ++ (wire s.tpt.net_little 4 (length args) ++ enc_all s.tpt.net_little args)))
              (timed in_com (pushed rs g s)))
  unfolding remote_call Builds
  remote_call-answered d h args vs ts rs g s u hs e b lt l =
      let le = s.tpt.net_little in
      let answer = wire le 4 (length ts) ++ enc_all le ts in
      let asked = rpc_cmd_call ∷ (sent_name s h ++ (wire le 4 (length args) ++ enc_all le args)) in
      let s₁ : State G = emit asked (timed in_wait (feed answer s)) in
      let s₂ : State G = emit asked (timed in_com s) in
      let l₂ : Linked m s₂ = record {
        works = record { opened = l.works.opened; unbroken = l.works.unbroken };
        agree = l.agree;
      } in
      rw (
        send_call-feed d h args vs (0 ∷ answer) s u hs e l,
        read_uint8-feed s₁ 0 l.works.opened,
        take_results-feed ts rs g s₂ b lt l₂,
      )
