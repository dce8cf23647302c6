-- ===== src/Server/Failures.antt =====
-- What `rpc_dispatch_worker` (luarpc_protocol.c) does on a command that cannot be served.
use luarpc.Base.{
  ℕ, ◌^◌, ◌<◌, ◌≡◌, ◌≢◌, refl, Bytes, true, false, [], ◌∷◌, drop, length, arith, ◌==◌,
}
use luarpc.Codes.{
  rpc_cmd_call, rpc_cmd_get, rpc_cmd_con, rpc_cmd_newindex, rpc_ready, rpc_unsupported_cmd,
}
use luarpc.Machine.{Machine}
use luarpc.Lua.{Lua}
use luarpc.State.{State, ok, fault}
use luarpc.Wire.Laws.{emit, feed, Works, Works-emit, Linked, read_uint8-feed, write_uint8-emit}
use luarpc.Negotiate.{server_negotiate}
use luarpc.Negotiate.Agreement.{hello}
use luarpc.Variable.Tree.{enc_text}
use luarpc.Variable.Name.{tokens, get_path}
use luarpc.Server.{rpc_dispatch_worker}
use luarpc.Server.Replies.{read_name-feed}

-- `s` with its transport marked for removal.
abbrev pub doomed : {G : Type 0} → State G → State G
doomed s = record s { tpt = record s.tpt { must_die = true } }

module _ {G : Type 0} (lua : Lua G) (m : Machine) where
  -- A client of any machine that begins a handshake on a connection already served: the server
  -- writes nothing, consumes the command and the first byte of the header, and marks the
  -- transport for removal.
  pub dispatch-renegotiation :
      (d : ℕ) (mc : Machine) (s : State G)
      → Works s
      → rpc_dispatch_worker lua m d (feed (rpc_cmd_con ∷ hello mc) s)
        ≡ ok tt (doomed (feed (drop 1 (hello mc)) s))
  unfolding rpc_dispatch_worker server_negotiate
  dispatch-renegotiation d mc s w =
      rw
        (
          read_uint8-feed (feed (hello mc) s) rpc_cmd_con w.opened,
          read_uint8-feed (feed (drop 1 (hello mc)) s) b'L' w.opened,
        )
        refl

  -- A command byte that is none of the four: the server answers that it is not supported, and
  -- marks the transport for removal.
  dispatch-unsupported :
      (d cmd : ℕ) (s : State G)
      → cmd ≢ rpc_cmd_call
      → cmd ≢ rpc_cmd_get
      → cmd ≢ rpc_cmd_con
      → cmd ≢ rpc_cmd_newindex
      → Works s
      → rpc_dispatch_worker lua m d (feed (cmd ∷ []) s)
        ≡ ok tt (doomed (emit (rpc_unsupported_cmd ∷ []) s))
  unfolding rpc_dispatch_worker
  dispatch-unsupported d cmd s a b c e w =
      let a' : (cmd == 1) ≡ false = ground arith in
      let b' : (cmd == 2) ≡ false = ground arith in
      let c' : (cmd == 3) ≡ false = ground arith in
      let e' : (cmd == 4) ≡ false = ground arith in
      rw (read_uint8-feed s cmd w.opened, a', b', c', e', write_uint8-emit s rpc_unsupported_cmd w)
        refl

  -- A request for a name in which `strtok` finds nothing: the server passes a null pointer to Lua.
  pub dispatch-no_name :
      (d : ℕ) (name : Bytes) (s : State G)
      → tokens name ≡ []
      → length name < 2 ^ 31
      → Linked m s
      → rpc_dispatch_worker lua m d (feed (rpc_cmd_get ∷ enc_text s.tpt.net_little name) s) ≡ fault
  unfolding rpc_dispatch_worker get_path
  dispatch-no_name d name s e h l =
      let text = enc_text s.tpt.net_little name in
      let s₁ = emit (rpc_ready ∷ []) s in
      rw
        (
          read_uint8-feed (feed text s) rpc_cmd_get l.works.opened,
          write_uint8-emit (feed text s) rpc_ready
              (record { opened = l.works.opened; unbroken = l.works.unbroken }),
          read_name-feed lua m name s₁ h
              (record { works = Works-emit s (rpc_ready ∷ []) l.works; agree = l.agree }),
          e,
        )
        refl
