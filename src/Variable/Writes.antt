-- ===== src/Variable/Writes.antt =====
-- `write_variable` (luarpc_protocol.c) sends the encoding of the tree that the value holds.
use luarpc.Base.{
  ℕ, zero, suc, ◌%◌, ◌^◌, ◌<◌, ◌≡◌, sym, ap, ◌∙◌, Bytes, List, [], ◌∷◌, ◌++◌, length, arith,
  if◌then◌else◌,
}
use luarpc.Codes.{
  rpc_nil, rpc_number, rpc_boolean, rpc_string, rpc_table, rpc_table_end, rpc_function,
  rpc_function_end, rpc_remote,
}
use luarpc.Machine.{Machine}
use luarpc.Lua.{Value, Lua}
use luarpc.State.{State, Cmd, ok, ◌>>◌, push}
use luarpc.Wire.{write_number, write_uint8, write_uint32, write_string}
use luarpc.Wire.Words.{wire}
use luarpc.Wire.Laws.{
  emit, Works, Works-emit, seq-emit, emit-nil, emit-emit, write_uint8-emit, write_uint32-emit,
  write_string-emit, write_number-emit,
}
use luarpc.Helper.{helper_remote_index}
use luarpc.Helper.Remote.{helper_remote_index-emit}
use luarpc.Variable.{pop, write_pairs, write_text, write_variable}
use luarpc.Variable.Tree.{
  Tree, Pairs, nil, number, boolean, string, table, function, remote, done, pair, enc, enc_pairs,
  enc_text, size, size_pairs, Holds, HoldsPairs,
}

module _ {G : Type 0} (lua : Lua G) (m : Machine) where
  write_text-emit :
      (b : Bytes) (s : State G)
      → length b < 2 ^ 31
      → m.little ≡ s.tpt.loc_little
      → Works s
      → write_text lua m b s ≡ ok tt (emit (rpc_string ∷ enc_text s.tpt.net_little b) s)
  unfolding write_text
  write_text-emit b s h a w =
      let whole : length b % 2 ^ 32 ≡ length b = omega arith in
      let s₁ = emit (rpc_string ∷ []) s in
      let w₁ = Works-emit s (rpc_string ∷ []) w in
      let word = wire s.tpt.net_little 4 (length b) in
      rw whole (
        seq-emit (write_uint8 rpc_string) (write_uint32 m (length b) >> write_string b (length b)) s
          (rpc_string ∷ []) (enc_text s.tpt.net_little b) (write_uint8-emit s rpc_string w)
          (seq-emit (write_uint32 m (length b)) (write_string b (length b)) s₁ word b
            (write_uint32-emit m s₁ a (length b) w₁)
            (write_string-emit (emit word s₁) b (Works-emit s₁ word w₁) h)))

  -- Behind its tag.
  tagged :
      (tag : ℕ) (p : Cmd G (Unit {0})) (s : State G) (bs : Bytes)
      → Works s
      → p (emit (tag ∷ []) s) ≡ ok tt (emit bs (emit (tag ∷ []) s))
      → (write_uint8 tag >> p) s ≡ ok tt (emit (tag ∷ bs) s)
  tagged tag p s bs w h = seq-emit (write_uint8 tag) p s (tag ∷ []) bs (write_uint8-emit s tag w) h

  write_string_variable :
      (f : ℕ) (b : Bytes) (s : State G)
      → 0 < f
      → length b < 2 ^ 31
      → m.little ≡ s.tpt.loc_little
      → Works s
      → write_variable lua m f (Value.string b) s
        ≡ ok tt (emit (rpc_string ∷ enc_text s.tpt.net_little b) s)
  unfolding write_variable
  write_string_variable zero b s lt h a w = absurd (omega arith)
  write_string_variable (suc f) b s lt h a w = write_text-emit b s h a w

  mutual
    unfolding write_variable enc size Holds

    write_Holds :
        (t : Tree) (f : ℕ) (v : Value) (s : State G)
        → Holds lua m s.tpt s.self s.lua t v
        → size t < f
        → m.little ≡ s.tpt.loc_little
        → Works s
        → write_variable lua m f v s ≡ ok tt (emit (enc s.tpt.net_little t) s)
    write_Holds t zero v s h lt a w = absurd (omega arith)
    write_Holds nil (suc f) v s h lt a w = rw h (write_uint8-emit s rpc_nil w)
    write_Holds (number x) (suc f) v s (y, e, n) lt a w = rw e (
        tagged rpc_number (write_number m y) s x w
          (write_number-emit m (emit (rpc_number ∷ []) s) y x n (Works-emit s (rpc_number ∷ []) w)))
    write_Holds (boolean b) (suc f) v s h lt a w =
        let c : ℕ = if b then 1 else 0 in
        rw h (
          tagged rpc_boolean (write_uint8 c) s (c ∷ []) w
            (write_uint8-emit (emit (rpc_boolean ∷ []) s) c (Works-emit s (rpc_boolean ∷ []) w)))
    write_Holds (string b) (suc f) v s (e, l) lt a w = rw e (write_text-emit b s l a w)
    write_Holds (table ps) (suc f) v s (r, e, hs) lt a w =
        let s₁ = emit (rpc_table ∷ []) s in
        let w₁ = Works-emit s (rpc_table ∷ []) w in
        let body = enc_pairs s.tpt.net_little ps in
        let write = write_pairs lua m (write_variable lua m f) (lua.entries s.lua r) in
        rw e (
          tagged rpc_table (write >> write_uint8 rpc_table_end) s (body ++ rpc_table_end ∷ []) w (
            seq-emit write (write_uint8 rpc_table_end) s₁ body (rpc_table_end ∷ [])
              (write_HoldsPairs ps f (lua.entries s.lua r) s₁ hs (omega arith) a w₁)
              (write_uint8-emit (emit body s₁) rpc_table_end (Works-emit s₁ body w₁))))
    write_Holds (function code) (suc f) v s (r, e, d, l) lt a w =
        let s₁ = emit (rpc_function ∷ []) s in
        let w₁ = Works-emit s (rpc_function ∷ []) w in
        let s₂ : State G = record s₁ { stack = Value.string code ∷ (Value.function r ∷ s.stack) } in
        let text = rpc_string ∷ enc_text s.tpt.net_little code in
        let dump = Value.string code in
        rw (e, d)
          (tagged rpc_function
            (push (Value.function r)
              >> (push dump
                  >> (write_variable lua m f dump >> (pop 2 >> write_uint8 rpc_function_end))))
            s (text ++ rpc_function_end ∷ []) w
            (rw
              (write_string_variable f code s₂ (omega arith) l a
                (record { opened = w.opened; unbroken = w.unbroken }))
              (write_uint8-emit (emit text s₁) rpc_function_end (Works-emit s₁ text w₁)
                ∙ ap (ok tt) (emit-emit s₁ text (rpc_function_end ∷ [])))))
    write_Holds (remote name) (suc f) v s (h, e, c, d, o, len, n) lt a w =
        let s₁ = emit (rpc_remote ∷ []) s in
        let sent = helper_remote_index-emit m h s₁ c d o a (Works-emit s (rpc_remote ∷ []) w) in
        rw e (
          tagged rpc_remote (helper_remote_index m h) s (enc_text s.tpt.net_little name) w
            (rw (len, n) at sent))

    write_HoldsPairs :
        (ps : Pairs) (f : ℕ) (es : List (Value × Value)) (s : State G)
        → HoldsPairs lua m s.tpt s.self s.lua ps es
        → size_pairs ps < f
        → m.little ≡ s.tpt.loc_little
        → Works s
        → write_pairs lua m (write_variable lua m f) es s
          ≡ ok tt (emit (enc_pairs s.tpt.net_little ps) s)
    write_HoldsPairs done f es s h lt a w = rw h (ap (ok tt) (sym (emit-nil s)))
    write_HoldsPairs (pair k v ps) f es s (x, y, rest, e, hk, hv, hs) lt a w =
        let le = s.tpt.net_little in
        let s₂ : State G = record s { stack = y ∷ (x ∷ s.stack) } in
        let w₂ : Works s₂ = record { opened = w.opened; unbroken = w.unbroken } in
        let s₃ = emit (enc le v) (emit (enc le k) s) in
        let w₃ : Works s₃ = record { opened = w.opened; unbroken = w.unbroken } in
        rw
          (
            e,
            write_Holds k f x s₂ hk (omega arith) a w₂,
            write_Holds v f y (emit (enc le k) s₂) hv (omega arith) a (Works-emit s₂ (enc le k) w₂),
          )
          (write_HoldsPairs ps f rest s₃ hs (omega arith) a w₃
            ∙ ap (ok tt) (
                emit-emit (emit (enc le k) s) (enc le v) (enc_pairs le ps)
                ∙ emit-emit s (enc le k) (enc le v ++ enc_pairs le ps)))

  -- A value that holds a tree, written on an open link by a machine that knows its byte order,
  -- with more fuel than the tree is large: the tree's encoding is sent, and nothing else changes.
  pub write_variable-enc :
      (t : Tree) (f : ℕ) (v : Value) (s : State G)
      → Holds lua m s.tpt s.self s.lua t v
      → size t < f
      → m.little ≡ s.tpt.loc_little
      → Works s
      → write_variable lua m f v s ≡ ok tt (emit (enc s.tpt.net_little t) s)
  write_variable-enc = write_Holds
