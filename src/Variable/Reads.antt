-- ===== src/Variable/Reads.antt =====
-- `read_variable` (luarpc_protocol.c) on the encoding of a tree builds the tree.
use luarpc.Base.{
  ℕ, zero, suc, ◌-◌, ◌^◌, ◌≤◌, ◌<◌, ◌≡◌, sym, ap, ◌∙◌, Bytes, Bool, true, false, some, List, [],
  ◌∷◌, ◌++◌, length, length-append, append_assoc, arith, lt→ltb, le→leb,
}
use luarpc.Codes.{
  rpc_nil, rpc_number, rpc_boolean, rpc_string, rpc_table, rpc_table_end, rpc_function,
  rpc_function_end, rpc_remote,
}
use luarpc.Machine.{Machine}
use luarpc.Lua.{Value, Lua, returned}
use luarpc.State.{State, ok, is_open}
use luarpc.Wire.{read_uint32, read_string}
use luarpc.Wire.Words.{wire}
use luarpc.Wire.Laws.{
  feed, feed-append, read_uint8-feed, read_uint32-feed, read_string-feed, read_number-feed,
}
use luarpc.Variable.Name.{tokens, get_fields, get_path, read_index}
use luarpc.Variable.{raw_set, table_loop, function_loop, read_variable, read_value}
use luarpc.Variable.Tree.{
  Tree, Pairs, nil, number, boolean, string, table, function, remote, done, pair, enc, enc_pairs,
  enc_text, size, size_pairs, size_pos, Fields, PathTo, Builds, BuildsPairs,
}

-- `s` with `v` pushed and the Lua state `g`.
abbrev pub built : {G : Type 0} → Value → G → State G → State G
built v g s = record s { stack = v ∷ s.stack; lua = g }

module _ {G : Type 0} (lua : Lua G) (m : Machine) where
  get_fields-Fields :
      (ts : List Bytes) (a : Value) (s : State G) (v : Value) (g : G)
      → Fields lua ts a s.lua v g
      → get_fields lua ts a s ≡ ok v (record s { lua = g })
  unfolding get_fields Fields
  get_fields-Fields [] a s v g (e, e') = λ i. ok (sym e i) (record s { lua = sym e' i })
  get_fields-Fields (t ∷ ts) a s v g (b, g₁, e, h) =
      rw e (get_fields-Fields ts b (record s { lua = g₁ }) v g h)

  pub get_path-PathTo :
      (ts : List Bytes) (s : State G) (v : Value) (g : G)
      → PathTo lua ts s.lua v g
      → get_path lua ts s ≡ ok tt (built v g s)
  unfolding get_path PathTo
  get_path-PathTo [] s v g h = absurd h
  get_path-PathTo (t ∷ ts) s v g (b, g₁, e, h) =
      rw (e, get_fields-Fields ts b (record s { lua = g₁ }) v g h)

  -- A text: its length and its bytes.
  pub read_text :
      (b : Bytes) (s : State G)
      → length b < 2 ^ 31
      → m.little ≡ s.tpt.loc_little
      → is_open s.tpt ≡ true
      → (read_uint32 m (feed (enc_text s.tpt.net_little b) s) ≡ ok (length b) (feed b s))
        × (read_string (length b) (feed b s) ≡ ok b s)
  read_text b s h a o =
      let word = wire s.tpt.net_little 4 (length b) in
      (
        rw (feed-append s word b) (read_uint32-feed m (feed b s) a (length b) (omega arith) o),
        read_string-feed s b o h,
      )

  read_index-PathTo :
      (name : Bytes) (s : State G) (v : Value) (g : G)
      → PathTo lua (tokens name) s.lua v g
      → length name < 2 ^ 31
      → m.little ≡ s.tpt.loc_little
      → is_open s.tpt ≡ true
      → read_index lua m (feed (enc_text s.tpt.net_little name) s) ≡ ok tt (built v g s)
  unfolding read_index
  read_index-PathTo name s v g p h a o =
      let r = read_text name s h a o in rw (r.0, r.1) (get_path-PathTo (tokens name) s v g p)

  -- `lua_rawset` with key and value on a table just below.
  raw_set-returned :
      (s : State G) (r : ℕ) (k v : Value) (g : G)
      → lua.rawset s.lua r k v ≡ returned tt g
      → raw_set lua m
          (suc (length s.stack))
          (record s { stack = v ∷ (k ∷ (Value.table r ∷ s.stack)) })
        ≡ ok tt (record s { stack = Value.table r ∷ s.stack; lua = g })
  unfolding raw_set
  raw_set-returned s r k v g e =
      let n = length s.stack in
      let index : suc (suc (suc n)) - suc n ≡ 2 = omega arith in
      rw
        (lt→ltb 0 (suc n) (omega arith), le→leb (suc n) (suc (suc (suc n))) (omega arith), index, e)

  read_string_variable :
      (f : ℕ) (b : Bytes) (s : State G)
      → 0 < f
      → length b < 2 ^ 31
      → m.little ≡ s.tpt.loc_little
      → is_open s.tpt ≡ true
      → read_variable lua m f (feed (rpc_string ∷ enc_text s.tpt.net_little b) s)
        ≡ ok true (built (Value.string b) s.lua s)
  unfolding read_variable
  read_string_variable zero b s lt l a o = absurd (omega arith)
  read_string_variable (suc f) b s lt l a o =
      let r = read_text b s l a o in
      rw (read_uint8-feed (feed (enc_text s.tpt.net_little b) s) rpc_string o, r.0, r.1)

  read_function_end :
      (f : ℕ) (s : State G)
      → 0 < f
      → is_open s.tpt ≡ true
      → read_variable lua m f (feed (rpc_function_end ∷ []) s) ≡ ok false s
  unfolding read_variable
  read_function_end zero s lt o = absurd (omega arith)
  read_function_end (suc f) s lt o = rw (read_uint8-feed s rpc_function_end o)

  -- One string and the end marker: the string gives way to what the compiler makes of it.
  function_loop-code :
      (f k : ℕ) (b : Bytes) (s : State G) (v : Value) (g : G)
      → lua.loadbuffer s.lua b ≡ (v, g)
      → length b < 2 ^ 31
      → lua.tolstring s.lua (Value.string b) ≡ some b
      → 0 < f
      → 1 < k
      → m.little ≡ s.tpt.loc_little
      → is_open s.tpt ≡ true
      → function_loop lua m
          (read_variable lua m f)
          k
          (feed ((rpc_string ∷ enc_text s.tpt.net_little b) ++ rpc_function_end ∷ []) s)
        ≡ ok tt (built v g s)
  unfolding function_loop
  function_loop-code f zero b s v g e l c hf hk a o = absurd (omega arith)
  function_loop-code f (suc zero) b s v g e l c hf hk a o = absurd (omega arith)
  function_loop-code f (suc (suc k)) b s v g e l c hf hk a o =
      let text = rpc_string ∷ enc_text s.tpt.net_little b in
      let s₁ = feed (rpc_function_end ∷ []) s in
      rw (
        feed-append s text (rpc_function_end ∷ []),
        read_string_variable f b s₁ hf l a o,
        c,
        e,
        read_function_end f (built v g s) hf o,
      )

  feed-three :
      (s : State G) (xs ys zs end : Bytes)
      → feed ((xs ++ (ys ++ zs)) ++ end) s ≡ feed xs (feed ys (feed (zs ++ end) s))
  feed-three s xs ys zs end =
      ap (λ bs. feed bs s)
        (append_assoc xs (ys ++ zs) end ∙ ap (λ bs. xs ++ bs) (append_assoc ys zs end))
      ∙ feed-append s xs (ys ++ (zs ++ end))
      ∙ ap (feed xs) (feed-append s ys (zs ++ end))

  mutual
    unfolding read_variable enc size Builds

    read_Builds :
        (t : Tree) (f : ℕ) (s : State G) (v : Value) (g : G)
        → Builds lua m s.tpt t s.lua v g
        → size t ≤ f
        → m.little ≡ s.tpt.loc_little
        → is_open s.tpt ≡ true
        → read_variable lua m f (feed (enc s.tpt.net_little t) s) ≡ ok true (built v g s)
    read_Builds t zero s v g h lt a o = absurd (omega (arith, size_pos t))
    read_Builds nil (suc f) s v g (e, e') lt a o = rw (read_uint8-feed s rpc_nil o, e, e')
    read_Builds (number w) (suc f) s v g (x, n, e, e') lt a o =
        rw (read_uint8-feed (feed w s) rpc_number o, read_number-feed m s x w n o, e, e')
    read_Builds (boolean true) (suc f) s v g (e, e') lt a o =
        rw (read_uint8-feed (feed (1 ∷ []) s) rpc_boolean o, read_uint8-feed s 1 o, e, e')
    read_Builds (boolean false) (suc f) s v g (e, e') lt a o =
        rw (read_uint8-feed (feed (0 ∷ []) s) rpc_boolean o, read_uint8-feed s 0 o, e, e')
    read_Builds (string b) (suc f) s v g (e, e', l) lt a o =
        let r = read_text b s l a o in
        rw (read_uint8-feed (feed (enc_text s.tpt.net_little b) s) rpc_string o, r.0, r.1, e, e')
    read_Builds (table ps) (suc f) s v g (e, h) lt a o =
        let r = (lua.newtable s.lua).0 in
        let body = enc_pairs s.tpt.net_little ps ++ rpc_table_end ∷ [] in
        rw (
          read_uint8-feed (feed body s) rpc_table o,
          read_BuildsPairs ps f f (record s { lua = (lua.newtable s.lua).1 }) r g h (omega arith)
              (omega arith) a o,
          e,
        )
    read_Builds (function code) (suc f) s v g (e, l, c) lt a o =
        let body = (rpc_string ∷ enc_text s.tpt.net_little code) ++ rpc_function_end ∷ [] in
        rw (
          read_uint8-feed (feed body s) rpc_function o,
          function_loop-code f f code s v g e l c (omega arith) (omega arith) a o,
        )
    read_Builds (remote name) (suc f) s v g (p, l) lt a o = rw (
      read_uint8-feed (feed (enc_text s.tpt.net_little name) s) rpc_remote o,
      read_index-PathTo name s v g p l a o,
    )

    read_BuildsPairs :
        (ps : Pairs) (f k : ℕ) (s : State G) (r : ℕ) (g : G)
        → BuildsPairs lua m s.tpt r ps s.lua g
        → size_pairs ps ≤ f
        → size_pairs ps ≤ k
        → m.little ≡ s.tpt.loc_little
        → is_open s.tpt ≡ true
        → table_loop lua m (read_variable lua m f) k (suc (length s.stack)) (
            feed
              (enc_pairs s.tpt.net_little ps ++ rpc_table_end ∷ [])
              (record s { stack = Value.table r ∷ s.stack }))
          ≡ ok tt (built (Value.table r) g s)
    read_BuildsPairs done f zero s r g h lf lk a o = absurd (omega arith)
    read_BuildsPairs done zero (suc k) s r g h lf lk a o = absurd (omega arith)
    read_BuildsPairs done (suc f) (suc k) s r g h lf lk a o =
        rw (read_uint8-feed (record s { stack = Value.table r ∷ s.stack }) rpc_table_end o, h)
    read_BuildsPairs (pair x y ps) f zero s r g h lf lk a o = absurd (omega (arith, size_pos x))
    read_BuildsPairs (pair x y ps) f (suc k) s r g (u, v, g₁, g₂, g₃, hx, hy, e, h) lf lk a o =
        let le = s.tpt.net_little in
        let more = enc_pairs le ps ++ rpc_table_end ∷ [] in
        let s₁ : State G = record s { stack = Value.table r ∷ s.stack } in
        let s₂ : State G = built u g₁ s₁ in
        rw
          (
            feed-three s₁ (enc le x) (enc le y) (enc_pairs le ps) (rpc_table_end ∷ []),
            read_Builds x f (feed (enc le y) (feed more s₁)) u g₁ hx (omega arith) a o,
            read_Builds y f (feed more s₂) v g₂ hy (omega arith) a o,
            raw_set-returned (record (feed more s) { lua = g₂ }) r u v g₃ e,
          )
          (read_BuildsPairs ps f k (record s { lua = g₃ }) r g h (omega arith)
            (omega (arith, size_pos x)) a o)

  mutual
    unfolding enc size

    size-le-enc : (t : Tree) (le : Bool) → size t ≤ length (enc le t)
    size-le-enc (table ps) le =
        omega (arith, size_pairs-le-enc ps le, length-append (enc_pairs le ps) (rpc_table_end ∷ []))
    size-le-enc (function code) le =
        omega (arith, length-append (enc_text le code) (rpc_function_end ∷ []))
    size-le-enc nil le = omega arith
    size-le-enc (number w) le = omega arith
    size-le-enc (boolean b) le = omega arith
    size-le-enc (string b) le = omega arith
    size-le-enc (remote name) le = omega arith

    size_pairs-le-enc : (ps : Pairs) (le : Bool) → size_pairs ps ≤ suc (length (enc_pairs le ps))
    size_pairs-le-enc done le = omega arith
    size_pairs-le-enc (pair k v ps) le = omega (
      arith,
      size-le-enc k le,
      size-le-enc v le,
      size_pairs-le-enc ps le,
      length-append (enc le k) (enc le v ++ enc_pairs le ps),
      length-append (enc le v) (enc_pairs le ps),
    )

  -- The encoding of a tree, whatever follows it: `read_variable`, with the fuel that it is given,
  -- consumes exactly the encoding, pushes one value, which is the tree built in the Lua state,
  -- and says that a value was read.
  pub read_value-enc :
      (t : Tree) (s : State G) (v : Value) (g : G)
      → Builds lua m s.tpt t s.lua v g
      → m.little ≡ s.tpt.loc_little
      → is_open s.tpt ≡ true
      → read_value lua m (feed (enc s.tpt.net_little t) s) ≡ ok true (built v g s)
  unfolding read_value
  read_value-enc t s v g h a o =
      let bs = enc s.tpt.net_little t in
      read_Builds t (suc (length (bs ++ s.input))) s v g h
        (omega (arith, size-le-enc t s.tpt.net_little, length-append bs s.input)) a o
