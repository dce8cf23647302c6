-- ===== src/Helper/Remote.antt =====
-- What `helper_remote_index` (luarpc_protocol.c) sends for a chain of helpers, and the length
-- that it announces.
use luarpc.Base.{
  ◌≢◌, ℕ, suc, ◌+◌, ◌-◌, ◌%◌, ◌<◌, ◌≡◌, ◌↔◌, refl, sym, ap, ◌∙◌, Bytes, Option, some, List, [], ◌∷◌,
  ◌++◌, length, length-append, append_assoc, arith, lt→ltb, ==_self,
}
use luarpc.Machine.{Machine}
use luarpc.Lua.{Helper, root, child}
use luarpc.State.{State, ok, ◌>>◌}
use luarpc.Wire.Words.{wire}
use luarpc.Wire.Laws.{
  emit, Works, Works-emit, seq-emit, emit-nil, write_string-emit, write_uint32-emit,
}
use luarpc.Helper.{
  handle, nparents, funcname, fill_hstack, send_word, send_chars, replay, helper_remote_index,
}

-- As `helper_create` and `helper_append` build them: the count of parents is one byte, the
-- transport is that of the parent, and a name has at most 19 characters.
abbrev pub IsChain : Helper → Type 0
IsChain (root h n p f) = (n ≡ 0) × (length f < 20)
IsChain (child q h n p f) =
    (n ≡ (nparents q + 1) % 256) × (h ≡ handle q) × (length f < 20) × IsChain q

abbrev pub depth : Helper → ℕ
depth (root h n p f) = 0
depth (child q h n p f) = suc (depth q)

abbrev pub root_name : Helper → Bytes
root_name (root h n p f) = f
root_name (child q h n p f) = root_name q

-- The names from the root on, with dots between them.
unfoldable pub joined : Helper → Bytes
joined (root h n p f) = f
joined (child q h n p f) = joined q ++ b'.' ∷ f

-- The length of the names below the root, each with its dot.
abbrev below_root : Helper → ℕ
below_root (root h n p f) = 0
below_root (child q h n p f) = length f + 1 + below_root q

-- The length that is announced.
unfoldable pub announced : Helper → ℕ
announced (root h n p f) = length f
announced (child q h n p f) = length f + length (funcname q) + 1 + below_root q

length-joined : (h : Helper) → length (joined h) ≡ length (root_name h) + below_root h
unfolding joined
length-joined (root h n p f) = omega arith
length-joined (child q h n p f) =
    omega (arith, length-append (joined q) (b'.' ∷ f), length-joined q)

-- For a helper with a parent, the length announced is the length of the name sent exactly if the
-- names of the parent and of the first helper are of one length.
announced-eq-length :
    (q : Helper) (h n : ℕ) (p : Option ℕ) (f : Bytes)
    → (announced (child q h n p f) ≡ length (joined (child q h n p f)))
      ↔ (length (root_name q) ≡ length (funcname q))
unfolding announced
announced-eq-length q h n p f =
    let e = length-joined (child q h n p f) in (λ k. omega arith, λ k. omega arith)

nparents-depth : (h : Helper) → IsChain h → depth h < 256 → nparents h ≡ depth h
nparents-depth (root h n p f) c d = c.0
nparents-depth (child q h n p f) c d = let ih = nparents-depth q c.3 (omega arith) in omega arith

-- The parents of `h` in front of `acc`, the root first.
abbrev up : Helper → List Helper → List Helper
up (root h n p f) acc = acc
up (child q h n p f) acc = up q (q ∷ acc)

fill_hstack-up :
    (h : Helper) (acc : List Helper) (len : ℕ)
    → fill_hstack (depth h) h acc len ≡ some (up h acc, len + below_root h)
unfolding fill_hstack
fill_hstack-up (root h n p f) acc len = ap (λ k. some (acc, k)) (omega arith)
fill_hstack-up (child q h n p f) acc len =
    fill_hstack-up q (q ∷ acc) (len + length f + 1)
    ∙ ap (λ k. some (up q (q ∷ acc), k)) (omega arith)

-- The names of `hs`, each with a dot behind it.
abbrev dotted : List Helper → Bytes
dotted [] = []
dotted (h ∷ hs) = funcname h ++ b'.' ∷ dotted hs

abbrev AllShort : List Helper → Type 0
AllShort [] = Unit {0}
AllShort (h ∷ hs) = (length (funcname h) < 20) × AllShort hs

dotted-up :
    (h : Helper) (acc : List Helper) → dotted (up h (h ∷ acc)) ≡ joined h ++ b'.' ∷ dotted acc
unfolding joined
dotted-up (root h n p f) acc = refl
dotted-up (child q h n p f) acc =
    dotted-up q (child q h n p f ∷ acc)
    ∙ sym (append_assoc (joined q) (b'.' ∷ f) (b'.' ∷ dotted acc))

IsChain-short : (h : Helper) → IsChain h → length (funcname h) < 20
IsChain-short (root h n p f) c = c.1
IsChain-short (child q h n p f) c = c.2

AllShort-up : (h : Helper) (acc : List Helper) → IsChain h → AllShort acc → AllShort (up h acc)
AllShort-up (root h n p f) acc c a = a
AllShort-up (child q h n p f) acc c a = AllShort-up q (q ∷ acc) c.3 (IsChain-short q c.3, a)

module _ {G : Type 0} where
  send_chars-emit :
      (s : State G) (h : ℕ) (b : Bytes)
      → Works s
      → h ≡ s.self
      → length b < 20
      → send_chars h b s ≡ ok tt (emit b s)
  unfolding send_chars
  send_chars-emit s h b w e l = rw (e, ==_self s.self) (write_string-emit s b w (omega arith))

  replay-emit :
      (s : State G) (h : ℕ) (hs : List Helper)
      → Works s
      → h ≡ s.self
      → AllShort hs
      → replay h hs s ≡ ok tt (emit (dotted hs) s)
  unfolding replay
  replay-emit s h [] w e a = ap (ok tt) (sym (emit-nil s))
  replay-emit s h (x ∷ hs) w e a =
      let s₁ = emit (funcname x) s in
      let w₁ = Works-emit s (funcname x) w in
      let w₂ = Works-emit s₁ (b'.' ∷ []) w₁ in
      seq-emit (send_chars h (funcname x)) (send_chars h (b'.' ∷ []) >> replay h hs) s (funcname x)
        (b'.' ∷ dotted hs) (send_chars-emit s h (funcname x) w e a.0)
        (seq-emit (send_chars h (b'.' ∷ [])) (replay h hs) s₁ (b'.' ∷ []) (dotted hs)
          (send_chars-emit s₁ h (b'.' ∷ []) w₁ e (omega arith))
          (replay-emit (emit (b'.' ∷ []) s₁) h hs w₂ e a.1))

  send_word-emit :
      (m : Machine) (s : State G) (h x : ℕ)
      → Works s
      → h ≡ s.self
      → m.little ≡ s.tpt.loc_little
      → send_word m h x s ≡ ok tt (emit (wire s.tpt.net_little 4 x) s)
  unfolding send_word
  send_word-emit m s h x w e a = rw (e, ==_self s.self) (write_uint32-emit m s a x w)

  -- A chain of fewer than 256 parents, on the helper's own transport: the word that is announced,
  -- then the names from the root on with dots between them, and nothing else.
  pub helper_remote_index-emit :
      (m : Machine) (h : Helper) (s : State G)
      → IsChain h
      → depth h < 256
      → handle h ≡ s.self
      → m.little ≡ s.tpt.loc_little
      → Works s
      → helper_remote_index m h s
        ≡ ok tt (emit (wire s.tpt.net_little 4 (announced h) ++ joined h) s)
  unfolding helper_remote_index announced joined
  helper_remote_index-emit m (root h n p f) s c d e a w =
      let word = wire s.tpt.net_little 4 (length f) in
      rw (c.0) (
        seq-emit (send_word m h (length f)) (send_chars h f) s word f
          (send_word-emit m s h (length f) w e a)
          (send_chars-emit (emit word s) h f (Works-emit s word w) e c.1))
  helper_remote_index-emit m (child q h n p f) s c d e a w =
      let len = length f + length (funcname q) + 1 + below_root q in
      let word = wire s.tpt.net_little 4 len in
      let hs = up q (q ∷ []) in
      let s₁ = emit word s in
      let w₁ = Works-emit s word w in
      let names = replay-emit s₁ h hs w₁ e (AllShort-up q (q ∷ []) c.3 (IsChain-short q c.3, tt)) in
      let count : n ≡ suc (depth q) = nparents-depth (child q h n p f) c d in
      let rounds : suc (depth q) - 1 ≡ depth q = omega arith in
      let bytes : dotted hs ++ f ≡ joined q ++ b'.' ∷ f =
        ap (λ t. t ++ f) (dotted-up q []) ∙ append_assoc (joined q) (b'.' ∷ []) f in
      rw
        (
          count,
          lt→ltb 0 (suc (depth q)) (omega arith),
          rounds,
          fill_hstack-up q (q ∷ []) (length f + length (funcname q) + 1),
          ← bytes,
        )
        (seq-emit (send_word m h len) (replay h hs >> send_chars h f) s word (dotted hs ++ f)
          (send_word-emit m s h len w e a)
          (seq-emit (replay h hs) (send_chars h f) s₁ (dotted hs) f names
            (send_chars-emit (emit (dotted hs) s₁) h f (Works-emit s₁ (dotted hs) w₁) e c.2)))

  -- A helper whose parent's name is not as long as the first helper's: the word that is sent in
  -- front of the name is not the length of the name.
  pub helper_remote_index-misframed :
      (m : Machine) (q : Helper) (h n : ℕ) (p : Option ℕ) (f : Bytes) (s : State G)
      → IsChain (child q h n p f)
      → depth (child q h n p f) < 256
      → h ≡ s.self
      → m.little ≡ s.tpt.loc_little
      → Works s
      → length (root_name q) ≢ length (funcname q)
      → (len : ℕ) × (helper_remote_index m (child q h n p f) s
          ≡ ok tt (emit (wire s.tpt.net_little 4 len ++ joined (child q h n p f)) s))
        × (len ≢ length (joined (child q h n p f)))
  helper_remote_index-misframed m q h n p f s c d e a w ne = (
    announced (child q h n p f),
    helper_remote_index-emit m (child q h n p f) s c d e a w,
    λ eq. ne ((announced-eq-length q h n p f).0 eq),
  )
