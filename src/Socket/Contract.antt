-- ===== src/Socket/Contract.antt =====
-- What a read of `transport_read_buffer` is to do over any link: the contract `read_buffer` that the
-- protocol is modelled on, and the outcomes of a loop that implements it.
use luarpc.Base.{
  leb, ℕ, ◌+◌, ◌<◌, ◌≡◌, refl, sym, ap, ◌∙◌, Bytes, true, false, [], ◌++◌, length, length-append,
  append_assoc, arith,
}
use mathlib.Core.Path.{subst, subst₂}
use luarpc.State.{State, Run, ok, throw, read_buffer, is_open}
use luarpc.Errors.{nonfatal, fatal, err_closed, exception}
use luarpc.Transport.{Transport}
use luarpc.Wire.Laws.{feed, read_buffer-feed}
use luarpc.Socket.{IoRun, finished, thrown}

-- What a run of the contract and one of the loop have in common: the same bytes, and the same
-- bytes still to come; or exceptions of one type, and of one number on a closed transport.
pub data Implements {G W : Type 0} (stream : W → Bytes) : Run G Bytes → IoRun W Bytes → Type 0 where
  same :
      {bs : Bytes} {s : State G} {t : Transport} {w : W}
      → stream w ≡ s.input
      → Implements stream (ok bs s) (finished bs t w)
  both_fail :
      {s : State G} {e e' : ℕ} {t : Transport} {w : W}
      → Implements stream (throw (exception nonfatal e) s) (thrown (exception nonfatal e') t w)
  both_closed :
      {s : State G} {t : Transport} {w : W}
      → Implements stream
          (throw (exception fatal err_closed) s)
          (thrown (exception fatal err_closed) t w)

module _ {G : Type 0} where
  pub read_buffer-enough :
      (n : ℕ) (s : State G) (xs rest : Bytes)
      → is_open s.tpt ≡ true
      → s.input ≡ xs ++ rest
      → length xs ≡ n
      → read_buffer n s ≡ ok xs (record s { input = rest })
  read_buffer-enough n s xs rest o b l =
      ap (λ i. read_buffer n (record s { input = i })) b
      ∙ ap (λ k. read_buffer k (feed xs (record s { input = rest }))) (sym l)
      ∙ read_buffer-feed (record s { input = rest }) xs o

  pub read_buffer-few :
      (n : ℕ) (s : State G)
      → is_open s.tpt ≡ true
      → leb n (length s.input) ≡ false
      → read_buffer n s ≡ throw (exception nonfatal s.errno) (record s { input = [] })
  unfolding read_buffer
  read_buffer-few n s o h = simp (o, h)

  pub read_buffer-closed :
      (n : ℕ) (s : State G)
      → is_open s.tpt ≡ false
      → read_buffer n s ≡ throw (exception fatal err_closed) s
  unfolding read_buffer
  read_buffer-closed n s o = simp o

-- The outcome of a read over any transport that fails only at the end of its stream.
module _ {W : Type 0} (stream : W → Bytes) where
  -- A read of `n` bytes behind `got`, where `bs` is to come.
  pub data Got (n : ℕ) (got bs : Bytes) : IoRun W Bytes → Type 0 where
    complete :
        {t : Transport} {w : W} (xs : Bytes) {whole : Bytes}
        → whole ≡ got ++ xs
        → bs ≡ xs ++ stream w
        → length xs ≡ n
        → Got n got bs (finished whole t w)
    ended :
        {t : Transport} {w : W} {e : ℕ}
        → length bs < n
        → Got n got bs (thrown (exception nonfatal e) t w)

  pub Got-extend :
      (n left : ℕ) (got xs bs rest : Bytes) {r : IoRun W Bytes}
      → bs ≡ xs ++ rest
      → length xs + left ≡ n
      → Got left (got ++ xs) rest r
      → Got n got bs r
  Got-extend n left got xs bs rest e l (complete ys w b c) =
      complete (xs ++ ys) (w ∙ append_assoc got xs ys)
        (e ∙ ap (λ z. xs ++ z) b ∙ sym (append_assoc xs ys _)) (omega (arith, length-append xs ys))
  Got-extend n left got xs bs rest e l (ended h) =
      let whole = ap length e in ended (omega (arith, length-append xs rest))

  pub Got-Implements :
      {G : Type 0} (n : ℕ) (s : State G) (r : IoRun W Bytes)
      → is_open s.tpt ≡ true
      → Got n [] s.input r
      → Implements stream (read_buffer n s) r
  Got-Implements n s r o (complete {t} {w} xs {whole} e b l) =
      subst₂ (Implements stream) (sym (read_buffer-enough n s xs (stream w) o b l))
        (ap (λ z. finished z t w) (sym e)) (same refl)
  Got-Implements n s r o (ended {t} {w} {e} l) =
      let few : leb n (length s.input) ≡ false = ground arith in
      subst (λ z. Implements stream z (thrown (exception nonfatal e) t w))
        (sym (read_buffer-few n s o few)) both_fail
