-- ===== src/Socket/Writing.antt =====
-- What `transport_write_buffer` (luarpc_socket.c) hands over, from what `fwrite` and `select`
-- promise.
use luarpc.Base.{
  ℕ, zero, suc, ◌+◌, ◌-◌, ◌≤◌, ◌<◌, ◌≡◌, refl, sym, ap, ◌∙◌, Bytes, Bool, true, false, [], ◌∷◌,
  ◌++◌, length, take, drop, ◌==◌, ◌&&◌, append_assoc, append-nil, length-drop, take-drop, arith,
}
use mathlib.Core.Path.{subst}
use luarpc.State.{is_open}
use luarpc.Errors.{nonfatal, exception}
use luarpc.Transport.{Timeval, Transport}
use luarpc.Socket.{
  Stdio, IoRun, finished, thrown, Io, wait, after_call, write_rounds, transport_write_buffer,
}
use luarpc.Socket.Reading.{opened-true}

-- What the calls promise: `fwrite` appends to the stream the bytes that it takes, the first ones;
-- `select` adds none. `patience` falls in each round that goes on with nothing written.
pub record Takes {W : Type 0} (io : Stdio W) (sent : W → Bytes) (patience : W → ℕ) : Type 0 where
  pub fwrite_next :
      (w : W) (bs : Bytes) → sent (io.fwrite w bs).1 ≡ sent w ++ take (io.fwrite w bs).0 bs
  pub fwrite_short : (w : W) (bs : Bytes) → (io.fwrite w bs).0 ≤ length bs
  pub select_sent : (w : W) (tv : Timeval) → sent (io.select_write w tv).2 ≡ sent w
  pub select_patience :
      (w : W) (b : ℕ) (r : Bytes) (tv : Timeval)
      → (((io.fwrite w (b ∷ r)).0 == 0) && io.feof (io.fwrite w (b ∷ r)).1) ≡ false
      → (io.errno (io.fwrite w (b ∷ r)).1 == io.eagain) ≡ true
      → (io.select_write (io.fwrite w (b ∷ r)).1 tv).0 ≡ false
      → patience (io.select_write (io.fwrite w (b ∷ r)).1 tv).2
        < patience w + (io.fwrite w (b ∷ r)).0

module _ {W : Type 0} (sent : W → Bytes) where
  -- The outcome of a write of `bs` behind `old`: all of it was handed over, or a first part and a
  -- nonfatal exception was thrown.
  pub data Wrote (bs old : Bytes) : IoRun W (Unit {0}) → Type 0 where
    complete : {t : Transport} {w : W} → sent w ≡ old ++ bs → Wrote bs old (finished tt t w)
    failed :
        {t : Transport} {w : W} {e : ℕ} (xs ys : Bytes)
        → bs ≡ xs ++ ys
        → 0 < length ys
        → sent w ≡ old ++ xs
        → Wrote bs old (thrown (exception nonfatal e) t w)

  pub Wrote-extend :
      (xs ys bs old now : Bytes) {r : IoRun W (Unit {0})}
      → bs ≡ xs ++ ys
      → now ≡ old ++ xs
      → Wrote ys now r
      → Wrote bs old r
  Wrote-extend xs ys bs old now e l (complete h) =
      complete (h ∙ ap (λ z. z ++ ys) l ∙ append_assoc old xs ys ∙ ap (λ z. old ++ z) (sym e))
  Wrote-extend xs ys bs old now e l (failed us vs c n h) =
      failed (xs ++ us) vs (e ∙ ap (λ z. xs ++ z) c ∙ sym (append_assoc xs us vs)) n
        (h ∙ ap (λ z. z ++ us) l ∙ append_assoc old xs us)

  pub stopped :
      (bs : Bytes) {t : Transport} {w : W} {e : ℕ} (old : Bytes)
      → 0 < length bs
      → sent w ≡ old
      → Wrote bs old (thrown (exception nonfatal e) t w)
  stopped bs old n e = failed [] bs refl n (e ∙ sym (append-nil old))

module _ {W : Type 0} (io : Stdio W) (sent : W → Bytes) (patience : W → ℕ)
    (p : Takes io sent patience) where
  wait-Wrote :
      (r : Bool × Timeval × W) (rest : Io io (Unit {0})) (bs old : Bytes) (t : Transport) (w : W)
      → sent r.2 ≡ old
      → 0 < length bs
      → (r.0 ≡ false → (t' : Transport) → Wrote sent bs old (rest t' r.2))
      → Wrote sent bs old (wait io r rest t w)
  unfolding wait
  wait-Wrote (true, tv, w') rest bs old t w e l h = stopped sent bs old l e
  wait-Wrote (false, tv, w') rest bs old t w e l h = h refl _

  after_call-Wrote :
      (eof again : Bool) (left : ℕ) (rest : Io io (Unit {0})) (bs : Bytes) (t : Transport) (w : W)
      → length bs ≡ left
      → (eof ≡ true → 0 < left)
      → (left ≡ 0 → Wrote sent bs (sent w) (rest t w))
      → (eof ≡ false
          → again ≡ true
          → (io.select_write w t.timeout).0 ≡ false
          → (t' : Transport) → Wrote sent bs (sent w) (rest t' (io.select_write w t.timeout).2))
      → Wrote sent bs (sent w) (after_call io io.select_write eof left again rest t w)
  unfolding after_call
  after_call-Wrote true again left rest bs t w l h d g =
      let n = h refl in stopped sent bs (sent w) (omega arith) refl
  after_call-Wrote false again zero rest bs t w l h d g = d refl
  after_call-Wrote false true (suc left) rest bs t w l h d g =
      wait-Wrote (io.select_write w t.timeout) rest bs (sent w) t w (p.select_sent w t.timeout)
        (omega arith) (g refl refl)
  after_call-Wrote false false (suc left) rest bs t w l h d g =
      stopped sent bs (sent w) (omega arith) refl

  no_round :
      (k : ℕ) (bs : Bytes) (t : Transport) (w : W)
      → length bs ≡ 0
      → Wrote sent bs (sent w) (write_rounds io k bs t w)
  unfolding write_rounds
  no_round k [] t w e = complete (sym (append-nil (sent w)))
  no_round k (b ∷ r) t w e = absurd (omega arith)

  write_rounds-Wrote :
      (k : ℕ) (bs : Bytes) (t : Transport) (w : W)
      → length bs + patience w ≤ k
      → Wrote sent bs (sent w) (write_rounds io k bs t w)
  unfolding write_rounds
  write_rounds-Wrote k [] t w h = complete (sym (append-nil (sent w)))
  write_rounds-Wrote zero (b ∷ r) t w h = absurd (omega arith)
  write_rounds-Wrote (suc k) (b ∷ r) t w h =
      let bs = b ∷ r in
      let n = (io.fwrite w bs).0 in
      let w' = (io.fwrite w bs).1 in
      let left = drop n bs in
      Wrote-extend sent (take n bs) left bs (sent w) (sent w') (sym (take-drop n bs))
        (p.fwrite_next w bs)
        (after_call-Wrote ((n == 0) && io.feof w') (io.errno w' == io.eagain) (length bs - n)
          (write_rounds io k left) left t w' (length-drop n bs) (λ e. ground arith)
          (λ e. no_round k left t w' (omega (arith, length-drop n bs)))
          λ e again timed t'.
            let w₂ = (io.select_write w' t.timeout).2 in
            subst (λ z. Wrote sent left z (write_rounds io k left t' w₂))
              (p.select_sent w' t.timeout)
              (write_rounds-Wrote k left t' w₂ (
                omega (
                  arith,
                  p.select_patience w b r t.timeout e again timed,
                  p.fwrite_short w bs,
                  length-drop n bs,
                ))))

  -- With a unit of fuel for each byte and for each time that the system is patient, a write on an
  -- open transport comes to an end: the bytes, in order and without a gap, are behind those sent
  -- before, or a nonfatal exception is thrown and only a first part of them is.
  pub transport_write_buffer-Wrote :
      (k : ℕ) (bs : Bytes) (t : Transport) (w : W)
      → is_open t ≡ true
      → t.file ≡ true
      → length bs + patience w ≤ k
      → Wrote sent bs (sent w) (transport_write_buffer io k bs t w)
  unfolding transport_write_buffer
  transport_write_buffer-Wrote k [] t w o f h =
      subst (Wrote sent [] (sent w)) (sym (opened-true io (is_open t) true _ t w o refl))
        (write_rounds-Wrote k [] t w h)
  transport_write_buffer-Wrote k (b ∷ r) t w o f h =
      subst (Wrote sent (b ∷ r) (sent w)) (sym (opened-true io (is_open t) t.file _ t w o f))
        (write_rounds-Wrote k (b ∷ r) t w h)
