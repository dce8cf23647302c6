-- ===== src/Socket/Reading.antt =====
-- What `transport_read_buffer` (luarpc_socket.c) returns, from what `fread` and `select` promise.
use luarpc.Base.{
  ℕ, zero, suc, ◌+◌, ◌-◌, ◌≤◌, ◌<◌, ◌≡◌, refl, sym, ap, ◌∙◌, Bytes, Bool, true, false, [], ◌++◌,
  length, ◌==◌, ◌&&◌, append_assoc, append-nil, length-append, arith,
}
use luarpc.Errors.{nonfatal, fatal, err_closed, exception}
use mathlib.Core.Path.{subst}
use luarpc.State.{is_open}
use luarpc.Transport.{Timeval, Transport}
use luarpc.Socket.{
  Stdio, IoRun, finished, thrown, Io, wait, after_call, read_rounds, opened, transport_read_buffer,
}

-- What the calls promise: `fread` returns the next bytes of the stream, at most as many as asked
-- for; `select` takes nothing from it. `patience` falls in each round that goes on with nothing
-- read: the descriptor is not reported as readable for ever while there is nothing to read.
pub record Streams {W : Type 0} (io : Stdio W) (stream : W → Bytes) (patience : W → ℕ)
    : Type 0 where
  pub fread_next : (w : W) (n : ℕ) → stream w ≡ (io.fread w n).0 ++ stream (io.fread w n).1
  pub fread_short : (w : W) (n : ℕ) → length (io.fread w n).0 ≤ n
  pub select_stream : (w : W) (tv : Timeval) → stream (io.select_read w tv).2 ≡ stream w
  pub select_patience :
      (w : W) (n : ℕ) (tv : Timeval)
      → ((length (io.fread w (suc n)).0 == 0) && io.feof (io.fread w (suc n)).1) ≡ false
      → (io.errno (io.fread w (suc n)).1 == io.eagain) ≡ true
      → (io.select_read (io.fread w (suc n)).1 tv).0 ≡ false
      → patience (io.select_read (io.fread w (suc n)).1 tv).2
        < patience w + length (io.fread w (suc n)).0

pub opened-true :
    {W A : Type 0} (io : Stdio W) (a b : Bool) (q : Io io A) (t : Transport) (w : W)
    → a ≡ true
    → b ≡ true
    → opened io a b q t w ≡ q t w
unfolding opened
opened-true io true true q t w e f = refl
opened-true io true false q t w e f = cc
opened-true io false b q t w e f = cc

pub opened-false :
    {W A : Type 0} (io : Stdio W) (a b : Bool) (q : Io io A) (t : Transport) (w : W)
    → a ≡ false
    → opened io a b q t w ≡ thrown (exception fatal err_closed) t w
unfolding opened
opened-false io false b q t w e = refl
opened-false io true b q t w e = cc

module _ {W : Type 0} (io : Stdio W) (stream : W → Bytes) (patience : W → ℕ)
    (p : Streams io stream patience) where
  -- The outcome of a read of `n` bytes more than `got`, where `bs` is to come: they were next, or
  -- fewer were consumed and a nonfatal exception was thrown.
  pub data Read (n : ℕ) (got bs : Bytes) : IoRun W Bytes → Type 0 where
    complete :
        {t : Transport} {w : W} (xs : Bytes) {whole : Bytes}
        → whole ≡ got ++ xs
        → bs ≡ xs ++ stream w
        → length xs ≡ n
        → Read n got bs (finished whole t w)
    failed :
        {t : Transport} {w : W} {e : ℕ} (xs : Bytes)
        → bs ≡ xs ++ stream w
        → length xs < n
        → Read n got bs (thrown (exception nonfatal e) t w)

  Read-extend :
      (n left : ℕ) (got xs bs rest : Bytes) {r : IoRun W Bytes}
      → bs ≡ xs ++ rest
      → length xs + left ≡ n
      → Read left (got ++ xs) rest r
      → Read n got bs r
  Read-extend n left got xs bs rest e l (complete ys w b c) =
      complete (xs ++ ys) (w ∙ append_assoc got xs ys)
        (e ∙ ap (λ z. xs ++ z) b ∙ sym (append_assoc xs ys _)) (omega (arith, length-append xs ys))
  Read-extend n left got xs bs rest e l (failed ys b c) =
      failed (xs ++ ys) (e ∙ ap (λ z. xs ++ z) b ∙ sym (append_assoc xs ys _))
        (omega (arith, length-append xs ys))

  wait-Read :
      (r : Bool × Timeval × W) (rest : Io io Bytes) (n : ℕ) (got bs : Bytes) (t : Transport) (w : W)
      → stream r.2 ≡ bs
      → 0 < n
      → (r.0 ≡ false → (t' : Transport) → Read n got bs (rest t' r.2))
      → Read n got bs (wait io r rest t w)
  unfolding wait
  wait-Read (true, tv, w') rest n got bs t w e l h = failed [] (sym e) l
  wait-Read (false, tv, w') rest n got bs t w e l h = h refl _

  after_call-Read :
      (eof again : Bool) (left : ℕ) (rest : Io io Bytes) (got : Bytes) (t : Transport) (w : W)
      → (eof ≡ true → 0 < left)
      → (left ≡ 0 → Read left got (stream w) (rest t w))
      → (eof ≡ false
          → again ≡ true
          → (io.select_read w t.timeout).0 ≡ false
          → (t' : Transport) → Read left got (stream w) (rest t' (io.select_read w t.timeout).2))
      → Read left got (stream w) (after_call io io.select_read eof left again rest t w)
  unfolding after_call
  after_call-Read true again left rest got t w h d g = failed [] refl (h refl)
  after_call-Read false again zero rest got t w h d g = d refl
  after_call-Read false true (suc left) rest got t w h d g =
      wait-Read (io.select_read w t.timeout) rest (suc left) got (stream w) t w
        (p.select_stream w t.timeout) (omega arith) (g refl refl)
  after_call-Read false false (suc left) rest got t w h d g = failed [] refl (omega arith)

  no_round :
      (k left : ℕ) (got : Bytes) (t : Transport) (w : W)
      → left ≡ 0
      → Read left got (stream w) (read_rounds io k left got t w)
  unfolding read_rounds
  no_round k zero got t w e = complete [] (sym (append-nil got)) refl refl
  no_round k (suc n) got t w e = absurd (omega arith)

  read_rounds-Read :
      (k n : ℕ) (got : Bytes) (t : Transport) (w : W)
      → n + patience w ≤ k
      → Read n got (stream w) (read_rounds io k n got t w)
  unfolding read_rounds
  read_rounds-Read k zero got t w h = complete [] (sym (append-nil got)) refl refl
  read_rounds-Read zero (suc n) got t w h = absurd (omega arith)
  read_rounds-Read (suc k) (suc n) got t w h =
      let bs = (io.fread w (suc n)).0 in
      let w' = (io.fread w (suc n)).1 in
      let left = suc n - length bs in
      Read-extend (suc n) left got bs (stream w) (stream w') (p.fread_next w (suc n))
        (omega (arith, p.fread_short w (suc n)))
        (after_call-Read ((length bs == 0) && io.feof w') (io.errno w' == io.eagain) left
          (read_rounds io k left (got ++ bs)) (got ++ bs) t w' (λ e. ground arith)
          (no_round k left (got ++ bs) t w')
          λ e again timed t'.
            let w₂ = (io.select_read w' t.timeout).2 in
            subst (λ z. Read left (got ++ bs) z (read_rounds io k left (got ++ bs) t' w₂))
              (p.select_stream w' t.timeout)
              (read_rounds-Read k left (got ++ bs) t' w₂ (
                omega
                  (arith, p.select_patience w n t.timeout e again timed, p.fread_short w (suc n)))))

  -- With a unit of fuel for each byte asked for and for each time that the system is patient, a
  -- read of `n` bytes on an open transport comes to an end: it returns exactly the next `n` bytes of
  -- the stream and leaves the others, or it throws a nonfatal exception and fewer were consumed.
  pub transport_read_buffer-Read :
      (k n : ℕ) (t : Transport) (w : W)
      → is_open t ≡ true
      → t.file ≡ true
      → n + patience w ≤ k
      → Read n [] (stream w) (transport_read_buffer io k n t w)
  unfolding transport_read_buffer
  transport_read_buffer-Read k zero t w o f h =
      subst (Read 0 [] (stream w)) (sym (opened-true io (is_open t) true _ t w o refl))
        (read_rounds-Read k zero [] t w h)
  transport_read_buffer-Read k (suc n) t w o f h =
      subst (Read (suc n) [] (stream w)) (sym (opened-true io (is_open t) t.file _ t w o f))
        (read_rounds-Read k (suc n) [] t w h)
