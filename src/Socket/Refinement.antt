-- ===== src/Socket/Refinement.antt =====
-- The loop of `transport_read_buffer` (luarpc_socket.c) implements `read_buffer`, the contract
-- that the protocol is modelled on.
use luarpc.Base.{
  leb, leb→le, ℕ, zero, suc, ◌+◌, ◌-◌, ◌≤◌, ◌<◌, ◌≡◌, refl, sym, ap, ◌∙◌, Bytes, Bool, true, false,
  [], ◌++◌, length, ◌==◌, ◌&&◌, length-append, arith, Bool-cases, inl, inr,
}
use mathlib.Core.Path.{subst, subst₂}
use luarpc.State.{State, read_buffer, is_open}
use luarpc.Errors.{nonfatal, fatal, err_closed, exception}
use luarpc.Transport.{Timeval, Transport}
use luarpc.Socket.{
  Stdio, IoRun, finished, thrown, Io, transport_read_buffer, wait, after_call, read_rounds,
}
use luarpc.Socket.Contract.{
  Implements, same, both_fail, both_closed, read_buffer-enough, read_buffer-few, read_buffer-closed,
}
use luarpc.Socket.Reading.{
  opened-true, opened-false, Streams, Read, complete, failed, transport_read_buffer-Read,
}

-- A link that fails only at the end of its stream: whenever fewer bytes arrive than were asked for
-- while enough are to come, the call would block, and `select` does not run into the timeout.
pub record Steady {W : Type 0} (io : Stdio W) (stream : W → Bytes) : Type 0 where
  pub blocks :
      (w : W) (n : ℕ)
      → n ≤ length (stream w)
      → length (io.fread w n).0 < n
      → (io.feof (io.fread w n).1 ≡ false) × ((io.errno (io.fread w n).1 == io.eagain) ≡ true)
  pub ready : (w : W) (tv : Timeval) → 0 < length (stream w) → (io.select_read w tv).0 ≡ false

no_eof : (a b : Bool) → b ≡ false → (a && b) ≡ false
no_eof true b e = e
no_eof false b e = refl

module _ {W : Type 0} (io : Stdio W) (stream : W → Bytes) (patience : W → ℕ)
    (p : Streams io stream patience) (q : Steady io stream) where
  abbrev Completes : IoRun W Bytes → Type 0
  Completes r = (bs : Bytes) × (t : Transport) × (w : W) × (r ≡ finished bs t w)

  wait-Completes :
      (r : Bool × Timeval × W) (rest : Io io Bytes) (t : Transport) (w : W)
      → r.0 ≡ false
      → ((t' : Transport) → Completes (rest t' r.2))
      → Completes (wait io r rest t w)
  unfolding wait
  wait-Completes (true, tv, w') rest t w e h = absurd (cc)
  wait-Completes (false, tv, w') rest t w e h = h _

  after_call-Completes :
      (eof again : Bool) (left : ℕ) (rest : Io io Bytes) (t : Transport) (w : W)
      → (0 < left → (eof ≡ false) × (again ≡ true) × ((io.select_read w t.timeout).0 ≡ false))
      → (eof ≡ true → 0 < left)
      → (left ≡ 0 → Completes (rest t w))
      → (0 < left → (t' : Transport) → Completes (rest t' (io.select_read w t.timeout).2))
      → Completes (after_call io io.select_read eof left again rest t w)
  unfolding after_call
  after_call-Completes true again left rest t w h f d g =
      absurd (let c = h (f refl) in let e = c.0 in cc)
  after_call-Completes false again zero rest t w h f d g = d refl
  after_call-Completes false true (suc left) rest t w h f d g =
      wait-Completes (io.select_read w t.timeout) rest t w (h (omega arith)).2 (g (omega arith))
  after_call-Completes false false (suc left) rest t w h f d g =
      absurd (let c = h (omega arith) in let e = c.1 in cc)

  no_round-Completes :
      (k left : ℕ) (got : Bytes) (t : Transport) (w : W)
      → left ≡ 0
      → Completes (read_rounds io k left got t w)
  unfolding read_rounds
  no_round-Completes k zero got t w e = (got, t, w, refl)
  no_round-Completes k (suc n) got t w e = absurd (omega arith)

  read_rounds-Completes :
      (k n : ℕ) (got : Bytes) (t : Transport) (w : W)
      → n ≤ length (stream w)
      → n + patience w ≤ k
      → Completes (read_rounds io k n got t w)
  unfolding read_rounds
  read_rounds-Completes k zero got t w l h = (got, t, w, refl)
  read_rounds-Completes zero (suc n) got t w l h = absurd (omega arith)
  read_rounds-Completes (suc k) (suc n) got t w l h =
      let bs = (io.fread w (suc n)).0 in
      let w' = (io.fread w (suc n)).1 in
      let left = suc n - length bs in
      let short = p.fread_short w (suc n) in
      let whole : length (stream w) ≡ length bs + length (stream w') =
        ap length (p.fread_next w (suc n)) ∙ length-append bs (stream w') in
      let w₂ = (io.select_read w' t.timeout).2 in
      let same : length (stream w₂) ≡ length (stream w') =
        ap length (p.select_stream w' t.timeout) in
      after_call-Completes ((length bs == 0) && io.feof w') (io.errno w' == io.eagain) left
        (read_rounds io k left (got ++ bs)) t w'
        (λ more.
          let c = q.blocks w (suc n) l (omega arith) in
          (no_eof (length bs == 0) (io.feof w') c.0, c.1, q.ready w' t.timeout (omega arith)))
        (λ e. ground arith) (no_round-Completes k left (got ++ bs) t w')
        λ more t'.
          let c = q.blocks w (suc n) l (omega arith) in
          read_rounds-Completes k left (got ++ bs) t' w₂ (omega arith) (
            omega (
              arith,
              p.select_patience w n t.timeout (no_eof (length bs == 0) (io.feof w') c.0) c.1
                  (q.ready w' t.timeout (omega arith)),
            ))

  transport_read_buffer-Completes :
      (k n : ℕ) (t : Transport) (w : W)
      → is_open t ≡ true
      → t.file ≡ true
      → n ≤ length (stream w)
      → n + patience w ≤ k
      → Completes (transport_read_buffer io k n t w)
  unfolding transport_read_buffer
  transport_read_buffer-Completes k zero t w o f l h =
      subst Completes (sym (opened-true io (is_open t) true _ t w o refl))
        (read_rounds-Completes k zero [] t w l h)
  transport_read_buffer-Completes k (suc n) t w o f l h =
      subst Completes (sym (opened-true io (is_open t) t.file _ t w o f))
        (read_rounds-Completes k (suc n) [] t w l h)

transport_read_buffer-closed :
    {W : Type 0} (io : Stdio W) (k n : ℕ) (t : Transport) (w : W)
    → is_open t ≡ false
    → transport_read_buffer io k n t w ≡ thrown (exception fatal err_closed) t w
unfolding transport_read_buffer
transport_read_buffer-closed io k zero t w o = rw o
transport_read_buffer-closed io k (suc n) t w o = opened-false io (is_open t) t.file _ t w o

module _ {G W : Type 0} (io : Stdio W) (stream : W → Bytes) (patience : W → ℕ)
    (p : Streams io stream patience) (q : Steady io stream) where
  Read-Implements :
      (n : ℕ) (s : State G) (r : IoRun W Bytes)
      → is_open s.tpt ≡ true
      → (n ≤ length s.input → Completes io stream patience p q r)
      → Read io stream patience p n [] s.input r
      → Implements stream (read_buffer n s) r
  Read-Implements n s r o c (complete {t} {w} xs {whole} e b l) =
      subst₂ (Implements stream) (sym (read_buffer-enough n s xs (stream w) o b l))
        (ap (λ z. finished z t w) (sym e)) (same refl)
  Read-Implements n s r o c (failed {t} {w} {e} xs b l) =
      elim (Bool-cases (leb n (length s.input))) [
        | inl h ↦ absurd (let d = c (leb→le n (length s.input) h) in let eq = d.3 in cc)
        | inr h ↦
            subst (λ z. Implements stream z (thrown (exception nonfatal e) t w))
              (sym (read_buffer-few n s o h)) both_fail
      ]

  -- On any transport whose FILE pointer is set, over a link that fails only at the end of its
  -- stream, with the fuel of `transport_read_buffer-Read`: the loop of `transport_read_buffer` does
  -- what `read_buffer` says. It returns the same bytes and leaves the same bytes to come, or both
  -- throw a nonfatal exception, or both throw ERR_CLOSED.
  pub transport_read_buffer-Implements :
      (k n : ℕ) (s : State G) (w : W)
      → s.tpt.file ≡ true
      → stream w ≡ s.input
      → n + patience w ≤ k
      → Implements stream (read_buffer n s) (transport_read_buffer io k n s.tpt w)
  transport_read_buffer-Implements k n s w f e h = elim (Bool-cases (is_open s.tpt)) [
    | inl o ↦
        Read-Implements n s (transport_read_buffer io k n s.tpt w) o
          (λ l. transport_read_buffer-Completes io stream patience p q k n s.tpt w o f (rw e l) h)
          (subst (λ i. Read io stream patience p n [] i (transport_read_buffer io k n s.tpt w)) e
            (transport_read_buffer-Read io stream patience p k n s.tpt w o f h))
    | inr o ↦
        subst₂ (Implements stream) (sym (read_buffer-closed n s o))
          (sym (transport_read_buffer-closed io k n s.tpt w o)) both_closed
  ]
