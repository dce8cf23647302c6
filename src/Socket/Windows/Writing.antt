-- ===== src/Socket/Windows/Writing.antt =====
-- What `transport_write_buffer` hands over on Windows (luarpc_socket.c), from what `WriteFile` and
-- `select` promise.
use luarpc.Base.{
  ℕ, zero, suc, ◌+◌, ◌≤◌, ◌<◌, ◌≡◌, refl, sym, ◌∙◌, Bytes, Bool, true, false, Option, none, some,
  [], ◌∷◌, ◌++◌, length, take, drop, ◌==◌, append-nil, length-drop, take-drop, arith, Bool-cases,
  inl, inr,
}
use mathlib.Core.Path.{subst}
use luarpc.Transport.{Timeval, Transport}
use luarpc.Socket.Writing.{Wrote, complete, Wrote-extend, stopped}
use luarpc.Socket.Windows.{
  Winsock, Do, on_fd, wait, stalled, after_write, write_rounds, transport_write_buffer,
}

abbrev pub count : Option ℕ → ℕ
count none = 0
count (some n) = n

-- What the calls promise: `WriteFile` appends to the stream the bytes that it takes, the first ones;
-- `select` adds none. `patience` falls in each round that goes on with nothing written.
pub record Takes {W : Type 0} (win : Winsock W) (sent : W → Bytes) (patience : W → ℕ) : Type 0 where
  pub next :
      (w : W) (fd : ℕ) (bs : Bytes)
      → sent (win.write_file w fd bs).1 ≡ sent w ++ take (count (win.write_file w fd bs).0) bs
  pub short : (w : W) (fd : ℕ) (bs : Bytes) → count (win.write_file w fd bs).0 ≤ length bs
  pub advances :
      (w : W) (fd : ℕ) (bs : Bytes)
      → 0 < count (win.write_file w fd bs).0
      → patience (win.write_file w fd bs).1 < patience w + count (win.write_file w fd bs).0
  pub select_sent : (w : W) (fd : ℕ) (tv : Timeval) → sent (win.select_read w fd tv).2 ≡ sent w
  pub waits :
      (w : W) (fd b : ℕ) (r : Bytes) (tv : Timeval)
      → count (win.write_file w fd (b ∷ r)).0 ≡ 0
      → (win.get_last_error (win.write_file w fd (b ∷ r)).1 == win.error_io_pending) ≡ true
      → (win.select_read (win.write_file w fd (b ∷ r)).1 fd tv).0 ≡ false
      → patience (win.select_read (win.write_file w fd (b ∷ r)).1 fd tv).2 < patience w

module _ {W : Type 0} (win : Winsock W) (sent : W → Bytes) (patience : W → ℕ)
    (p : Takes win sent patience) where
  wait-Wrote :
      (r : Bool × Timeval × W) (again : Do win (Unit {0})) (bs old : Bytes) (t : Transport) (w : W)
      → sent r.2 ≡ old
      → 0 < length bs
      → (r.0 ≡ false → (t' : Transport) → Wrote sent bs old (again t' r.2))
      → Wrote sent bs old (wait win r again t w)
  unfolding wait
  wait-Wrote (true, tv, w') again bs old t w e l h = stopped sent bs old l e
  wait-Wrote (false, tv, w') again bs old t w e l h = h refl _

  stalled-Wrote :
      (fd : ℕ) (again : Do win (Unit {0})) (bs : Bytes) (t : Transport) (w : W)
      → 0 < length bs
      → ((win.get_last_error w == win.error_io_pending) ≡ true
          → (win.select_read w fd t.timeout).0 ≡ false
          → (t' : Transport) → Wrote sent bs (sent w) (again t' (win.select_read w fd t.timeout).2))
      → Wrote sent bs (sent w) (stalled win fd again t w)
  unfolding stalled
  stalled-Wrote fd again bs t w l h =
      elim (Bool-cases (win.get_last_error w == win.error_io_pending)) [
        | inl b ↦ rw b (
            wait-Wrote (win.select_read w fd t.timeout) again bs (sent w) t w
              (p.select_sent w fd t.timeout) l (h b))
        | inr b ↦ rw b (stopped sent bs (sent w) l refl)
      ]

  after_write-Wrote :
      (fd : ℕ) (wrote : Option ℕ) (rest : ℕ → Do win (Unit {0})) (again : Do win (Unit {0}))
      (bs old : Bytes) (t : Transport) (w : W)
      → sent w ≡ old ++ take (count wrote) bs
      → (0 < count wrote → Wrote sent (drop (count wrote) bs) (sent w) (rest (count wrote) t w))
      → (count wrote ≡ 0 → Wrote sent bs (sent w) (stalled win fd again t w))
      → Wrote sent bs old (after_write win fd wrote rest again t w)
  unfolding after_write
  after_write-Wrote fd none rest again bs old t w e h g =
      subst (λ z. Wrote sent bs z (stalled win fd again t w)) (e ∙ append-nil old) (g refl)
  after_write-Wrote fd (some zero) rest again bs old t w e h g =
      subst (λ z. Wrote sent bs z (stalled win fd again t w)) (e ∙ append-nil old) (g refl)
  after_write-Wrote fd (some (suc n)) rest again bs old t w e h g =
      Wrote-extend sent (take (suc n) bs) (drop (suc n) bs) bs old (sent w)
        (sym (take-drop (suc n) bs)) e (h (omega arith))

  write_rounds-Wrote :
      (k fd : ℕ) (bs : Bytes) (t : Transport) (w : W)
      → length bs + patience w ≤ k
      → Wrote sent bs (sent w) (write_rounds win k fd bs t w)
  unfolding write_rounds
  write_rounds-Wrote k fd [] t w h = complete (sym (append-nil (sent w)))
  write_rounds-Wrote zero fd (b ∷ r) t w h = absurd (omega arith)
  write_rounds-Wrote (suc k) fd (b ∷ r) t w h =
      let bs = b ∷ r in
      let wrote = (win.write_file w fd bs).0 in
      let w' = (win.write_file w fd bs).1 in
      after_write-Wrote fd wrote (λ n. write_rounds win k fd (drop n bs)) (write_rounds win k fd bs)
        bs (sent w) t w' (p.next w fd bs)
        (λ some_written. write_rounds-Wrote k fd (drop (count wrote) bs) t w' (
          omega (
            arith,
            p.advances w fd bs some_written,
            p.short w fd bs,
            length-drop (count wrote) bs,
          )))
        λ none_written.
          stalled-Wrote fd (write_rounds win k fd bs) bs t w' (omega arith) λ pending timed t'.
            let w₂ = (win.select_read w' fd t.timeout).2 in
            subst (λ z. Wrote sent bs z (write_rounds win k fd bs t' w₂))
              (p.select_sent w' fd t.timeout)
              (write_rounds-Wrote k fd bs t' w₂
                (omega (arith, p.waits w fd b r t.timeout none_written pending timed)))

  -- With a unit of fuel for each byte and for each time that the system is patient, a write on a
  -- transport with a descriptor comes to an end: the bytes, in order and without a gap, are behind
  -- those sent before, or a nonfatal exception is thrown and only a first part of them is.
  pub windows_write_buffer-Wrote :
      (k fd : ℕ) (bs : Bytes) (t : Transport) (w : W)
      → t.fd ≡ some fd
      → length bs + patience w ≤ k
      → Wrote sent bs (sent w) (transport_write_buffer win k bs t w)
  unfolding transport_write_buffer on_fd
  windows_write_buffer-Wrote k fd bs t w o h =
      subst (λ d. Wrote sent bs (sent w) (on_fd win d (λ fd. write_rounds win k fd bs) t w)) (sym o)
        (write_rounds-Wrote k fd bs t w h)
