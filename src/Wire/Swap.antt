-- ===== src/Wire/Swap.antt =====
-- `swap_bytes` (luarpc_protocol.c) reverses, for every size.
use luarpc.Base.{
  ℕ, zero, suc, ◌+◌, ◌-◌, ◌/◌, ◌<◌, ◌≡◌, refl, ap, ◌∙◌, sym, Bytes, [], ◌∷◌, ◌++◌, reverse, length,
  length-append, arith, get_or, set, append_assoc, append-nil,
}
use luarpc.Wire.{swap_loop, swap_bytes}
use mathlib.Core.Path.{subst}
use mathlib.Core.List.{reverse-append, reverse-cons}

get_or-append : (a r : Bytes) (x d : ℕ) → get_or (a ++ x ∷ r) (length a) d ≡ x
get_or-append [] r x d = refl
get_or-append (y ∷ a) r x d = get_or-append a r x d

set-append : (a r : Bytes) (x v : ℕ) → set (a ++ x ∷ r) (length a) v ≡ a ++ v ∷ r
set-append [] r x v = refl
set-append (y ∷ a) r x v = ap (λ t. y ∷ t) (set-append a r x v)

-- The two reads and the two writes of one round.
exchange :
    (a mid b : Bytes) (x y j : ℕ)
    → j ≡ length (a ++ x ∷ mid)
    → (let l = a ++ x ∷ (mid ++ y ∷ b) in
        set (set l (length a) (get_or l j 0)) j (get_or l (length a) 0) ≡ a ++ y ∷ (mid ++ x ∷ b))
exchange a mid b x y j e =
    let far : get_or (a ++ x ∷ (mid ++ y ∷ b)) j 0 ≡ y =
      rw (e, ← append_assoc a (x ∷ mid) (y ∷ b)) (get_or-append (a ++ x ∷ mid) b y 0) in
    let e' : j ≡ length (a ++ y ∷ mid) =
      omega (arith, length-append a (x ∷ mid), length-append a (y ∷ mid)) in
    rw (far, get_or-append, set-append)
      (rw (e', ← append_assoc a (y ∷ mid) (y ∷ b), set-append) (append_assoc a (y ∷ mid) (x ∷ b)))

swap_loop-round :
    (n k : ℕ) (a mid b : Bytes) (x y : ℕ)
    → n ≡ length a + length mid + length b + 2
    → length b ≡ length a
    → swap_loop n (suc k) (length a) (a ++ x ∷ (mid ++ y ∷ b))
      ≡ swap_loop n k (length (a ++ y ∷ [])) ((a ++ y ∷ []) ++ (mid ++ x ∷ b))
unfolding swap_loop
swap_loop-round n k a mid b x y hn hb =
    let e : length a + 1 ≡ length (a ++ y ∷ []) = omega (arith, length-append a (y ∷ [])) in
    rw (
      exchange a mid b x y (n - 1 - length a) (omega (arith, length-append a (x ∷ mid))),
      e,
      append_assoc a (y ∷ []) (mid ++ x ∷ b),
    )

-- Every list with an element has a last one.
split_last : (x : ℕ) (xs : Bytes) → (m : Bytes) × (y : ℕ) × (x ∷ xs ≡ m ++ y ∷ [])
split_last x [] = ([], x, refl)
split_last x (y ∷ ys) = let (m, z, e) = split_last y ys in (x ∷ m, z, ap (λ t. x ∷ t) e)

-- What the loop does to the middle part `mid`, between ends of equal length.
abbrev Reverses : ℕ → Bytes → Bytes → Bytes → Type 0
Reverses n a mid b =
    swap_loop n (length mid / 2) (length a) (a ++ (mid ++ b)) ≡ a ++ (reverse mid ++ b)

Reverses-step :
    (n : ℕ) (a m b : Bytes) (x y : ℕ)
    → n ≡ length a + length m + length b + 2
    → length b ≡ length a
    → Reverses n (a ++ y ∷ []) m (x ∷ b)
    → Reverses n a (x ∷ (m ++ y ∷ [])) b
Reverses-step n a m b x y hn hb ih =
    let half : length (x ∷ (m ++ y ∷ [])) / 2 ≡ suc (length m / 2) =
      omega (arith, length-append m (y ∷ [])) in
    rw
      (
        half,
        append_assoc m (y ∷ []) b,
        swap_loop-round n (length m / 2) a m b x y hn hb,
        ih,
        reverse-cons,
        reverse-append,
      )
      (append_assoc a (y ∷ []) (reverse m ++ x ∷ b)
        ∙ ap (λ t. a ++ y ∷ t) (sym (append_assoc (reverse m) (x ∷ []) b)))

swap_loop-Reverses :
    (bound n : ℕ) (a mid b : Bytes)
    → length mid < bound
    → n ≡ length a + length mid + length b
    → length b ≡ length a
    → Reverses n a mid b
unfolding swap_loop
swap_loop-Reverses zero n a mid b lt hn hb = absurd (omega arith)
swap_loop-Reverses (suc f) n a [] b lt hn hb = refl
swap_loop-Reverses (suc f) n a (x ∷ []) b lt hn hb = refl
swap_loop-Reverses (suc f) n a (x ∷ (z ∷ zs)) b lt hn hb =
    let (m, y, e) = split_last z zs in
    let size = ap length e in
    subst (λ w. Reverses n a (x ∷ w) b) (sym e)
      (Reverses-step n a m b x y (omega (arith, length-append m (y ∷ []))) hb (
        swap_loop-Reverses f n (a ++ y ∷ []) m (x ∷ b) (omega (arith, length-append m (y ∷ [])))
          (omega (arith, length-append m (y ∷ []), length-append a (y ∷ [])))
          (omega (arith, length-append a (y ∷ [])))))

-- Swapping all the bytes of a buffer in place reverses it, whatever its size.
pub swap_bytes-reverse : (b : Bytes) → swap_bytes b (length b) ≡ reverse b
unfolding swap_bytes
swap_bytes-reverse b =
    let whole =
      swap_loop-Reverses (suc (length b)) (length b) [] b [] (omega arith) (omega arith) refl in
    rw (append-nil b, append-nil (reverse b)) at whole
