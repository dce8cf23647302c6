-- ===== src/Nodes/Sweep.antt =====
-- The node that `transport_remove_from_list` (luarpc.c) returns, from which the server's sweep over
-- its transports goes on.
use luarpc.Base.{
  ℕ, zero, suc, ◌<◌, ◌≡◌, refl, ap, some, false, List, [], ◌∷◌, length, ◌==◌, ==_self, Bool-cases,
  inl, inr, if◌then◌else◌, arith,
}
use luarpc.Nodes.{Store, unlink, remove_rounds, transport_remove_from_list}
use luarpc.Nodes.Ring.{Chain, Ring}

-- The address in front of the first node of the transport, `a` being in front of the list; the
-- head if there is none.
abbrev pub before : (head t a : ℕ) → List (ℕ × ℕ) → ℕ
before head t a [] = head
before head t a ((n, u) ∷ xs) = if u == t then a else before head t n xs

unlink-before : (n a : ℕ) (s : Store) → s.prev n ≡ a → (unlink n s).0 ≡ a
unfolding unlink
unlink-before n a s h = ground arith

remove_rounds-before :
    (k : ℕ) (s : Store) (head t a : ℕ) (xs : List (ℕ × ℕ))
    → Chain s a xs head
    → length xs < k
    → (s' : Store) × (remove_rounds k head t a s ≡ some (before head t a xs, s'))
unfolding remove_rounds
remove_rounds-before zero s head t a xs c l = absurd (omega arith)
remove_rounds-before (suc k) s head t a [] (c, d) l = (s, rw (c, ==_self head) refl)
remove_rounds-before (suc k) s head t a ((n, u) ∷ zs) (c₀, c₁, c₂, c₃, c₄, c₅, c) l =
    let inside : (n == head) ≡ false = ground arith in
    elim (Bool-cases (u == t)) [
      | inl e ↦ (
        (unlink n s).1,
        rw (c₀, inside, c₂, e) (ap (λ r. some (r, (unlink n s).1)) (unlink-before n a s c₁)),
      )
      | inr e ↦
          let ih = remove_rounds-before k s head t n zs c (omega arith) in
          (ih.0, rw (c₀, inside, c₂, e) (ih.1))
    ]

-- With a unit of fuel more than there are nodes, the node in front of the one removed is returned,
-- so that what follows it is visited next, and the head if no node has the transport.
pub transport_remove_from_list-before :
    (k : ℕ) (s : Store) (head t : ℕ) (xs : List (ℕ × ℕ))
    → Ring s head xs
    → length xs < k
    → (s' : Store) × (transport_remove_from_list k head t s ≡ some (before head t head xs, s'))
unfolding transport_remove_from_list
transport_remove_from_list-before k s head t xs r h = remove_rounds-before k s head t head xs r.2 h
