-- ===== src/Process/Survivors.antt =====
-- Lists of nodes, by address and transport, some of which a sweep takes out.
use luarpc.Base.{
  ℕ, ◌+◌, ◌<◌, ◌≤◌, ◌≡◌, refl, ap, Bool, true, false, List, [], ◌∷◌, ◌++◌, length, ◌==◌, ==_self,
  Bool-cases, inl, inr, if◌then◌else◌, arith,
}
use luarpc.Nodes.{Store}
use luarpc.Nodes.Ring.{Chain, erase}
use luarpc.Nodes.Sweep.{before}
use luarpc.Process.Serving.{Absent, Different}

-- The nodes whose transports `f` does not pick.
abbrev pub survivors : (ℕ → Bool) → List (ℕ × ℕ) → List (ℕ × ℕ)
survivors f [] = []
survivors f ((n, t) ∷ xs) = if f t then survivors f xs else (n, t) ∷ survivors f xs

abbrev pub Spared : (ℕ → Bool) → List (ℕ × ℕ) → Type 0
Spared f [] = Unit {0}
Spared f ((n, t) ∷ xs) = (f t ≡ false) × Spared f xs

-- The node behind the nodes, `a` being in front of them.
abbrev pub last_node : ℕ → List (ℕ × ℕ) → ℕ
last_node a [] = a
last_node a ((n, t) ∷ xs) = last_node n xs

pub Chain-append :
    (s : Store) (a : ℕ) (kept rest : List (ℕ × ℕ)) (b : ℕ)
    → Chain s a (kept ++ rest) b
    → Chain s (last_node a kept) rest b
Chain-append s a [] rest b c = c
Chain-append s a ((n, t) ∷ kept) rest b (c₀, c₁, c₂, c₃, c₄, c₅, c) = Chain-append s n kept rest b c

pub Spared-append :
    (f : ℕ → Bool) (kept : List (ℕ × ℕ)) (n t : ℕ)
    → Spared f kept
    → f t ≡ false
    → Spared f (kept ++ (n, t) ∷ [])
Spared-append f [] n t h e = (e, tt)
Spared-append f ((m, u) ∷ kept) n t (h, hs) e = (h, Spared-append f kept n t hs e)

pub last_node-append :
    (a : ℕ) (kept : List (ℕ × ℕ)) (n t : ℕ) → last_node a (kept ++ (n, t) ∷ []) ≡ n
last_node-append a [] n t = refl
last_node-append a ((m, u) ∷ kept) n t = last_node-append m kept n t

pub other_transport : (f : ℕ → Bool) (t u : ℕ) → f u ≡ false → f t ≡ true → (u == t) ≡ false
other_transport f t u h e = elim (Bool-cases (u == t)) [
  | inl s ↦ let same : u ≡ t = ground arith in absurd (cc)
  | inr s ↦ s
]

pub erase-append :
    (f : ℕ → Bool) (kept rest : List (ℕ × ℕ)) (n t : ℕ)
    → Spared f kept
    → f t ≡ true
    → erase t (kept ++ (n, t) ∷ rest) ≡ kept ++ rest
erase-append f [] rest n t h e = rw (==_self t) refl
erase-append f ((m, u) ∷ kept) rest n t (h, hs) e =
    rw (other_transport f t u h e) (ap (λ xs. (m, u) ∷ xs) (erase-append f kept rest n t hs e))

pub before-append :
    (f : ℕ → Bool) (head a : ℕ) (kept rest : List (ℕ × ℕ)) (n t : ℕ)
    → Spared f kept
    → f t ≡ true
    → before head t a (kept ++ (n, t) ∷ rest) ≡ last_node a kept
before-append f head a [] rest n t h e = rw (==_self t) refl
before-append f head a ((m, u) ∷ kept) rest n t (h, hs) e =
    rw (other_transport f t u h e) (before-append f head m kept rest n t hs e)

-- The addresses of the transports were all given before `n`.
abbrev pub Below : ℕ → List (ℕ × ℕ) → Type 0
Below n [] = Unit {0}
Below n ((m, t) ∷ xs) = (t < n) × Below n xs

pub Below-Absent : (n : ℕ) (xs : List (ℕ × ℕ)) → Below n xs → Absent n xs
Below-Absent n [] b = tt
Below-Absent n ((m, t) ∷ xs) (b, bs) = (λ e. omega arith, Below-Absent n xs bs)

pub Below-more : (n : ℕ) (xs : List (ℕ × ℕ)) → Below n xs → Below (n + 1) xs
Below-more n [] b = tt
Below-more n ((m, t) ∷ xs) (b, bs) = (omega arith, Below-more n xs bs)

module _ (f : ℕ → Bool) where
  pub survivors-Below : (n : ℕ) (xs : List (ℕ × ℕ)) → Below n xs → Below n (survivors f xs)
  survivors-Below n [] b = tt
  survivors-Below n ((m, t) ∷ xs) (b, bs) = elim (Bool-cases (f t)) [
    | inl e ↦ rw e (survivors-Below n xs bs)
    | inr e ↦ rw e (b, survivors-Below n xs bs)
  ]

  survivors-Absent : (t : ℕ) (xs : List (ℕ × ℕ)) → Absent t xs → Absent t (survivors f xs)
  survivors-Absent t [] a = tt
  survivors-Absent t ((m, u) ∷ xs) (a, bs) = elim (Bool-cases (f u)) [
    | inl e ↦ rw e (survivors-Absent t xs bs)
    | inr e ↦ rw e (a, survivors-Absent t xs bs)
  ]

  pub survivors-Different : (xs : List (ℕ × ℕ)) → Different xs → Different (survivors f xs)
  survivors-Different [] d = tt
  survivors-Different ((m, t) ∷ xs) (a, d) = elim (Bool-cases (f t)) [
    | inl e ↦ rw e (survivors-Different xs d)
    | inr e ↦ rw e (survivors-Absent t xs a, survivors-Different xs d)
  ]

  pub length-survivors : (xs : List (ℕ × ℕ)) → length (survivors f xs) ≤ length xs
  length-survivors [] = omega arith
  length-survivors ((m, t) ∷ xs) =
      let rest = length-survivors xs in
      elim (Bool-cases (f t)) [ inl e ↦ rw e (omega arith) | inr e ↦ rw e (omega arith) ]
