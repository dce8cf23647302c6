-- ===== src/Nodes/Ring.antt =====
-- The ring of transports (luarpc.c) as a list, and insertion and removal on it.
use luarpc.Base.{
  ℕ, zero, suc, ◌≤◌, ◌<◌, ◌≡◌, ◌≢◌, refl, sym, ◌∙◌, some, false, List, [], ◌∷◌, length, ◌==◌,
  ==_self, Bool-cases, inl, inr, if◌then◌else◌, arith,
}
use luarpc.Nodes.{
  Store, update, transport_new_list, transport_insert_to_list, unlink, remove_rounds,
  transport_remove_from_list,
}

-- The address is none of those of the nodes.
abbrev Apart : ℕ → List (ℕ × ℕ) → Type 0
Apart a [] = Unit {0}
Apart a ((n, t) ∷ xs) = (a ≢ n) × Apart a xs

-- The nodes, by address and transport, lead from `a` to `b` by `next`, and back by `prev`; the
-- addresses are different, none is `b`, and all were returned by `malloc`.
abbrev pub Chain : Store → ℕ → List (ℕ × ℕ) → ℕ → Type 0
Chain s a [] b = (s.next a ≡ b) × (s.prev b ≡ a)
Chain s a ((n, t) ∷ xs) b =
    (s.next a ≡ n)
    × (s.prev n ≡ a)
    × (s.transport n ≡ some t)
    × (n < s.free)
    × (b ≢ n)
    × Apart n xs
    × Chain s n xs b

abbrev pub Ring : Store → ℕ → List (ℕ × ℕ) → Type 0
Ring s head xs = (head < s.free) × Apart head xs × Chain s head xs head

-- The fields of a node are unchanged.
abbrev Kept : Store → Store → ℕ → Type 0
Kept s s' n = (s'.next n ≡ s.next n) × (s'.prev n ≡ s.prev n) × (s'.transport n ≡ s.transport n)

abbrev AllKept : Store → Store → List (ℕ × ℕ) → Type 0
AllKept s s' [] = Unit {0}
AllKept s s' ((n, t) ∷ xs) = Kept s s' n × AllKept s s' xs

-- A change of the fields that the chain from `a` does not look at.
Chain-frame :
    (s s' : Store) (a : ℕ) (xs : List (ℕ × ℕ)) (b : ℕ)
    → s.free ≤ s'.free
    → s'.next a ≡ s.next a
    → s'.prev b ≡ s.prev b
    → AllKept s s' xs
    → Chain s a xs b
    → Chain s' a xs b
Chain-frame s s' a [] b f e g k (c, d) = (e ∙ c, g ∙ d)
Chain-frame s s' a ((n, t) ∷ xs) b f e g ((k₀, k₁, k₂), ks) (c₀, c₁, c₂, c₃, c₄, c₅, c) =
    (e ∙ c₀, k₁ ∙ c₁, k₂ ∙ c₂, omega arith, c₄, c₅, Chain-frame s s' n xs b f k₀ g ks c)

AllKept-Apart :
    (s s' : Store) (p q a : ℕ) (xs : List (ℕ × ℕ)) (b : ℕ)
    → ((m : ℕ) → m < s.free → p ≢ m → q ≢ m → Kept s s' m)
    → Apart p xs
    → Apart q xs
    → Chain s a xs b
    → AllKept s s' xs
AllKept-Apart s s' p q a [] b h g k c = tt
AllKept-Apart s s' p q a ((n, t) ∷ xs) b h (g, gs) (k, ks) (c₀, c₁, c₂, c₃, c₄, c₅, c) =
    (h n c₃ g k, AllKept-Apart s s' p q n xs b h gs ks c)

Apart-free : (s : Store) (a : ℕ) (xs : List (ℕ × ℕ)) (b : ℕ) → Chain s a xs b → Apart s.free xs
Apart-free s a [] b c = tt
Apart-free s a ((n, t) ∷ xs) b (c₀, c₁, c₂, c₃, c₄, c₅, c) =
    (λ e. omega arith, Apart-free s n xs b c)

pub update-same : {A : Type 0} (f : ℕ → A) (a : ℕ) (v : A) → update f a v a ≡ v
update-same f a v = rw (==_self a)

pub update-other : {A : Type 0} (f : ℕ → A) (a : ℕ) (v : A) (b : ℕ) → b ≢ a → update f a v b ≡ f b
update-other f a v b h = ground arith

-- A new list is a ring of no transports.
pub transport_new_list-Ring :
    (s : Store) → Ring (transport_new_list s).1 (transport_new_list s).0 []
unfolding transport_new_list
transport_new_list-Ring s =
    (omega arith, tt, (update-same s.next s.free s.free, update-same s.prev s.free s.free))

-- Inserting a transport puts it in front.
pub transport_insert_to_list-Ring :
    (s : Store) (head t : ℕ) (xs : List (ℕ × ℕ))
    → Ring s head xs
    → Ring (transport_insert_to_list head t s) head ((s.free, t) ∷ xs)
unfolding transport_insert_to_list
transport_insert_to_list-Ring s head t [] (l, a, (c, d)) = (
  omega arith,
  (λ e. omega arith, tt),
  (
    ground arith,
    ground arith,
    ground arith,
    omega arith,
    λ e. omega arith,
    tt,
    (ground arith, ground arith),
  ),
)
transport_insert_to_list-Ring s head t ((n, u) ∷ xs) (l, (a₀, a₁), (c₀, c₁, c₂, c₃, c₄, c₅, c)) =
    let s' = transport_insert_to_list head t s in
    let kept : (m : ℕ) → m < s.free → head ≢ m → n ≢ m → Kept s s' m =
      λ m h p q. (ground arith, ground arith, ground arith) in
    (
      omega arith,
      (λ e. omega arith, (a₀, a₁)),
      (
        ground arith,
        ground arith,
        ground arith,
        omega arith,
        λ e. omega arith,
        (λ e. omega arith, Apart-free s n xs head c),
        (
          ground arith,
          ground arith,
          ground arith,
          omega arith,
          c₄,
          c₅,
          Chain-frame s s' n xs head (omega arith) (ground arith) (ground arith)
              (AllKept-Apart s s' head n n xs head kept a₁ c₅ c) c,
        ),
      ),
    )

-- The nodes without the first one of the transport.
abbrev pub erase : ℕ → List (ℕ × ℕ) → List (ℕ × ℕ)
erase t [] = []
erase t ((n, u) ∷ xs) = if u == t then xs else (n, u) ∷ erase t xs

-- What a change to the chain from `a` to `b` leaves as it was.
abbrev Rest : Store → Store → ℕ → List (ℕ × ℕ) → ℕ → Type 0
Rest s s' a xs b =
    ((m : ℕ) → a ≢ m → Apart m xs → s'.next m ≡ s.next m)
    × ((m : ℕ) → b ≢ m → Apart m xs → s'.prev m ≡ s.prev m)
    × ((m : ℕ) → s'.transport m ≡ s.transport m)
    × (s'.free ≡ s.free)

unlink-Chain :
    (s : Store) (a n t : ℕ) (zs : List (ℕ × ℕ)) (b : ℕ)
    → a ≢ n
    → Apart a zs
    → Chain s a ((n, t) ∷ zs) b
    → Chain (unlink n s).1 a zs b × Rest s (unlink n s).1 a ((n, t) ∷ zs) b
unfolding unlink
unlink-Chain s a n t [] b x y (c₀, c₁, c₂, c₃, c₄, c₅, (d, e)) = (
  (ground arith, ground arith),
  (
    (λ m p q. let q₀ = q.0 in ground arith),
    (λ m p q. let q₀ = q.0 in ground arith),
    (λ m. refl),
    refl,
  ),
)
unlink-Chain s a n t ((m, u) ∷ zs) b x (y₀, y₁)
      (c₀, c₁, c₂, c₃, c₄, (c₅, c₆), (d₀, d₁, d₂, d₃, d₄, d₅, d)) =
    (
      (
        ground arith,
        ground arith,
        d₂,
        d₃,
        d₄,
        d₅,
        Chain-frame s (unlink n s).1 m zs b (omega arith) (ground arith) (ground arith)
            (AllKept-Apart s (unlink n s).1 a m m zs b
              (λ m' h p q. (ground arith, ground arith, refl)) y₁ d₅ d)
            d,
      ),
      (
        (λ m' p q. let q₀ = q.0 in ground arith),
        (λ m' p q. let q₀ = q.0 in let q₁ = q.1.0 in ground arith),
        (λ m. refl),
        refl,
      ),
    )

Apart-erase : (t a : ℕ) (xs : List (ℕ × ℕ)) → Apart a xs → Apart a (erase t xs)
Apart-erase t a [] h = tt
Apart-erase t a ((n, u) ∷ xs) (h, hs) = elim (Bool-cases (u == t)) [
  | inl e ↦ rw e hs
  | inr e ↦ rw e (h, Apart-erase t a xs hs)
]

remove_rounds-Chain :
    (k : ℕ) (s : Store) (head t a : ℕ) (xs : List (ℕ × ℕ))
    → Chain s a xs head
    → Apart a xs
    → length xs < k
    → (r : ℕ) × (s' : Store) × (remove_rounds k head t a s ≡ some (r, s'))
      × Chain s' a (erase t xs) head
      × Rest s s' a xs head
unfolding remove_rounds
remove_rounds-Chain zero s head t a xs c x l = absurd (omega arith)
remove_rounds-Chain (suc k) s head t a [] (c, d) x l =
    (head, s, rw (c, ==_self head) refl, (c, d), (λ m p q. refl, λ m p q. refl, λ m. refl, refl))
remove_rounds-Chain (suc k) s head t a ((n, u) ∷ zs) (c₀, c₁, c₂, c₃, c₄, c₅, c) (x₀, x₁) l =
    let inside : (n == head) ≡ false = ground arith in
    elim (Bool-cases (u == t)) [
      | inl e ↦
          let r = unlink-Chain s a n u zs head x₀ x₁ (c₀, c₁, c₂, c₃, c₄, c₅, c) in
          ((unlink n s).0, (unlink n s).1, rw (c₀, inside, c₂, e) refl, rw e (r.0), r.1)
      | inr e ↦
          let ih = remove_rounds-Chain k s head t n zs c c₅ (omega arith) in
          (
            ih.0,
            ih.1,
            rw (c₀, inside, c₂, e) (ih.2),
            rw e (
                (
                  ih.4.0 a (λ z. x₀ (sym z)) x₁ ∙ c₀,
                  ih.4.1 n c₄ c₅ ∙ c₁,
                  ih.4.2 n ∙ c₂,
                  omega (arith, ih.4.3, c₃),
                  c₄,
                  Apart-erase t n zs c₅,
                  ih.3,
                )),
            (λ m p q. ih.4.0 m (λ z. q.0 (sym z)) q.1, λ m p q. ih.4.1 m p q.1, ih.4.2, ih.4.3),
          )
    ]

-- Removing a transport comes to an end, with a unit of fuel more than there are nodes: its first
-- node, if there is one, is taken out of the ring, and the others keep their order.
pub transport_remove_from_list-Ring :
    (k : ℕ) (s : Store) (head t : ℕ) (xs : List (ℕ × ℕ))
    → Ring s head xs
    → length xs < k
    → (r : ℕ) × (s' : Store) × (transport_remove_from_list k head t s ≡ some (r, s'))
      × Ring s' head (erase t xs)
unfolding transport_remove_from_list
transport_remove_from_list-Ring k s head t xs (l, a, c) h =
    let r = remove_rounds-Chain k s head t head xs c a h in
    (r.0, r.1, r.2, (omega (arith, r.4.3, l), Apart-erase t head xs a, r.3))
