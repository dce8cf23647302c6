-- ===== src/Process/Sweeping.antt =====
-- The second loop of `rpc_server` (luarpc.c): the transports that must die leave the list and are
-- closed.
use luarpc.Base.{
  ℕ, zero, suc, ◌<◌, ◌≡◌, refl, sym, ap, ◌∙◌, Bool, true, false, Option, none, some, List, [], ◌∷◌,
  ◌++◌, length, length-append, append_assoc, ◌==◌, ==_self, Bool-cases, inl, inr, if◌then◌else◌,
  arith,
}
use mathlib.Core.Path.{subst}
use luarpc.Machine.{Machine}
use luarpc.Transport.{Transport}
use luarpc.Lua.{Lua}
use luarpc.Socket.{finished}
use luarpc.Socket.Lifecycle.{transport_close}
use luarpc.Nodes.{Store}
use luarpc.Nodes.Ring.{Ring, erase, transport_remove_from_list-Ring}
use luarpc.Nodes.Sweep.{before, transport_remove_from_list-before}
use luarpc.Process.{
  Connection, update-kept, Process, Network, continues, and_on, transport_at, set_tpt, after_io,
}
use luarpc.Process.Survivors.{
  survivors, Spared, last_node, Chain-append, Spared-append, last_node-append, other_transport,
  erase-append, before-append,
}
use luarpc.Process.Loop.{on_transport, transport_delete, remove, removed, sweep, sweep_rounds}

abbrev store_of : Store → Option (ℕ × Store) → Store
store_of s none = s
store_of s (some (r, s')) = s'

-- What a sweep keeps: the transports that `f` does not pick, and of all transports the descriptor
-- and whether they must die. No FILE pointer is set.
pub record Swept {G W : Type 0} (f : ℕ → Bool) (p p' : Process G W) : Type 0 where
  pub same_list : p'.list ≡ p.list
  pub same_fresh : p'.fresh ≡ p.fresh
  pub spared : (u : ℕ) → f u ≡ false → p'.links u ≡ p.links u
  pub descriptors : (u : ℕ) → (transport_at p' u).fd ≡ (transport_at p u).fd
  pub doomed : (u : ℕ) → (transport_at p' u).must_die ≡ (transport_at p u).must_die
  pub files : (u : ℕ) → (transport_at p u).file ≡ false → (transport_at p' u).file ≡ false

-- The transports of the list that `f` picks are closed.
abbrev pub Closed : {G W : Type 0} → (ℕ → Bool) → Process G W → List (ℕ × ℕ) → Type 0
Closed f p [] = Unit {0}
Closed f p ((n, t) ∷ xs) = (f t ≡ true → (transport_at p t).file ≡ false) × Closed f p xs

module _ {G W : Type 0} (f : ℕ → Bool) where
  Swept-refl : (p : Process G W) → Swept f p p
  Swept-refl p = record {
    same_list = refl;
    same_fresh = refl;
    spared = λ u e. refl;
    descriptors = λ u. refl;
    doomed = λ u. refl;
    files = λ u e. e;
  }

  Swept-trans : (p q r : Process G W) → Swept f p q → Swept f q r → Swept f p r
  Swept-trans p q r a b = record {
    same_list = b.same_list ∙ a.same_list;
    same_fresh = b.same_fresh ∙ a.same_fresh;
    spared = λ u e. b.spared u e ∙ a.spared u e;
    descriptors = λ u. b.descriptors u ∙ a.descriptors u;
    doomed = λ u. b.doomed u ∙ a.doomed u;
    files = λ u e. b.files u (a.files u e);
  }

-- The process behind a removal of `t`.
abbrev pub without : {G W : Type 0} → ℕ → Store → W → Process G W → Process G W
without t s w p =
    set_tpt t (record (transport_at p t) { file = false }) (record p { store = s; world = w })

Swept-without :
    {G W : Type 0} (f : ℕ → Bool) (t : ℕ) (s : Store) (w : W) (p : Process G W)
    → f t ≡ true
    → Swept f p (without t s w p)
Swept-without f t s w p e = record {
  same_list = refl;
  same_fresh = refl;
  spared = λ u g. let other = other_transport f t u g e in rw other refl;
  descriptors = λ u. update-kept (λ (l : Connection). l.tpt.fd) p.links t _ u refl;
  doomed = λ u. update-kept (λ (l : Connection). l.tpt.must_die) p.links t _ u refl;
  files = λ u h. elim (Bool-cases (u == t)) [
    | inl c ↦ rw (c, transport_at) refl
    | inr c ↦ rw (c, transport_at) h
  ];
}

module _ {G W : Type 0} (lua : Lua G) (m : Machine) (net : Network W) (d fuel : ℕ) where
  transport_close-finished :
      (u : Transport) (w : W)
      → (w' : W) × (transport_close net.sys u w ≡ finished tt (record u { file = false }) w')
  unfolding transport_close
  transport_close-finished u w =
      let outcome = λ (b : Bool).
        if b then finished tt (record u { file = false }) (net.sys.fclose w) else finished tt u w in
      elim (Bool-cases u.file) [
        | inl e ↦ (net.sys.fclose w, ap outcome e)
        | inr e ↦ (w, ap outcome e ∙ ap (λ b. finished tt (record u { file = b }) w) e)
      ]

  pub transport_delete-closes :
      (t : ℕ) (p : Process G W)
      → (w : W) × (transport_delete lua m net d fuel t p
          ≡ continues tt
              (set_tpt t (record (transport_at p t) { file = false }) (record p { world = w })))
  unfolding transport_delete
  transport_delete-closes t p =
      let c = transport_close-finished (transport_at p t) p.world in (c.0, ap (after_io t p) c.1)

  -- Removal and deletion of a transport, with a unit of fuel more than there are nodes.
  pub remove-Ring :
      (t : ℕ) (p : Process G W) (xs : List (ℕ × ℕ))
      → Ring p.store p.list xs
      → length xs < fuel
      → (s : Store) × (w : W) × (remove lua m net d fuel t p
          ≡ continues (before p.list t p.list xs) (without t s w p))
        × Ring s p.list (erase t xs)
  unfolding remove
  remove-Ring t p xs r l =
      let taken = transport_remove_from_list-Ring fuel p.store p.list t xs r l in
      let found = transport_remove_from_list-before fuel p.store p.list t xs r l in
      let same = ap (store_of p.store) (sym taken.2 ∙ found.1) in
      let deleted = transport_delete-closes t (record p { store = found.0 }) in
      (
        found.0,
        deleted.0,
        ap
              (λ o.
                and_on (removed lua m net d fuel p o)
                  λ r p. and_on (transport_delete lua m net d fuel t p) λ _. continues r)
              found.1
            ∙ ap (λ x. and_on x λ _. continues (before p.list t p.list xs)) deleted.1,
        subst (λ s. Ring s p.list (erase t xs)) same taken.3,
      )

  sweep-doomed :
      (n t : ℕ) (p : Process G W)
      → (transport_at p t).must_die ≡ true
      → sweep lua m net d fuel n t p ≡ remove lua m net d fuel t p
  unfolding sweep
  sweep-doomed n t p e = ap (λ b. if b then remove lua m net d fuel t p else continues n p) e

  sweep-spared :
      (n t : ℕ) (p : Process G W)
      → (transport_at p t).must_die ≡ false
      → sweep lua m net d fuel n t p ≡ continues n p
  unfolding sweep
  sweep-spared n t p e = ap (λ b. if b then remove lua m net d fuel t p else continues n p) e

  -- The sweep behind the nodes `kept`, where `f` says which transports must die.
  sweep_rounds-from :
      (f : ℕ → Bool) (k : ℕ) (p : Process G W) (kept rest : List (ℕ × ℕ))
      → ((u : ℕ) → (transport_at p u).must_die ≡ f u)
      → Spared f kept
      → Ring p.store p.list (kept ++ rest)
      → length (kept ++ rest) < fuel
      → length rest < k
      → (p' : Process G W) × (sweep_rounds lua m net d fuel k (last_node p.list kept) p
          ≡ continues tt p')
        × Ring p'.store p.list (kept ++ survivors f rest)
        × Closed f p' rest
        × Swept f p p'
  unfolding sweep_rounds on_transport
  sweep_rounds-from f zero p kept rest g h r l k = absurd (omega arith)
  sweep_rounds-from f (suc k) p kept [] g h r l k' =
      let c = Chain-append p.store p.list kept [] p.list r.2 in
      (p, rw (c.0, ==_self p.list) refl, r, tt, Swept-refl f p)
  sweep_rounds-from f (suc k) p kept ((n, t) ∷ rest) g h r l k' =
      let c = Chain-append p.store p.list kept ((n, t) ∷ rest) p.list r.2 in
      let inside : (n == p.list) ≡ false = let apart = c.4 in ground arith in
      let kept_length = length-append kept rest in
      let all_length = length-append kept ((n, t) ∷ rest) in
      elim (Bool-cases (f t)) [
        | inl e ↦
            let a = remove-Ring t p (kept ++ (n, t) ∷ rest) r l in
            let p₁ = without t a.0 a.1 p in
            let s₁ = Swept-without f t a.0 a.1 p e in
            let ih =
              sweep_rounds-from f k p₁ kept rest (λ u. s₁.doomed u ∙ g u) h
                (subst (Ring a.0 p.list) (erase-append f kept rest n t h e) a.3) (omega arith)
                (omega arith) in
            (
              ih.0,
              rw (c.0, inside, c.2)
                  (ap (λ x. and_on x λ r. sweep_rounds lua m net d fuel k r)
                      (sweep-doomed n t p (g t ∙ e)
                        ∙ a.2
                        ∙ ap (λ b. continues b p₁)
                            (before-append f p.list p.list kept rest n t h e))
                    ∙ ih.1),
              rw e (ih.2),
              (λ _. ih.4.files t (rw (==_self t, transport_at) refl), ih.3),
              Swept-trans f p p₁ ih.0 s₁ ih.4,
            )
        | inr e ↦
            let ih =
              sweep_rounds-from f k p (kept ++ (n, t) ∷ []) rest g (Spared-append f kept n t h e)
                (subst (Ring p.store p.list) (sym (append_assoc kept ((n, t) ∷ []) rest)) r)
                (rw (append_assoc kept ((n, t) ∷ []) rest) l) (omega arith) in
            (
              ih.0,
              rw (c.0, inside, c.2)
                  (ap (λ x. and_on x λ r. sweep_rounds lua m net d fuel k r)
                      (sweep-spared n t p (g t ∙ e))
                    ∙ ap (λ a. sweep_rounds lua m net d fuel k a p)
                        (sym (last_node-append p.list kept n t))
                    ∙ ih.1),
              rw e (
                  subst (Ring ih.0.store p.list)
                    (append_assoc kept ((n, t) ∷ []) (survivors f rest)) ih.2),
              (λ e'. cc, ih.3),
              ih.4,
            )
      ]

  -- With a unit of fuel more than there are transports the sweep comes to an end: the transports
  -- that must die are out of the list and closed, the others are in the list in their order, and
  -- they are as they were.
  pub sweep_rounds-survivors :
      (p : Process G W) (xs : List (ℕ × ℕ))
      → Ring p.store p.list xs
      → length xs < fuel
      → (p' : Process G W) × (sweep_rounds lua m net d fuel fuel p.list p ≡ continues tt p')
        × Ring p'.store p.list (survivors (λ u. (transport_at p u).must_die) xs)
        × Closed (λ u. (transport_at p u).must_die) p' xs
        × Swept (λ u. (transport_at p u).must_die) p p'
  sweep_rounds-survivors p xs r l =
      sweep_rounds-from (λ u. (transport_at p u).must_die) fuel p [] xs (λ u. refl) tt r l l
