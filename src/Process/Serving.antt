-- ===== src/Process/Serving.antt =====
-- The first loop of `rpc_server` (luarpc.c): which transports it serves, and in what order.
use luarpc.Base.{
  ℕ, zero, suc, ◌<◌, ◌≡◌, ◌≢◌, refl, sym, ap, ◌∙◌, Bool, true, false, List, [], ◌∷◌, length, ◌==◌,
  ==_self, ◌&&◌, not, Bool-cases, inl, inr, if◌then◌else◌, arith,
}
use luarpc.Machine.{Machine}
use luarpc.Lua.{Lua}
use luarpc.State.{Run, State, ok, throw, raise, fault, out_of_fuel}
use luarpc.Nodes.Ring.{Chain, Ring}
use luarpc.Process.{Connection, Process, Network, continues, and_on, view, put_back, after_run, Act}
use luarpc.Process.Loop.{on_transport, dispatch_to, is_waiting, serve, serve_rounds}
use luarpc.Server.{rpc_dispatch_worker}

-- No node of the list has the transport, and no transport has two nodes.
abbrev pub Absent : ℕ → List (ℕ × ℕ) → Type 0
Absent t [] = Unit {0}
Absent t ((n, u) ∷ xs) = (u ≢ t) × Absent t xs

abbrev pub Different : List (ℕ × ℕ) → Type 0
Different [] = Unit {0}
Different ((n, t) ∷ xs) = Absent t xs × Different xs

-- The transports that `f` picks.
abbrev pub chosen : (ℕ → Bool) → List (ℕ × ℕ) → List ℕ
chosen f [] = []
chosen f ((n, t) ∷ xs) = if f t then t ∷ chosen f xs else chosen f xs

chosen-agree :
    (f g : ℕ → Bool) (t : ℕ) (xs : List (ℕ × ℕ))
    → Absent t xs
    → ((u : ℕ) → u ≢ t → f u ≡ g u)
    → chosen f xs ≡ chosen g xs
chosen-agree f g t [] h e = refl
chosen-agree f g t ((n, u) ∷ xs) (h, hs) e =
    let rest = chosen-agree f g t xs hs e in rw (e u h, rest) refl

module _ {G W : Type 0} where
  put_back-links :
      (t : ℕ) (s : State G) (p : Process G W) (u : ℕ) → u ≢ t → (put_back t s p).links u ≡ p.links u
  unfolding put_back
  put_back-links t s p u h = let other : (u == t) ≡ false = ground arith in rw other

  -- Two ways to go on from a run that agree wherever it can end.
  and_on-after_run :
      {A B : Type 0} (t : ℕ) (p : Process G W) (r : Run G A) (f g : A → Act G W B)
      → ((a : A) (s : State G) → f a (put_back t s p) ≡ g a (put_back t s p))
      → and_on (after_run t p r) f ≡ and_on (after_run t p r) g
  and_on-after_run t p (ok a s) f g h = h a s
  and_on-after_run t p (throw e s) f g h = refl
  and_on-after_run t p (raise v s) f g h = refl
  and_on-after_run t p fault f g h = refl
  and_on-after_run t p out_of_fuel f g h = refl

module _ {G W : Type 0} (lua : Lua G) (m : Machine) (net : Network W) (d fuel : ℕ) where
  -- The transports in their order, each served once.
  abbrev pub serve_all : List ℕ → Act G W (Unit {0})
  serve_all [] p = continues tt p
  serve_all (t ∷ ts) p = and_on (dispatch_to lua m net d fuel t p) λ _. serve_all ts

  -- Those that `transport_select` marked, except the server.
  abbrev waiting : (server : ℕ) → Process G W → List (ℕ × ℕ) → List ℕ
  waiting server p xs = chosen (is_waiting lua m net d fuel server p) xs

  waiting-put_back :
      (server t : ℕ) (s : State G) (p : Process G W) (xs : List (ℕ × ℕ))
      → Absent t xs
      → waiting server (put_back t s p) xs ≡ waiting server p xs
  waiting-put_back server t s p xs h =
      chosen-agree (is_waiting lua m net d fuel server (put_back t s p))
        (is_waiting lua m net d fuel server p) t xs h
        λ u other.
          ap (λ (l : Connection). l.tpt.is_set && not (u == server)) (put_back-links t s p u other)

  serve-waiting :
      (server t : ℕ) (p : Process G W)
      → is_waiting lua m net d fuel server p t ≡ true
      → serve lua m net d fuel server t p ≡ dispatch_to lua m net d fuel t p
  unfolding serve
  serve-waiting server t p e =
      ap (λ b. if b then dispatch_to lua m net d fuel t p else continues tt p) e

  serve-idle :
      (server t : ℕ) (p : Process G W)
      → is_waiting lua m net d fuel server p t ≡ false
      → serve lua m net d fuel server t p ≡ continues tt p
  unfolding serve
  serve-idle server t p e =
      ap (λ b. if b then dispatch_to lua m net d fuel t p else continues tt p) e

  serve_rounds-from :
      (k server : ℕ) (p : Process G W) (a : ℕ) (xs : List (ℕ × ℕ))
      → Chain p.store a xs p.list
      → Different xs
      → length xs < k
      → serve_rounds lua m net d fuel server k a p ≡ serve_all (waiting server p xs) p
  unfolding serve_rounds on_transport dispatch_to put_back
  serve_rounds-from zero server p a xs c x l = absurd (omega arith)
  serve_rounds-from (suc k) server p a [] (c, c') x l = rw (c, ==_self p.list) refl
  serve_rounds-from (suc k) server p a ((n, t) ∷ xs) (c₀, c₁, c₂, c₃, c₄, c₅, c) (x, xs') l =
      let inside : (n == p.list) ≡ false = ground arith in
      let go_on = λ (_ : Unit {0}). serve_rounds lua m net d fuel server k n in
      let all =
        λ (b : Bool). serve_all (if b then t ∷ waiting server p xs else waiting server p xs) p in
      rw (c₀, inside, c₂)
        elim (Bool-cases (is_waiting lua m net d fuel server p t)) [
          | inl e ↦
              ap (λ r. and_on r go_on) (serve-waiting server t p e)
              ∙ and_on-after_run t p (rpc_dispatch_worker lua m d (view t p)) go_on
                  (λ _. serve_all (waiting server p xs))
                  (λ _ s.
                    serve_rounds-from k server (put_back t s p) n xs c xs' (omega arith)
                    ∙ ap (λ ts. serve_all ts (put_back t s p)) (waiting-put_back server t s p xs x))
              ∙ sym (ap all e)
          | inr e ↦
              ap (λ r. and_on r go_on) (serve-idle server t p e)
              ∙ serve_rounds-from k server p n xs c xs' (omega arith)
              ∙ sym (ap all e)
        ]

  -- The loop with a unit of fuel more than there are transports: it serves the transports that are
  -- marked, except the server itself, each once and in the order of the list. Where one of them
  -- ends the server by an error, those behind it are not served.
  pub serve_rounds-serve_all :
      (k server : ℕ) (p : Process G W) (xs : List (ℕ × ℕ))
      → Ring p.store p.list xs
      → Different xs
      → length xs < k
      → serve_rounds lua m net d fuel server k p.list p ≡ serve_all (waiting server p xs) p
  serve_rounds-serve_all k server p xs r x l = serve_rounds-from k server p p.list xs r.2 x l
