-- ===== src/Process/Listed.antt =====
-- The list of transports through the rounds of `rpc_server` (luarpc.c).
use luarpc.Base.{
  ℕ, zero, suc, ◌+◌, ◌<◌, ◌≤◌, ◌≢◌, refl, sym, Bool, List, [], ◌∷◌, length, ==_self, arith,
}
use mathlib.Core.Path.{subst}
use luarpc.Machine.{Machine}
use luarpc.Transport.{Transport}
use luarpc.Lua.{Lua}
use luarpc.State.{is_open}
use luarpc.Nodes.{transport_new_list}
use luarpc.Nodes.Ring.{Ring, transport_new_list-Ring, transport_insert_to_list-Ring}
use luarpc.Process.{Process, Network, Step, continues, transport_at, put_back}
use luarpc.Process.Keeping.{Keeps, Keeps-next, Keeps-if, Stable, or_else-Keeps}
use luarpc.Process.Loop.{
  transport_select, serve_rounds, remove, sweep_rounds, greet, new_worker, enlist,
  rpc_dispatch_accept, accept_waiting, tend, round, rounds, start_list,
}
use luarpc.Process.Serving.{Different}
use luarpc.Process.Sweeping.{remove-Ring, sweep_rounds-survivors}
use luarpc.Process.Survivors.{
  survivors, Below, Below-Absent, Below-more, survivors-Below, survivors-Different,
  length-survivors,
}
use luarpc.Process.Visiting.{transport_select-Stable, serve_rounds-Stable, greet-Stable}

-- The ring of the process has these nodes, whose transports are different and were given by
-- `malloc`, like the server's.
pub record Lists {G W : Type 0} (server : ℕ) (xs : List (ℕ × ℕ)) (p : Process G W) : Type 0 where
  pub ring : Ring p.store p.list xs
  pub different : Different xs
  pub below : Below p.fresh xs
  pub server_below : server < p.fresh

-- At most so many.
abbrev pub Listed : {G W : Type 0} → ℕ → ℕ → Process G W → Type 0
Listed server n p = (xs : List (ℕ × ℕ)) × Lists server xs p × (length xs ≤ n)

pub Lists-Stable :
    {G W : Type 0} (server : ℕ) (xs : List (ℕ × ℕ))
    → Stable {G = G} {W = W} server (Lists server xs)
unfolding put_back
Lists-Stable server xs = record {
  linked = λ t l p h i. record {
    ring = i.ring;
    different = i.different;
    below = i.below;
    server_below = i.server_below;
  };
  worked = λ t s p h i. record {
    ring = i.ring;
    different = i.different;
    below = i.below;
    server_below = i.server_below;
  };
  moved = λ w p i. record {
    ring = i.ring;
    different = i.different;
    below = i.below;
    server_below = i.server_below;
  };
}

pub Keeps-weaken :
    {P A : Type 0} (I J : P → Type 0) (r : Step P A) → ((p : P) → I p → J p) → Keeps I r → Keeps J r
Keeps-weaken I J (continues a p) w h = w p h
Keeps-weaken I J (Step.raises v p) w h = w p h
Keeps-weaken I J (Step.throws e p) w h = w p h
Keeps-weaken I J Step.breaks w h = tt
Keeps-weaken I J Step.out_of_rounds w h = tt

module _ {G W : Type 0} (lua : Lua G) (m : Machine) (net : Network W) (d fuel server : ℕ) where
  pub enlist-Lists :
      (u : Transport) (xs : List (ℕ × ℕ)) (p : Process G W)
      → Lists server xs p
      → Lists server ((p.store.free, p.fresh) ∷ xs) (enlist lua m net d fuel u p)
  enlist-Lists u xs p i = record {
    ring = transport_insert_to_list-Ring p.store p.list p.fresh xs i.ring;
    different = (Below-Absent p.fresh xs i.below, i.different);
    below = (omega arith, Below-more p.fresh xs i.below);
    server_below = let l = i.server_below in omega arith;
  }

  -- A removal of the transport in front.
  remove-Lists :
      (n t : ℕ) (xs : List (ℕ × ℕ)) (p : Process G W)
      → length xs + 1 < fuel
      → Lists server ((n, t) ∷ xs) p
      → Keeps (Lists server xs) (remove lua m net d fuel t p)
  remove-Lists n t xs p l i =
      let r = remove-Ring lua m net d fuel t p ((n, t) ∷ xs) i.ring (omega arith) in
      rw r.2 (record {
        ring = subst (Ring r.0 p.list) (rw (==_self t) refl) r.3;
        different = i.different.1;
        below = i.below.1;
        server_below = i.server_below;
      })

  accept_waiting-Listed :
      (xs : List (ℕ × ℕ)) (p : Process G W)
      → length xs + 1 < fuel
      → Lists server xs p
      → Keeps (Listed server (length xs + 1)) (accept_waiting lua m net d fuel server p)
  unfolding accept_waiting rpc_dispatch_accept
  accept_waiting-Listed xs p l i =
      let u = new_worker lua m net d fuel in
      let q₀ = enlist lua m net d fuel u p in
      let ys = (p.store.free, p.fresh) ∷ xs in
      let apart : server ≢ p.fresh = λ e. let b = i.server_below in omega arith in
      Keeps-if (Listed server (length xs + 1)) (transport_at p server).is_set _ _
        (λ _.
          or_else-Keeps (Lists server ys) (Listed server (length xs + 1))
            (greet lua m net d fuel server p.fresh q₀) _
            (greet-Stable lua m net d fuel server (Lists server ys) (Lists-Stable server ys) p.fresh
              q₀ apart (enlist-Lists u xs p i))
            (λ q h. (ys, h, omega arith))
            (λ q h.
              Keeps-next (Lists server xs) (Listed server (length xs + 1))
                (remove lua m net d fuel p.fresh q) _ (remove-Lists p.store.free p.fresh xs q l h)
                (λ q' h'. (xs, h', omega arith)) (λ _ q' h'. (xs, h', omega arith))))
        (λ _. (xs, i, omega arith))

  pub sweep_rounds-Lists :
      (xs : List (ℕ × ℕ)) (p : Process G W)
      → length xs < fuel
      → Lists server xs p
      → Keeps
          (Lists server (survivors (λ u. (transport_at p u).must_die) xs))
          (sweep_rounds lua m net d fuel fuel p.list p)
  sweep_rounds-Lists xs p l i =
      let f : ℕ → Bool = λ u. (transport_at p u).must_die in
      let s = sweep_rounds-survivors lua m net d fuel p xs i.ring l in
      rw s.1 (record {
        ring = subst (λ a. Ring s.0.store a (survivors f xs)) (sym s.4.same_list) s.2;
        different = survivors-Different f xs i.different;
        below =
            subst (λ n. Below n (survivors f xs)) (sym s.4.same_fresh)
              (survivors-Below f p.fresh xs i.below);
        server_below = subst (λ n. server < n) (sym s.4.same_fresh) i.server_below;
      })

  tend-Listed :
      (xs : List (ℕ × ℕ)) (p : Process G W)
      → length xs + 1 < fuel
      → Lists server xs p
      → Keeps (Listed server (length xs + 1)) (tend lua m net d fuel server p)
  unfolding tend
  tend-Listed xs p l i =
      Keeps-next (Lists server xs) (Listed server (length xs + 1))
        (serve_rounds lua m net d fuel server fuel p.list p) _
        (serve_rounds-Stable lua m net d fuel server (Lists server xs) (Lists-Stable server xs) fuel
          p.list p i)
        (λ q h. (xs, h, omega arith))
        λ _ q h.
          let f : ℕ → Bool = λ u. (transport_at q u).must_die in
          let ys = survivors f xs in
          let fewer = length-survivors f xs in
          Keeps-next (Lists server ys) (Listed server (length xs + 1))
            (sweep_rounds lua m net d fuel fuel q.list q) _
            (sweep_rounds-Lists xs q (omega arith) h) (λ q' h'. (ys, h', omega arith))
            λ _ q' h'.
              Keeps-weaken (Listed server (length ys + 1)) (Listed server (length xs + 1))
                (accept_waiting lua m net d fuel server q')
                (λ q'' (zs, h'', b). (zs, h'', omega arith))
                (accept_waiting-Listed ys q' (omega arith) h')

  pub round-Listed :
      (n : ℕ) (p : Process G W)
      → n + 1 < fuel
      → Listed server n p
      → Keeps (Listed server (n + 1)) (round lua m net d fuel server p)
  unfolding round
  round-Listed n p l (xs, i, b) =
      Keeps-next (Lists server xs) (Listed server (n + 1)) (transport_select lua m net d fuel p) _
        (transport_select-Stable lua m net d fuel server (Lists server xs) (Lists-Stable server xs)
          p i)
        (λ q h. (xs, h, omega arith))
        λ a q h.
          Keeps-if (Listed server (n + 1)) a _ _
            (λ _.
              Keeps-weaken (Listed server (length xs + 1)) (Listed server (n + 1))
                (tend lua m net d fuel server q) (λ q' (zs, h', b'). (zs, h', omega arith))
                (tend-Listed xs q (omega arith) h))
            (λ _. (xs, h, omega arith))

  pub rounds-Listed :
      (k n : ℕ) (p : Process G W)
      → n + k < fuel
      → Listed server n p
      → Keeps (Listed server (n + k)) (rounds lua m net d fuel k server p)
  unfolding rounds
  rounds-Listed zero n p l (xs, i, b) = (xs, i, omega arith)
  rounds-Listed (suc k) n p l (xs, i, b) =
      Keeps-if (Listed server (n + suc k)) (is_open (transport_at p server)) _ _
        (λ _.
          Keeps-next (Listed server (n + 1)) (Listed server (n + suc k))
            (round lua m net d fuel server p) _ (round-Listed n p (omega arith) (xs, i, b))
            (λ q (ys, h, c). (ys, h, omega arith))
            λ _ q h.
              Keeps-weaken (Listed server (n + 1 + k)) (Listed server (n + suc k))
                (rounds lua m net d fuel k server q) (λ q' (ys, h', c). (ys, h', omega arith))
                (rounds-Listed k (n + 1) q (omega arith) h))
        (λ _. (xs, i, omega arith))

  -- The list that `rpc_server` begins with, of the server's transport alone.
  pub start_list-Listed :
      (p : Process G W) → server < p.fresh → Listed server 1 (start_list lua m net d fuel server p)
  start_list-Listed p b =
      let (head, s) = transport_new_list p.store in
      (
        (s.free, server) ∷ [],
        record {
          ring = transport_insert_to_list-Ring s head server [] (transport_new_list-Ring p.store);
          different = (tt, tt);
          below = (b, tt);
          server_below = b;
        },
        omega arith,
      )
