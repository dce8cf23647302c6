-- ===== src/Process/Settling/Rounds.antt =====
-- The rounds of `rpc_server` (luarpc.c), and the list of transports after them.
use luarpc.Base.{ℕ, zero, suc, ◌+◌, ◌<◌, Bool, List, [], ◌∷◌, length, arith}
use luarpc.Machine.{Machine}
use luarpc.Lua.{Lua}
use luarpc.State.{is_open}
use luarpc.Process.{Process, Network, transport_at}
use luarpc.Process.Keeping.{Keeps, Stable}
use luarpc.Process.Loop.{
  gather_rounds, transport_select, serve_rounds, sweep_rounds, remove, greet, new_worker, enlist,
  rpc_dispatch_accept, accept_waiting, tend, round, rounds, start_list,
}
use luarpc.Process.Serving.{serve_rounds-serve_all}
use luarpc.Process.Sweeping.{remove-Ring, sweep_rounds-survivors}
use luarpc.Process.Survivors.{survivors, length-survivors}
use luarpc.Process.Visiting.{
  gather_rounds-Stable, transport_select-Stable, serve_rounds-Stable, greet-Stable,
}
use luarpc.Process.Listed.{
  Lists, Lists-Stable, Listed, enlist-Lists, sweep_rounds-Lists, round-Listed, rounds-Listed,
  Keeps-weaken, start_list-Listed,
}
use luarpc.Process.Settling.{
  Settles, Settles-and_on, Settles-next, Settles-if, Settles-or_else, gather_rounds-Settles,
  selected-Settles, serve_all-Settles, greet-Settles,
}

module _ {G W : Type 0} (lua : Lua G) (m : Machine) (net : Network W) (d fuel server : ℕ) where
  stable : (xs : List (ℕ × ℕ)) → Stable {G = G} {W = W} server (Lists server xs)
  stable xs = Lists-Stable server xs

  transport_select-Settles :
      (xs : List (ℕ × ℕ)) (p : Process G W)
      → length xs < fuel
      → Lists server xs p
      → Settles (transport_select lua m net d fuel p)
  unfolding transport_select
  transport_select-Settles xs p l i =
      Settles-and_on (Lists server xs) (gather_rounds lua m net d fuel fuel p.list [] p) _
        (gather_rounds-Stable lua m net d fuel server (Lists server xs) (stable xs) fuel p.list [] p
          i)
        (gather_rounds-Settles lua m net d fuel fuel p.list [] p xs i.ring.2 l)
        λ socks q h. selected-Settles lua m net d fuel (net.select socks q.world) q xs h.ring l

  accept_waiting-Settles :
      (xs : List (ℕ × ℕ)) (p : Process G W)
      → length xs + 1 < fuel
      → Lists server xs p
      → Settles (accept_waiting lua m net d fuel server p)
  unfolding accept_waiting rpc_dispatch_accept
  accept_waiting-Settles xs p l i =
      let u = new_worker lua m net d fuel in
      let q₀ = enlist lua m net d fuel u p in
      let ys = (p.store.free, p.fresh) ∷ xs in
      Settles-if (transport_at p server).is_set _ _
        (Settles-or_else (Lists server ys) (greet lua m net d fuel server p.fresh q₀) _
          (greet-Stable lua m net d fuel server (Lists server ys) (stable ys) p.fresh q₀
            (λ e. let b = i.server_below in omega arith)
            (enlist-Lists lua m net d fuel server u xs p i))
          (greet-Settles lua m net d fuel server p.fresh q₀)
          (λ q h.
            let r = remove-Ring lua m net d fuel p.fresh q ys h.ring (omega arith) in
            Settles-next (remove lua m net d fuel p.fresh q) _ (rw r.2 tt) (λ _ q'. tt)))
        tt

  tend-Settles :
      (xs : List (ℕ × ℕ)) (p : Process G W)
      → length xs + 1 < fuel
      → Lists server xs p
      → Settles (tend lua m net d fuel server p)
  unfolding tend
  tend-Settles xs p l i =
      Settles-and_on (Lists server xs) (serve_rounds lua m net d fuel server fuel p.list p) _
        (serve_rounds-Stable lua m net d fuel server (Lists server xs) (stable xs) fuel p.list p i)
        (rw
          (serve_rounds-serve_all lua m net d fuel fuel server p xs i.ring i.different
            (omega arith))
          (serve_all-Settles lua m net d fuel _ p))
        λ _ q h.
          let f : ℕ → Bool = λ u. (transport_at q u).must_die in
          let swept = sweep_rounds-survivors lua m net d fuel q xs h.ring (omega arith) in
          let fewer = length-survivors f xs in
          Settles-and_on (Lists server (survivors f xs))
            (sweep_rounds lua m net d fuel fuel q.list q) _
            (sweep_rounds-Lists lua m net d fuel server xs q (omega arith) h) (rw swept.1 tt)
            λ _ q' h'. accept_waiting-Settles (survivors f xs) q' (omega arith) h'

  round-Settles :
      (xs : List (ℕ × ℕ)) (p : Process G W)
      → length xs + 1 < fuel
      → Lists server xs p
      → Settles (round lua m net d fuel server p)
  unfolding round
  round-Settles xs p l i =
      Settles-and_on (Lists server xs) (transport_select lua m net d fuel p) _
        (transport_select-Stable lua m net d fuel server (Lists server xs) (stable xs) p i)
        (transport_select-Settles xs p (omega arith) i)
        λ ready q h. Settles-if ready _ _ (tend-Settles xs q l h) tt

  rounds-Settles :
      (k n : ℕ) (p : Process G W)
      → n + k < fuel
      → Listed server n p
      → Settles (rounds lua m net d fuel k server p)
  unfolding rounds
  rounds-Settles zero n p l i = tt
  rounds-Settles (suc k) n p l (xs, i, b) =
      Settles-if (is_open (transport_at p server)) _ _
        (Settles-and_on (Listed server (n + 1)) (round lua m net d fuel server p) _
          (round-Listed lua m net d fuel server n p (omega arith) (xs, i, b))
          (round-Settles xs p (omega arith) i) λ _ q h. rounds-Settles k (n + 1) q (omega arith) h)
        tt

  -- From the list that `rpc_server` begins with, the server's transport alone, and with more fuel for
  -- each loop over the list than there are rounds: no loop runs out of its bound, and in the process
  -- after these rounds, whether the server goes on, the loop was left, or an error has ended it in
  -- the middle of a round, the list is a well-formed ring, every transport in it is there once, and
  -- there is at most one more than there were rounds. Nothing is said of a process that has run into
  -- undefined behaviour, a failed assertion or the end of the C stack.
  pub rounds-start_list :
      (k : ℕ) (p : Process G W)
      → server < p.fresh
      → k + 1 < fuel
      → (let r = rounds lua m net d fuel k server (start_list lua m net d fuel server p) in
          Settles r × Keeps (Listed server (k + 1)) r)
  rounds-start_list k p b l =
      let start = start_list lua m net d fuel server p in
      let begun = start_list-Listed lua m net d fuel server p b in
      (
        rounds-Settles k 1 start (omega arith) begun,
        Keeps-weaken (Listed server (1 + k)) (Listed server (k + 1))
            (rounds lua m net d fuel k server start) (λ q (ys, h, c). (ys, h, omega arith))
            (rounds-Listed lua m net d fuel server k 1 start (omega arith) begun),
      )
