-- ===== src/Nodes.antt =====
-- The list of transports of the server (luarpc.c): a ring of doubly linked nodes in a store.
pub mod Ring
pub mod Sweep
use luarpc.Base.{ℕ, zero, suc, ◌+◌, Option, none, some, true, false, ◌==◌, if◌then◌else◌}

-- The fields of struct transport_node at each address, and the next address that `malloc`
-- returns. `transport` is a null pointer in the head.
pub record Store : Type 0 where
  pub next : ℕ → ℕ
  pub prev : ℕ → ℕ
  pub transport : ℕ → Option ℕ
  pub free : ℕ

abbrev pub update : {A : Type 0} → (ℕ → A) → ℕ → A → ℕ → A
update f a v b = if b == a then v else f b

abbrev set_next : ℕ → ℕ → Store → Store
set_next a v s = record s { next = update s.next a v }

abbrev set_prev : ℕ → ℕ → Store → Store
set_prev a v s = record s { prev = update s.prev a v }

abbrev set_transport : ℕ → Option ℕ → Store → Store
set_transport a v s = record s { transport = update s.transport a v }

-- `malloc`: an address that was never returned before.
abbrev allocate : Store → Store
allocate s = record s { free = s.free + 1 }

unfoldable pub transport_new_list : Store → ℕ × Store
transport_new_list s =
    let node = s.free in
    (node, set_next node node (set_prev node node (set_transport node none (allocate s))))

-- The assignments in the order of the source.
unfoldable pub transport_insert_to_list : (head t : ℕ) → Store → Store
transport_insert_to_list head t s =
    let node = s.free in
    let s₁ = set_transport node (some t) (allocate s) in
    let s₂ = set_prev node head s₁ in
    let s₃ = set_next node (s₂.next head) s₂ in
    let s₄ = set_next head node s₃ in set_prev (s₄.next node) node s₄

abbrev pub holds : Option ℕ → ℕ → ℕ
holds none t = 0
holds (some u) t = if u == t then 1 else 0

-- The node taken out of the ring; the result is the one before it. What `free` gives back is not
-- used again here.
unfoldable pub unlink : ℕ → Store → ℕ × Store
unlink node s =
    let s₁ = set_prev (s.next node) (s.prev node) s in
    let s₂ = set_next (s₁.prev node) (s₁.next node) s₁ in (s₂.prev node, s₂)

-- The loop of `transport_remove_from_list`, `node` being the last one seen; `none` is the end of
-- the fuel. The head is the result when the transport is not found.
unfoldable pub remove_rounds : (fuel head t node : ℕ) → Store → Option (ℕ × Store)
unfolding unlink
remove_rounds zero head t node s = none
remove_rounds (suc k) head t node s =
    let rest = remove_rounds k head t (s.next node) s in
    if s.next node == head
    then some (head, s)
    else if holds (s.transport (s.next node)) t == 1
    then some (unlink (s.next node) s)
    else rest

unfoldable pub transport_remove_from_list : (fuel head t : ℕ) → Store → Option (ℕ × Store)
unfolding remove_rounds
transport_remove_from_list k head t s = remove_rounds k head t head s
