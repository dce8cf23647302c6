-- ===== src/Witnesses/Lists.antt =====
-- The theorems about the list of transports, each at a concrete input.
use luarpc.Base.{ℕ, ◌≡◌, refl, none, some, [], ◌∷◌, ◌==◌, if◌then◌else◌, arith}
use luarpc.Nodes.{Store, transport_remove_from_list}
use luarpc.Nodes.Ring.{Ring, transport_remove_from_list-Ring}

-- A head with one node.
abbrev one_node : Store
one_node = record {
  next = λ n. if n == 1 then 2 else 1;
  prev = λ n. if n == 1 then 2 else 1;
  transport = λ n. if n == 2 then some 7 else none;
  free = 3;
}

one_node-Ring : Ring one_node 1 ((2, 7) ∷ [])
one_node-Ring = (
  omega arith,
  (λ e. omega arith, tt),
  (refl, refl, refl, omega arith, λ e. omega arith, tt, (refl, refl)),
)

transport_remove_from_list-Ring_example :
    (r : ℕ) × (s : Store) × (transport_remove_from_list 2 1 7 one_node ≡ some (r, s)) × Ring s 1 []
transport_remove_from_list-Ring_example =
    transport_remove_from_list-Ring 2 one_node 1 7 ((2, 7) ∷ []) one_node-Ring (omega arith)
