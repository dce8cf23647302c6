-- ===== src/Variable/Tree.antt =====
-- What a Lua value holds, as a tree, the bytes that stand for it on the wire (the grammar `var`
-- of the file PROTOCOL), and what it means for a value to hold a tree and for a tree to be built.
use luarpc.Base.{
  ℕ, suc, ◌+◌, ◌^◌, ◌<◌, ◌≡◌, arith, Bytes, Bool, some, List, [], ◌∷◌, ◌++◌, length, if◌then◌else◌,
}
use luarpc.Codes.{
  rpc_nil, rpc_number, rpc_boolean, rpc_string, rpc_table, rpc_table_end, rpc_function,
  rpc_function_end, rpc_remote,
}
use luarpc.Machine.{Machine}
use luarpc.Transport.{Transport}
use luarpc.Lua.{Helper, Value, Lua, returned}
use luarpc.Wire.{number_wire, wire_number}
use luarpc.Wire.Words.{wire}
use luarpc.Helper.{handle}
use luarpc.Helper.Remote.{IsChain, depth, joined, announced}
use luarpc.Variable.Name.{tokens}

-- A number by its bytes on the wire, a function by its dumped code, a helper by its name.
mutual
  pub data Tree : Type 0 where
    nil : Tree
    number : Bytes → Tree
    boolean : Bool → Tree
    string : Bytes → Tree
    table : Pairs → Tree
    function : Bytes → Tree
    remote : Bytes → Tree

  pub data Pairs : Type 0 where
    done : Pairs
    pair : Tree → Tree → Pairs → Pairs

abbrev pub enc_text : Bool → Bytes → Bytes
enc_text le b = wire le 4 (length b) ++ b

unfoldable mutual
  pub enc : Bool → Tree → Bytes
  enc le nil = rpc_nil ∷ []
  enc le (number w) = rpc_number ∷ w
  enc le (boolean b) = rpc_boolean ∷ (if b then 1 else 0) ∷ []
  enc le (string b) = rpc_string ∷ enc_text le b
  enc le (table ps) = rpc_table ∷ (enc_pairs le ps ++ rpc_table_end ∷ [])
  enc le (function code) = rpc_function ∷ ((rpc_string ∷ enc_text le code) ++ rpc_function_end ∷ [])
  enc le (remote name) = rpc_remote ∷ enc_text le name

  pub enc_pairs : Bool → Pairs → Bytes
  enc_pairs le done = []
  enc_pairs le (pair k v ps) = enc le k ++ (enc le v ++ enc_pairs le ps)

unfoldable mutual
  pub size : Tree → ℕ
  size nil = 1
  size (number w) = 1
  size (boolean b) = 1
  size (string b) = 1
  size (table ps) = suc (size_pairs ps)
  size (function code) = 3
  size (remote name) = 1

  pub size_pairs : Pairs → ℕ
  size_pairs done = 1
  size_pairs (pair k v ps) = size k + (size v + size_pairs ps)

-- `v` holds the tree in the Lua state `g`, on the transport `t` that is called `self`: tables by
-- their pairs, strings shorter than 2 ^ 31, helpers of this transport whose length is right.
module _ {G : Type 0} (lua : Lua G) (m : Machine) (t : Transport) (self : ℕ) (g : G) where
  unfoldable mutual
    pub Holds : Tree → Value → Type 0
    Holds nil v = v ≡ Value.nil
    Holds (number w) v = (x : Bytes) × (v ≡ Value.number x) × (number_wire m t x ≡ some w)
    Holds (boolean b) v = v ≡ Value.boolean b
    Holds (string b) v = (v ≡ Value.string b) × (length b < 2 ^ 31)
    Holds (table ps) v = (r : ℕ) × (v ≡ Value.table r) × HoldsPairs ps (lua.entries g r)
    Holds (function code) v =
        (r : ℕ) × (v ≡ Value.function r) × (lua.dump g r ≡ code) × (length code < 2 ^ 31)
    Holds (remote name) v =
        (h : Helper) × (v ≡ Value.helper h)
        × IsChain h
        × (depth h < 256)
        × (handle h ≡ self)
        × (announced h ≡ length (joined h))
        × (joined h ≡ name)

    pub HoldsPairs : Pairs → List (Value × Value) → Type 0
    HoldsPairs done es = es ≡ []
    HoldsPairs (pair k v ps) es =
        (a b : Value) × (rest : List (Value × Value)) × (es ≡ (a, b) ∷ rest)
        × Holds k a
        × Holds v b
        × HoldsPairs ps rest

-- The fields of a value, one after the other, none of which raises an error.
module _ {G : Type 0} (lua : Lua G) where
  unfoldable pub Fields : List Bytes → Value → G → Value → G → Type 0
  Fields [] a g v g' = (v ≡ a) × (g' ≡ g)
  Fields (t ∷ ts) a g v g' =
      (b : Value) × (g₁ : G) × (lua.getfield g a t ≡ returned b g₁) × Fields ts b g₁ v g'

  unfoldable pub PathTo : List Bytes → G → Value → G → Type 0
  unfolding Fields
  PathTo [] g v g' = ⊥
  PathTo (t ∷ ts) g v g' =
      (b : Value) × (g₁ : G) × (lua.getglobal g t ≡ returned b g₁) × Fields ts b g₁ v g'

-- Building the tree in the Lua state `g`, numbers read on the transport `t`, gives `v` and the
-- state `g'`, no call raising an error: a new table is filled by one `lua_rawset` for each pair.
module _ {G : Type 0} (lua : Lua G) (m : Machine) (t : Transport) where
  unfoldable mutual
    pub Builds : Tree → G → Value → G → Type 0
    Builds nil g v g' = (v ≡ Value.nil) × (g' ≡ g)
    Builds (number w) g v g' =
        (x : Bytes) × (wire_number m t w ≡ some x) × (v ≡ Value.number x) × (g' ≡ g)
    Builds (boolean b) g v g' = (v ≡ Value.boolean b) × (g' ≡ g)
    Builds (string b) g v g' = (v ≡ Value.string b) × (g' ≡ g) × (length b < 2 ^ 31)
    Builds (table ps) g v g' =
        (v ≡ Value.table (lua.newtable g).0)
        × BuildsPairs (lua.newtable g).0 ps (lua.newtable g).1 g'
    Builds (function code) g v g' =
        (lua.loadbuffer g code ≡ (v, g'))
        × (length code < 2 ^ 31)
        × (lua.tolstring g (Value.string code) ≡ some code)
    Builds (remote name) g v g' = PathTo lua (tokens name) g v g' × (length name < 2 ^ 31)

    pub BuildsPairs : ℕ → Pairs → G → G → Type 0
    BuildsPairs r done g g' = g' ≡ g
    BuildsPairs r (pair k v ps) g g' =
        (a b : Value) × (g₁ g₂ g₃ : G) × Builds k g a g₁
        × Builds v g₁ b g₂
        × (lua.rawset g₂ r a b ≡ returned tt g₃)
        × BuildsPairs r ps g₃ g'

pub size_pos : (t : Tree) → 0 < size t
unfolding size
size_pos nil = omega arith
size_pos _ = omega arith
