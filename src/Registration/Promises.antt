-- ===== src/Registration/Promises.antt =====
-- What the calls of the Lua API that `luaopen_rpc` (luarpc.c) makes promise.
use luarpc.Base.{
  ℕ, ◌≡◌, ◌≢◌, Bytes, Bool, true, false, Option, none, some, List, [], ◌∷◌, same_bytes,
  if◌then◌else◌,
}
use luarpc.Registration.{Field, Api}

-- The last entry for a name.
abbrev pub last_of : List (Bytes × Field) → Bytes → Option Field
last_of [] k = none
last_of ((a, f) ∷ rest) k =
    let later = last_of rest k in
    elim later [ some x ↦ some x | none ↦ if same_bytes k a then some f else none ]

-- What Lua holds in the state `G`: whether a table was made, its fields, and the metatables by name.
pub record Tables (G : Type 0) : Type 0 where
  pub made : G → ℕ → Bool
  pub field : G → ℕ → Bytes → Option Field
  pub registered : G → Bytes → Option ℕ

module _ {G : Type 0} (tables : Tables G) where
  -- The entries of a list are fields of the table.
  abbrev pub Sets : G → ℕ → List (Bytes × Field) → Type 0
  Sets g t entries =
      (k : Bytes) (f : Field) → last_of entries k ≡ some f → tables.field g t k ≡ some f

  -- From `g` to `g'` no table but `t` has changed, and none is gone.
  pub record Frames (t : ℕ) (g g' : G) : Type 0 where
    pub fields_kept :
        (u : ℕ) (k : Bytes)
        → u ≢ t
        → tables.made g u ≡ true
        → tables.field g' u k ≡ tables.field g u k
    pub made_kept : (u : ℕ) → tables.made g u ≡ true → tables.made g' u ≡ true

-- What the calls promise.
pub record Promises {G : Type 0} (api : Api G) (tables : Tables G) : Type 0 where
  pub register_sets :
      (g : G) (name : Bytes) (es : List (Bytes × Field))
      → Sets tables (api.register g name es).1 (api.register g name es).0 es
  pub register_makes :
      (g : G) (name : Bytes) (es : List (Bytes × Field))
      → tables.made (api.register g name es).1 (api.register g name es).0 ≡ true
  pub register_names :
      (g : G) (name : Bytes) (es : List (Bytes × Field)) (n : Bytes)
      → tables.registered (api.register g name es).1 n ≡ tables.registered g n
  pub into_sets :
      (g : G) (t : ℕ) (es : List (Bytes × Field)) → Sets tables (api.register_into g t es) t es
  pub into_frames :
      (g : G) (t : ℕ) (es : List (Bytes × Field)) → Frames tables t g (api.register_into g t es)
  pub into_names :
      (g : G) (t : ℕ) (es : List (Bytes × Field)) (n : Bytes)
      → tables.registered (api.register_into g t es) n ≡ tables.registered g n
  pub set_same :
      (g : G) (t : ℕ) (k : Bytes) (f : Field) → tables.field (api.setfield g t k f) t k ≡ some f
  pub set_other :
      (g : G) (t : ℕ) (k : Bytes) (f : Field) (l : Bytes)
      → l ≢ k
      → tables.field (api.setfield g t k f) t l ≡ tables.field g t l
  pub set_frames :
      (g : G) (t : ℕ) (k : Bytes) (f : Field) → Frames tables t g (api.setfield g t k f)
  pub set_names :
      (g : G) (t : ℕ) (k : Bytes) (f : Field) (n : Bytes)
      → tables.registered (api.setfield g t k f) n ≡ tables.registered g n
  -- A name that was not there gets a new table.
  pub new_fresh :
      (g : G) (name : Bytes)
      → tables.registered g name ≡ none
      → tables.made g (api.newmetatable g name).0 ≡ false
  pub new_makes :
      (g : G) (name : Bytes)
      → tables.made (api.newmetatable g name).1 (api.newmetatable g name).0 ≡ true
  pub new_frames :
      (g : G) (name : Bytes)
      → Frames tables (api.newmetatable g name).0 g (api.newmetatable g name).1
  pub new_named :
      (g : G) (name : Bytes)
      → tables.registered (api.newmetatable g name).1 name ≡ some (api.newmetatable g name).0
  pub new_names :
      (g : G) (name n : Bytes)
      → n ≢ name
      → tables.registered (api.newmetatable g name).1 n ≡ tables.registered g n
