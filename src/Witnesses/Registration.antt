-- ===== src/Witnesses/Registration.antt =====
-- The theorem about `luaopen_rpc`, at a Lua whose tables are functions.
use luarpc.Base.{
  ℕ, ◌+◌, ◌≡◌, ◌≢◌, refl, Bytes, Bool, true, false, Option, none, some, List, [], ◌∷◌, ltb,
  same_bytes, ◌==◌, ◌&&◌, ==_self, ap, Bool-cases, inl, inr, if◌then◌else◌, arith, ◌∙◌,
}
use mathlib.Core.Path.{ap₂}
use luarpc.Nodes.{update}
use luarpc.Nodes.Ring.{update-same, update-other}
use luarpc.Registration.{Field, Api, Opening, luaopen_rpc}
use luarpc.Registration.Promises.{last_of, Tables, Promises, Frames}
use luarpc.Registration.Entries.{Registered, luaopen_rpc-Registered}

record Heap : Type 0 where
  count : ℕ
  fields : ℕ → Bytes → Option Field
  names : Bytes → Option ℕ

abbrev or_old : Option Field → Option Field → Option Field
or_old none old = old
or_old (some f) old = some f

abbrev put_all : List (Bytes × Field) → (Bytes → Option Field) → Bytes → Option Field
put_all es old k = or_old (last_of es k) (old k)

abbrev put : Bytes → Field → (Bytes → Option Field) → Bytes → Option Field
put l f old k = if same_bytes k l then some f else old k

abbrev another_table : (Bytes → Option Field) → Heap → Heap
another_table t g = record g { count = g.count + 1; fields = update g.fields g.count t }

abbrev into : ℕ → (Bytes → Option Field) → Heap → Heap
into t f g = record g { fields = update g.fields t f }

abbrev name_it : Bytes → ℕ → Heap → Heap
name_it n t g = record g { names = λ k. if same_bytes k n then some t else g.names k }

-- A metatable is always a new one.
abbrev heap_api : Api Heap
heap_api = record {
  register = λ g name es. (g.count, another_table (put_all es (λ k. none)) g);
  register_into = λ g t es. into t (put_all es (g.fields t)) g;
  newmetatable = λ g name. (g.count, name_it name g.count (another_table (λ k. none) g));
  setfield = λ g t k f. into t (put k f (g.fields t)) g;
}

abbrev heap_tables : Tables Heap
heap_tables = record {
  made = λ g t. ltb t g.count;
  field = λ g t k. g.fields t k;
  registered = λ g n. g.names n;
}

both : (a b : Bool) → (a && b) ≡ true → (a ≡ true) × (b ≡ true)
both true b e = (refl, e)
both false b e = absurd (cc)

same_bytes_self : (b : Bytes) → same_bytes b b ≡ true
same_bytes_self [] = refl
same_bytes_self (x ∷ r) = rw (==_self x, same_bytes_self r) refl

same_bytes-eq : (a b : Bytes) → same_bytes a b ≡ true → a ≡ b
same_bytes-eq [] [] e = refl
same_bytes-eq [] (y ∷ q) e = absurd (cc)
same_bytes-eq (x ∷ r) [] e = absurd (cc)
same_bytes-eq (x ∷ r) (y ∷ q) e =
    let (s, h) = both (x == y) (same_bytes r q) e in
    let heads : x ≡ y = ground arith in ap₂ (λ a b. a ∷ b) heads (same_bytes-eq r q h)

other_bytes : (a b : Bytes) → a ≢ b → same_bytes a b ≡ false
other_bytes a b ne = elim (Bool-cases (same_bytes a b)) [
  | inl s ↦ absurd (ne (same_bytes-eq a b s))
  | inr s ↦ s
]

put_all-sets :
    (es : List (Bytes × Field)) (old : Bytes → Option Field) (k : Bytes) (f : Field)
    → last_of es k ≡ some f
    → put_all es old k ≡ some f
put_all-sets es old k f e = ap (λ o. or_old o (old k)) e

into-sets :
    (g : Heap) (t : ℕ) (es : List (Bytes × Field)) (old : Bytes → Option Field) (k : Bytes)
    (f : Field)
    → last_of es k ≡ some f
    → update g.fields t (put_all es old) t k ≡ some f
into-sets g t es old k f e =
    ap (λ r. r k) (update-same g.fields t (put_all es old)) ∙ put_all-sets es old k f e

into-Frames : (g : Heap) (t : ℕ) (f : Bytes → Option Field) → Frames heap_tables t g (into t f g)
into-Frames g t f = record {
  fields_kept = λ u k ne h. ap (λ r. r k) (update-other g.fields t f u ne);
  made_kept = λ u h. h;
}

heap-Promises : Promises heap_api heap_tables
heap-Promises = record {
  register_sets = λ g name es k f e. into-sets g g.count es (λ k. none) k f e;
  register_makes = λ g name es. ground arith;
  register_names = λ g name es n. refl;
  into_sets = λ g t es k f e. into-sets g t es (g.fields t) k f e;
  into_frames = λ g t es. into-Frames g t (put_all es (g.fields t));
  into_names = λ g t es n. refl;
  set_same = λ g t k f.
      ap (λ r. r k) (update-same g.fields t (put k f (g.fields t))) ∙ rw (same_bytes_self k) refl;
  set_other = λ g t k f l ne.
      ap (λ r. r l) (update-same g.fields t (put k f (g.fields t))) ∙ rw (other_bytes l k ne) refl;
  set_frames = λ g t k f. into-Frames g t (put k f (g.fields t));
  set_names = λ g t k f n. refl;
  new_fresh = λ g name e. ground arith;
  new_makes = λ g name. ground arith;
  new_frames = λ g name. record {
    fields_kept = λ u k ne h. ap (λ r. r k) (update-other g.fields g.count (λ k. none) u ne);
    made_kept = λ u h. ground arith;
  };
  new_named = λ g name. rw (same_bytes_self name) refl;
  new_names = λ g name n ne. rw (other_bytes n name ne) refl;
}

abbrev bare : Opening Heap
bare = record { stack = []; lua = record { count = 1; fields = λ t k. none; names = λ n. none } }

luaopen_rpc-Registered_example :
    Registered heap_api heap_tables heap-Promises bare
      (luaopen_rpc heap_api bare).1
      (luaopen_rpc heap_api bare).0
luaopen_rpc-Registered_example =
    luaopen_rpc-Registered heap_api heap_tables heap-Promises bare
      (record { no_helper = refl; no_client = refl; no_handle = refl; no_server = refl })
