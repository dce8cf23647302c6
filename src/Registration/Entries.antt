-- ===== src/Registration/Entries.antt =====
-- What Lua finds once `luaopen_rpc` (luarpc.c) has run, from what the calls of its API promise.
use luarpc.Base.{
  ℕ, ◌≡◌, ◌≢◌, refl, sym, ap, ◌∙◌, Bytes, true, false, none, some, List, [], ◌∷◌, codes, get_or,
  arith,
}
use luarpc.Registration.Promises.{last_of, Tables, Sets, Promises}
use luarpc.Registration.{
  Field, text, Api, Opening, rpc_client_mt, rpc_helper_mt, rpc_map, luarpc_mode, register_module,
  register_type, register_handle, luaopen_rpc,
}

module _ {G : Type 0} (api : Api G) (tables : Tables G) (p : Promises api tables) where
  -- A step of the registration that leaves the table `t` on top: a new one where `name` was free, and
  -- no table made before has changed.
  record Adds (name : Bytes) (entries : List (Bytes × Field)) (s s' : Opening G) (t : ℕ)
      : Type 0 where
    on_top : s'.stack ≡ t ∷ s.stack
    sets : Sets tables s'.lua t entries
    makes : tables.made s'.lua t ≡ true
    named : tables.registered s'.lua name ≡ some t
    fresh : tables.made s.lua t ≡ false
    kept :
        (u : ℕ) (k : Bytes)
        → tables.made s.lua u ≡ true
        → tables.field s'.lua u k ≡ tables.field s.lua u k
    made_kept : (u : ℕ) → tables.made s.lua u ≡ true → tables.made s'.lua u ≡ true
    names_kept : (n : Bytes) → n ≢ name → tables.registered s'.lua n ≡ tables.registered s.lua n

  apart : (g : G) (u t : ℕ) → tables.made g u ≡ true → tables.made g t ≡ false → u ≢ t
  apart g u t a b e = let same = ap (tables.made g) e in absurd (cc)

  register_type-Adds :
      (name : Bytes) (entries : List (Bytes × Field)) (s : Opening G)
      → tables.registered s.lua name ≡ none
      → Adds name entries s (register_type api name entries s) (api.newmetatable s.lua name).0
  unfolding register_type
  register_type-Adds name entries s free =
      let t = (api.newmetatable s.lua name).0 in
      let g = (api.newmetatable s.lua name).1 in
      let fresh = p.new_fresh s.lua name free in
      let new = p.new_frames s.lua name in
      let into = p.into_frames g t entries in
      record {
        on_top = refl;
        sets = p.into_sets g t entries;
        makes = into.made_kept t (p.new_makes s.lua name);
        named = p.into_names g t entries name ∙ p.new_named s.lua name;
        fresh = fresh;
        kept = λ u k a.
            let ne = apart s.lua u t a fresh in
            into.fields_kept u k ne (new.made_kept u a) ∙ new.fields_kept u k ne a;
        made_kept = λ u a. into.made_kept u (new.made_kept u a);
        names_kept = λ n ne. p.into_names g t entries n ∙ p.new_names s.lua name n ne;
      }

  register_handle-Adds :
      (s : Opening G)
      → tables.registered s.lua (codes "rpc.server_handle") ≡ none
      → Adds
          (codes "rpc.server_handle")
          []
          s
          (register_handle api s)
          (api.newmetatable s.lua (codes "rpc.server_handle")).0
  unfolding register_handle
  register_handle-Adds s free =
      let name = codes "rpc.server_handle" in
      let t = (api.newmetatable s.lua name).0 in
      let fresh = p.new_fresh s.lua name free in
      let new = p.new_frames s.lua name in
      record {
        on_top = refl;
        sets = λ k f e. absurd (cc);
        makes = p.new_makes s.lua name;
        named = p.new_named s.lua name;
        fresh = fresh;
        kept = λ u k a. new.fields_kept u k (apart s.lua u t a fresh) a;
        made_kept = λ u a. new.made_kept u a;
        names_kept = λ n ne. p.new_names s.lua name n ne;
      }

  record Module (s s' : Opening G) (t : ℕ) : Type 0 where
    on_top : s'.stack ≡ t ∷ s.stack
    sets : Sets tables s'.lua t rpc_map
    mode : tables.field s'.lua t (codes "mode") ≡ some (text luarpc_mode)
    makes : tables.made s'.lua t ≡ true
    names_kept : (n : Bytes) → tables.registered s'.lua n ≡ tables.registered s.lua n

  no_mode : (k : Bytes) (f : Field) → last_of rpc_map k ≡ some f → k ≢ codes "mode"
  no_mode k f e m = let other = ap (last_of rpc_map) m in absurd (cc)

  register_module-Module :
      (s : Opening G)
      → Module s (register_module api s) (api.register s.lua (codes "rpc") rpc_map).0
  unfolding register_module
  register_module-Module s =
      let name = codes "rpc" in
      let t = (api.register s.lua name rpc_map).0 in
      let g = (api.register s.lua name rpc_map).1 in
      let mode = text luarpc_mode in
      record {
        on_top = refl;
        sets = λ k f e.
            p.set_other g t (codes "mode") mode k (no_mode k f e)
            ∙ p.register_sets s.lua name rpc_map k f e;
        mode = p.set_same g t (codes "mode") mode;
        makes =
            (p.set_frames g t (codes "mode") mode).made_kept t
              (p.register_makes s.lua name rpc_map);
        names_kept =
            λ n. p.set_names g t (codes "mode") mode n ∙ p.register_names s.lua name rpc_map n;
      }

  -- The names of the metatables were free.
  pub record Free (g : G) : Type 0 where
    pub no_helper : tables.registered g (codes "rpc.helper") ≡ none
    pub no_client : tables.registered g (codes "rpc.client") ≡ none
    pub no_handle : tables.registered g (codes "rpc.server_handle") ≡ none
    pub no_server : tables.registered g (codes "rpc.server") ≡ none

  -- The module's table has its functions and the mode, and the two metatables have their entries
  -- under their names; none has the name that `server_create` asks for. On top of the stack, and so
  -- the result, is the metatable of handles of servers, which is not the module's table.
  pub record Registered (s s' : Opening G) (results : ℕ) : Type 0 where
    pub module_table : ℕ
    pub helper_table : ℕ
    pub client_table : ℕ
    pub handle_table : ℕ
    pub one_result : results ≡ 1
    pub stack : s'.stack ≡ handle_table ∷ (client_table ∷ (helper_table ∷ (module_table ∷ s.stack)))
    pub not_module : handle_table ≢ module_table
    pub functions : Sets tables s'.lua module_table rpc_map
    pub mode : tables.field s'.lua module_table (codes "mode") ≡ some (text luarpc_mode)
    pub helper_entries : Sets tables s'.lua helper_table rpc_helper_mt
    pub client_entries : Sets tables s'.lua client_table rpc_client_mt
    pub helper_named : tables.registered s'.lua (codes "rpc.helper") ≡ some helper_table
    pub client_named : tables.registered s'.lua (codes "rpc.client") ≡ some client_table
    pub handle_named : tables.registered s'.lua (codes "rpc.server_handle") ≡ some handle_table
    pub server_unnamed : tables.registered s'.lua (codes "rpc.server") ≡ none

  differ : (i : ℕ) (a b : Bytes) → get_or a i 0 ≢ get_or b i 0 → a ≢ b
  differ i a b ne e = ne (ap (λ x. get_or x i 0) e)

  -- The steps one after the other: what each leaves the later ones keep.
  all-Registered :
      (s s₁ s₂ s₃ s₄ : Opening G) (r h c k : ℕ)
      → Module s s₁ r
      → Adds (codes "rpc.helper") rpc_helper_mt s₁ s₂ h
      → Adds (codes "rpc.client") rpc_client_mt s₂ s₃ c
      → Adds (codes "rpc.server_handle") [] s₃ s₄ k
      → tables.registered s.lua (codes "rpc.server") ≡ none
      → Registered s s₄ 1
  all-Registered s s₁ s₂ s₃ s₄ r h c k m a b d free =
      let here = a.made_kept r m.makes in
      let there = b.made_kept r here in
      let helper = b.made_kept h a.makes in
      record {
        module_table = r;
        helper_table = h;
        client_table = c;
        handle_table = k;
        one_result = refl;
        stack =
            d.on_top
            ∙ ap (λ l. k ∷ l) (b.on_top ∙ ap (λ l. c ∷ l) (a.on_top ∙ ap (λ l. h ∷ l) m.on_top));
        not_module = λ e. apart s₃.lua r k there d.fresh (sym e);
        functions = λ n f e. d.kept r n there ∙ b.kept r n here ∙ a.kept r n m.makes ∙ m.sets n f e;
        mode =
            let n = codes "mode" in
            d.kept r n there ∙ b.kept r n here ∙ a.kept r n m.makes ∙ m.mode;
        helper_entries = λ n f e. d.kept h n helper ∙ b.kept h n a.makes ∙ a.sets n f e;
        client_entries = λ n f e. d.kept c n b.makes ∙ b.sets n f e;
        helper_named =
            d.names_kept (codes "rpc.helper") (differ 4 _ _ (λ e. omega arith))
            ∙ b.names_kept (codes "rpc.helper") (differ 4 _ _ (λ e. omega arith))
            ∙ a.named;
        client_named =
            d.names_kept (codes "rpc.client") (differ 4 _ _ (λ e. omega arith)) ∙ b.named;
        handle_named = d.named;
        server_unnamed =
            d.names_kept (codes "rpc.server") (differ 10 _ _ (λ e. omega arith))
            ∙ b.names_kept (codes "rpc.server") (differ 4 _ _ (λ e. omega arith))
            ∙ a.names_kept (codes "rpc.server") (differ 4 _ _ (λ e. omega arith))
            ∙ m.names_kept (codes "rpc.server")
            ∙ free;
      }

  -- Where the names of the metatables were free, luaopen_rpc leaves its tables registered with all
  -- their entries; but its one result is the metatable of "rpc.server_handle", not the module's
  -- table, and the name "rpc.server", which server_create asks for, stays free.
  pub luaopen_rpc-Registered :
      (s : Opening G) → Free s.lua → (let (n, s') = luaopen_rpc api s in Registered s s' n)
  unfolding luaopen_rpc
  luaopen_rpc-Registered s f =
      let s₁ = register_module api s in
      let s₂ = register_type api (codes "rpc.helper") rpc_helper_mt s₁ in
      let s₃ = register_type api (codes "rpc.client") rpc_client_mt s₂ in
      let m = register_module-Module s in
      let h =
        register_type-Adds (codes "rpc.helper") rpc_helper_mt s₁
          (m.names_kept (codes "rpc.helper") ∙ f.no_helper) in
      let c = register_type-Adds (codes "rpc.client") rpc_client_mt s₂ (
        h.names_kept (codes "rpc.client") (differ 4 _ _ (λ e. omega arith))
        ∙ m.names_kept (codes "rpc.client")
        ∙ f.no_client) in
      let k = register_handle-Adds s₃ (
        c.names_kept (codes "rpc.server_handle") (differ 4 _ _ (λ e. omega arith))
        ∙ h.names_kept (codes "rpc.server_handle") (differ 4 _ _ (λ e. omega arith))
        ∙ m.names_kept (codes "rpc.server_handle")
        ∙ f.no_handle) in
      all-Registered s s₁ s₂ s₃ (register_handle api s₃) _ _ _ _ m h c k f.no_server
