-- ===== src/Variable/Lists.antt =====
-- Several values on the wire: the arguments and the results of a call.
use luarpc.Base.{
  ℕ, suc, ◌+◌, ◌<◌, ◌≡◌, refl, sym, ap, Bytes, Bool, List, [], ◌∷◌, ◌++◌, length, length-append,
  take, drop, get_elem?, some, take-append, drop-append, reverse, append_assoc, arith,
}
use luarpc.Machine.{Machine}
use luarpc.Transport.{Transport}
use luarpc.Lua.{Value, Lua}
use luarpc.State.{State, ok}
use luarpc.Wire.Laws.{emit, feed, feed-append, Works-emit, Linked, seq-emit, emit-nil}
use luarpc.Variable.{write_variable, read_values, write_values}
use luarpc.Variable.Tree.{Tree, enc, size, Holds, Builds}
use luarpc.Variable.Writes.{write_variable-enc}
use luarpc.Variable.Reads.{built, read_value-enc}
use mathlib.Core.List.{reverse_aux, reverse_aux-eq, reverse-reverse}

abbrev pub enc_all : Bool → List Tree → Bytes
enc_all le [] = []
enc_all le (t ∷ ts) = enc le t ++ enc_all le ts

module _ {G : Type 0} (lua : Lua G) (m : Machine) (t : Transport) where
  -- Values that hold the trees, each less deep than `d`.
  abbrev pub HoldsAll : ℕ → ℕ → G → List Tree → List Value → Type 0
  HoldsAll self d g [] vs = vs ≡ []
  HoldsAll self d g (x ∷ xs) vs =
      (v : Value) × (rest : List Value) × (vs ≡ v ∷ rest)
      × Holds lua m t self g x v
      × (size x < d)
      × HoldsAll self d g xs rest

  -- Building the trees one after the other, from `g` to `g'`, gives the values.
  abbrev pub BuildsAll : List Tree → G → List Value → G → Type 0
  BuildsAll [] g vs g' = (vs ≡ []) × (g' ≡ g)
  BuildsAll (x ∷ xs) g vs g' =
      (v : Value) × (rest : List Value) × (g₁ : G) × (vs ≡ v ∷ rest)
      × Builds lua m t x g v g₁
      × BuildsAll xs g₁ rest g'

pub BuildsAll-length :
    {G : Type 0} (lua : Lua G) (m : Machine) (t : Transport) (ts : List Tree) (g : G)
    (vs : List Value) (g' : G)
    → BuildsAll lua m t ts g vs g'
    → length ts ≡ length vs
BuildsAll-length lua m t [] g vs g' (e, e') = rw e
BuildsAll-length lua m t (x ∷ xs) g vs g' (v, rest, g₁, e, b, h) =
    rw e (ap suc (BuildsAll-length lua m t xs g₁ rest g' h))

-- `s` with the values pushed, the last on top.
abbrev pub pushed : {G : Type 0} → List Value → G → State G → State G
pushed vs g s = record s { stack = reverse_aux vs s.stack; lua = g }

module _ {G : Type 0} (lua : Lua G) (m : Machine) where
  pub read_values-BuildsAll :
      (ts : List Tree) (s : State G) (vs : List Value) (g : G)
      → BuildsAll lua m s.tpt ts s.lua vs g
      → Linked m s
      → read_values lua m (length ts) (feed (enc_all s.tpt.net_little ts) s) ≡ ok tt (pushed vs g s)
  unfolding read_values
  read_values-BuildsAll [] s vs g (e, e') l =
      λ i. ok tt (record s { stack = reverse_aux (sym e i) s.stack; lua = sym e' i })
  read_values-BuildsAll (t ∷ ts) s vs g (v, rest, g₁, e, b, h) l =
      let le = s.tpt.net_little in
      rw
        (
          feed-append s (enc le t) (enc_all le ts),
          read_value-enc lua m t (feed (enc_all le ts) s) v g₁ b l.agree l.works.opened,
          e,
        )
        (read_values-BuildsAll ts (built v g₁ s) rest g h (record {
          works = record { opened = l.works.opened; unbroken = l.works.unbroken };
          agree = l.agree;
        }))

  pub write_values-HoldsAll :
      (d : ℕ) (ts : List Tree) (s : State G) (vs : List Value)
      → HoldsAll lua m s.tpt s.self d s.lua ts vs
      → Linked m s
      → write_values lua m d vs s ≡ ok tt (emit (enc_all s.tpt.net_little ts) s)
  unfolding write_values
  write_values-HoldsAll d [] s vs e l = rw e (ap (ok tt) (sym (emit-nil s)))
  write_values-HoldsAll d (t ∷ ts) s vs (v, rest, e, h, lt, hs) l =
      let le = s.tpt.net_little in
      rw e (
        seq-emit (write_variable lua m d v) (write_values lua m d rest) s (enc le t) (enc_all le ts)
          (write_variable-enc lua m t d v s h lt l.agree l.works)
          (write_values-HoldsAll d ts (emit (enc le t) s) rest hs
            (record { works = Works-emit s (enc le t) l.works; agree = l.agree })))

-- The stack below and above values that were pushed one after the other.
module _ {A : Type 0} where
  length-reverse_aux : (xs ys : List A) → length (reverse_aux xs ys) ≡ length xs + length ys
  length-reverse_aux [] ys = omega arith
  length-reverse_aux (x ∷ xs) ys = omega (arith, length-reverse_aux xs (x ∷ ys))

  pub length-reverse : (xs : List A) → length (reverse xs) ≡ length xs
  length-reverse xs = omega (arith, length-reverse_aux xs [])

  get_elem?-append : (xs ys : List A) (y : A) → get_elem? (xs ++ y ∷ ys) (length xs) ≡ some y
  get_elem?-append [] ys y = refl
  get_elem?-append (x ∷ xs) ys y = get_elem?-append xs ys y

  pub get_elem?-pushed :
      (xs : List A) (y : A) (ys : List A) → get_elem? (reverse_aux xs (y ∷ ys)) (length xs) ≡ some y
  get_elem?-pushed xs y ys =
      rw (reverse_aux-eq xs (y ∷ ys), ← length-reverse xs) (get_elem?-append (reverse xs) ys y)

  pub take-pushed : (xs ys : List A) → reverse (take (length xs) (reverse_aux xs ys)) ≡ xs
  take-pushed xs ys =
      rw (reverse_aux-eq xs ys, ← length-reverse xs, take-append) (reverse-reverse xs)

  pub drop-pushed :
      (xs : List A) (y : A) (ys : List A) → drop (length xs + 1) (reverse_aux xs (y ∷ ys)) ≡ ys
  drop-pushed xs y ys =
      let e : length xs + 1 ≡ length (reverse xs ++ y ∷ []) =
        omega (arith, length-append (reverse xs) (y ∷ []), length-reverse xs) in
      rw (reverse_aux-eq xs (y ∷ ys), ← append_assoc (reverse xs) (y ∷ []) ys, e)
        (drop-append (reverse xs ++ y ∷ []) ys)
