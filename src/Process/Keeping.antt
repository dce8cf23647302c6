-- ===== src/Process/Keeping.antt =====
-- Properties of a process that a step keeps wherever it can end, and one of them: that the server's
-- transport has a descriptor.
use luarpc.Base.{
  ℕ, ◌<◌, ◌≡◌, ◌≢◌, refl, ◌∙◌, Bool, true, false, ◌==◌, if◌then◌else◌, arith, Bool-cases, inl, inr,
}
use luarpc.State.{Run, State, ok, throw, raise, fault, out_of_fuel, is_open}
use luarpc.Socket.{IoRun, finished, thrown, crashed, unfinished}
use luarpc.Process.{
  Connection, Process, Step, continues, raises, throws, breaks, out_of_rounds, and_on, transport_at,
  set_link, put_back, update-kept, after_run, after_io, or_else,
}

-- Wherever the step can end, the process has the property.
abbrev pub Keeps : {P A : Type 0} → (P → Type 0) → Step P A → Type 0
Keeps I (continues a p) = I p
Keeps I (raises v p) = I p
Keeps I (throws e p) = I p
Keeps I breaks = Unit {0}
Keeps I out_of_rounds = Unit {0}

-- The step does not go on.
abbrev pub Ends : {P A : Type 0} → Step P A → Type 0
Ends (continues a p) = ⊥
Ends _ = Unit {0}

-- A step that keeps `I`, and what follows it where `I` holds.
pub Keeps-next :
    {P A B : Type 0} (I J : P → Type 0) (r : Step P A) (k : A → P → Step P B)
    → Keeps I r
    → ((p : P) → I p → J p)
    → ((a : A) (p : P) → I p → Keeps J (k a p))
    → Keeps J (and_on r k)
Keeps-next I J (continues a p) k h w g = g a p h
Keeps-next I J (raises v p) k h w g = w p h
Keeps-next I J (throws e p) k h w g = w p h
Keeps-next I J breaks k h w g = tt
Keeps-next I J out_of_rounds k h w g = tt

module _ {P A B : Type 0} (I : P → Type 0) where
  pub Keeps-and_on :
      (r : Step P A) (k : A → P → Step P B)
      → Keeps I r
      → ((a : A) (p : P) → I p → Keeps I (k a p))
      → Keeps I (and_on r k)
  Keeps-and_on r k h g = Keeps-next I I r k h (λ p i. i) g

-- The rounds of the server do not end by the condition of its loop.
abbrev pub GoesOn : {P : Type 0} → Step P Bool → Type 0
GoesOn (continues on p) = on ≡ true
GoesOn _ = Unit {0}

pub GoesOn-and_on :
    {P A : Type 0} (I : P → Type 0) (r : Step P A) (k : A → P → Step P Bool)
    → Keeps I r
    → ((a : A) (p : P) → I p → GoesOn (k a p))
    → GoesOn (and_on r k)
GoesOn-and_on I (continues a p) k h g = g a p h
GoesOn-and_on I (raises v p) k h g = tt
GoesOn-and_on I (throws e p) k h g = tt
GoesOn-and_on I breaks k h g = tt
GoesOn-and_on I out_of_rounds k h g = tt

pub Keeps-if :
    {P A : Type 0} (I : P → Type 0) (b : Bool) (r s : Step P A)
    → (b ≡ true → Keeps I r)
    → (b ≡ false → Keeps I s)
    → Keeps I (if b then r else s)
Keeps-if I true r s h g = h refl
Keeps-if I false r s h g = g refl

-- The server's transport has a descriptor, and its address is not one of those to come.
abbrev pub Listens : {G W : Type 0} → ℕ → Process G W → Type 0
Listens server p = (is_open (transport_at p server) ≡ true) × (server < p.fresh)

-- The process may change like this and keep the property: the transport of a link, not closed or
-- opened if it is the server's, what a command does on another transport, and the system.
pub record Stable {G W : Type 0} (server : ℕ) (I : Process G W → Type 0) : Type 0 where
  pub linked :
      (t : ℕ) (l : Connection) (p : Process G W)
      → (server ≡ t → is_open l.tpt ≡ is_open (transport_at p t))
      → I p
      → I (set_link t l p)
  pub worked : (t : ℕ) (s : State G) (p : Process G W) → server ≢ t → I p → I (put_back t s p)
  pub moved : (w : W) (p : Process G W) → I p → I (record p { world = w })

module _ {G W : Type 0} (server : ℕ) (I : Process G W → Type 0) (st : Stable server I) where
  pub after_run-Stable :
      {A : Type 0} (t : ℕ) (p : Process G W) (r : Run G A)
      → server ≢ t
      → I p
      → Keeps I (after_run t p r)
  after_run-Stable t p (ok a s) h l = st.worked t s p h l
  after_run-Stable t p (throw e s) h l = st.worked t s p h l
  after_run-Stable t p (raise v s) h l = st.worked t s p h l
  after_run-Stable t p fault h l = tt
  after_run-Stable t p out_of_fuel h l = tt

  pub after_io-Stable :
      {A : Type 0} (t : ℕ) (p : Process G W) (r : IoRun W A)
      → server ≢ t
      → I p
      → Keeps I (after_io t p r)
  after_io-Stable t p (finished a u w) h l =
      st.linked t _ (record p { world = w }) (λ e. absurd (h e)) (st.moved w p l)
  after_io-Stable t p (thrown e u w) h l =
      st.linked t _ (record p { world = w }) (λ e. absurd (h e)) (st.moved w p l)
  after_io-Stable t p crashed h l = tt
  after_io-Stable t p unfinished h l = tt

pub or_else-Keeps :
    {G W A : Type 0} (I J : Process G W → Type 0) (r : Step (Process G W) A)
    (k : Process G W → Step (Process G W) A)
    → Keeps I r
    → ((p : Process G W) → I p → J p)
    → ((p : Process G W) → I p → Keeps J (k p))
    → Keeps J (or_else r k)
or_else-Keeps I J (continues a p) k h w g = w p h
or_else-Keeps I J (raises v p) k h w g = w p h
or_else-Keeps I J (throws e p) k h w g = g p h
or_else-Keeps I J breaks k h w g = tt
or_else-Keeps I J out_of_rounds k h w g = tt

pub Listens-Stable : {G W : Type 0} (server : ℕ) → Stable {G = G} {W = W} server (Listens server)
unfolding put_back
Listens-Stable server = record {
  linked = λ t l p h (o, b). elim (Bool-cases (server == t)) [
    | inl e ↦ (
      update-kept (λ (l : Connection). is_open l.tpt) p.links t l server (h (ground arith)) ∙ o,
      b,
    )
    | inr e ↦ (rw (e, transport_at) o, b)
  ];
  worked = λ t s p h (o, b).
      let other : (server == t) ≡ false = ground arith in (rw (other, transport_at) o, b);
  moved = λ w p l. l;
}
