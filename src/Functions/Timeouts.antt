-- ===== src/Functions/Timeouts.antt =====
-- Timeouts in milliseconds that are set on a client and asked for again (luarpc.c).
use luarpc.Base.{
  ℕ, ◌+◌, ◌-◌, ◌*◌, ◌/◌, ◌%◌, ◌^◌, ◌≤◌, ◌<◌, ◌≡◌, refl, ap, ◌∙◌, pos, true, false, some, [], ◌∷◌,
  ==_self, codes, arith, leb, le→leb, suc,
}
use luarpc.Transport.{Timeval, Transport}
use luarpc.Lua.{Value, number, client}
use luarpc.Process.{Process, continues, transport_at, set_tpt, Act}
use luarpc.Functions.{
  Numbers, Values, thousand, minus_one, timeval_from_ms, with_sec, with_rest, with_usec,
  ms_from_timeval, rpc_client_name, compared, ismetatable_type, check_type, on_type, on_client,
  opt_number, with_timeval, set_wait, set_com, exchange_timeout, exchange_com, fail_with,
  rpc_server_handle_name, rpc_wait_timeout, rpc_com_timeout,
}

-- `double` is exact on whole numbers below 2 ^ 53, and a quotient is cut off to the whole number
-- below it.
pub record Exact (nums : Numbers) : Type 0 where
  pub quotient :
      (n : ℕ)
      → n < 2 ^ 31 * 1000
      → nums.to_int (nums.div (nums.of_int (pos n)) (thousand nums)) ≡ some (pos (n / 1000))
  pub whole :
      (n : ℕ)
      → n < 2 ^ 31
      → nums.div (nums.of_int (pos (n * 1000))) (thousand nums) ≡ nums.of_int (pos n)
  pub cast : (n : ℕ) → n < 2 ^ 31 → nums.to_int (nums.of_int (pos n)) ≡ some (pos n)
  pub times :
      (n : ℕ)
      → n < 2 ^ 31
      → nums.mul (nums.of_int (pos n)) (thousand nums) ≡ nums.of_int (pos (n * 1000))
  pub plus :
      (n k : ℕ)
      → n + k < 2 ^ 53
      → nums.add (nums.of_int (pos n)) (nums.of_int (pos k)) ≡ nums.of_int (pos (n + k))
  pub minus :
      (n k : ℕ)
      → k ≤ n
      → n < 2 ^ 53
      → nums.sub (nums.of_int (pos n)) (nums.of_int (pos k)) ≡ nums.of_int (pos (n - k))
  pub apart : (n : ℕ) → n < 2 ^ 53 → nums.equal (nums.of_int (pos n)) (minus_one nums) ≡ false
  pub same : nums.equal (minus_one nums) (minus_one nums) ≡ true
  -- a `time_t` has 32 bits or more
  pub time_wide : 2 ^ 31 ≤ suc nums.time_max

abbrev pub timeval : ℕ → Timeval
timeval n = record { sec = pos (n / 1000); usec = pos (n % 1000 * 1000) }

module _ (nums : Numbers) (p : Exact nums) where
  pub timeval_from_ms-timeval :
      (n : ℕ)
      → n < 2 ^ 31 * 1000
      → n ≤ nums.time_max
      → timeval_from_ms nums (nums.of_int (pos n)) ≡ some (timeval n)
  unfolding timeval_from_ms with_sec with_rest with_usec
  timeval_from_ms-timeval n h l =
      let fits : leb (n / 1000 * 1000) nums.time_max ≡ true = le→leb _ _ (omega arith) in
      let rest : n - n / 1000 * 1000 ≡ n % 1000 = omega arith in
      rw
        (
          p.quotient n h,
          fits,
          p.minus n (n / 1000 * 1000) (omega arith) (omega arith),
          rest,
          p.times (n % 1000) (omega arith),
          p.cast (n % 1000 * 1000) (omega arith),
        )
        refl

  ms_from_timeval-timeval :
      (n : ℕ) → n < 2 ^ 31 * 1000 → ms_from_timeval nums (timeval n) ≡ nums.of_int (pos n)
  unfolding ms_from_timeval
  ms_from_timeval-timeval n h =
      let all : n / 1000 * 1000 + n % 1000 ≡ n = omega arith in
      rw
        (
          p.times (n / 1000) (omega arith),
          p.whole (n % 1000) (omega arith),
          p.plus (n / 1000 * 1000) (n % 1000) (omega arith),
          all,
          ms_from_timeval,
        )
        refl

-- The handle has the metatable of clients.
abbrev IsClient : Values → ℕ → Type 0
IsClient values a =
    (mt : Value) × (values.metatable (client a) ≡ some mt)
    × (values.rawequal (values.registered rpc_client_name) mt ≡ true)

module _ {G W : Type 0} (nums : Numbers) where
  -- The process when a function is called with a handle and a number, and with a handle alone.
  abbrev pub given : ℕ → ℕ → Process G W → Process G W
  given a n p = record p { stack = number (nums.of_int (pos n)) ∷ client a ∷ [] }

  abbrev pub asked : ℕ → Process G W → Process G W
  asked a p = record p { stack = client a ∷ [] }

  -- What a call with a number leaves behind, and what the next one without a number gives.
  abbrev pub RoundTrip :
      Act G W ℕ → (Timeval → Transport → Transport) → ℕ → ℕ → Process G W → Type 0
  RoundTrip f put a n p =
      let p' = set_tpt a (put (timeval n) (transport_at p a)) (given a n p) in
      (f (given a n p) ≡ continues 0 p') × (f (asked a p') ≡ continues 1 (given a n p'))

module _ {G W : Type 0} (nums : Numbers) (values : Values) (e : Exact nums) where
  exchange_timeout-given :
      (get : Transport → Timeval) (put : Timeval → Transport → Transport) (a n : ℕ)
      (p : Process G W)
      → n < 2 ^ 31 * 1000
      → n ≤ nums.time_max
      → values.tonumber (number (nums.of_int (pos n))) ≡ some (nums.of_int (pos n))
      → exchange_timeout nums values get put a (given nums a n p)
        ≡ continues 0 (set_tpt a (put (timeval n) (transport_at p a)) (given nums a n p))
  unfolding exchange_timeout opt_number with_timeval
  exchange_timeout-given get put a n p h l c =
      rw (c, e.apart n (omega arith), timeval_from_ms-timeval nums e n h l) refl

  exchange_timeout-asked :
      (get : Transport → Timeval) (put : Timeval → Transport → Transport) (a n : ℕ)
      (p : Process G W)
      → n < 2 ^ 31 * 1000
      → get (transport_at p a) ≡ timeval n
      → exchange_timeout nums values get put a (asked nums a p) ≡ continues 1 (given nums a n p)
  unfolding exchange_timeout opt_number
  exchange_timeout-asked get put a n p h t = rw (e.same, t, ms_from_timeval-timeval nums e n h) refl

  on_type-client :
      {A : Type 0} (a : ℕ) (f other : Act G W A) (p : Process G W)
      → IsClient values a
      → on_type nums values (client a) rpc_client_name f other p ≡ f p
  unfolding on_type check_type ismetatable_type compared
  on_type-client a f other p (mt, h, g) = rw (h, g) refl

  pub set_tpt-at : (a : ℕ) (u : Transport) (p : Process G W) → transport_at (set_tpt a u p) a ≡ u
  set_tpt-at a u p = rw (==_self a, transport_at) refl

  RoundTrip-exchange :
      (f other : Act G W ℕ) (get : Transport → Timeval) (put : Timeval → Transport → Transport)
      (a n : ℕ) (p : Process G W)
      → n < 2 ^ 31 * 1000
      → n ≤ nums.time_max
      → values.tonumber (number (nums.of_int (pos n))) ≡ some (nums.of_int (pos n))
      → IsClient values a
      → ((t : Timeval) (u : Transport) → get (put t u) ≡ t)
      → (let g =
            on_type nums values
              (client a)
              rpc_client_name
              (exchange_timeout nums values get put a)
              other in
          ((q : Process G W) → f (given nums a n q) ≡ g (given nums a n q))
          → ((q : Process G W) → f (asked nums a q) ≡ g (asked nums a q))
          → RoundTrip nums f put a n p)
  RoundTrip-exchange f other get put a n p h l c t g with_number alone =
      let u = put (timeval n) (transport_at p a) in
      let p' = set_tpt a u (given nums a n p) in
      (
        with_number p
            ∙ on_type-client a (exchange_timeout nums values get put a) other (given nums a n p) t
            ∙ exchange_timeout-given get put a n p h l c,
        alone p'
            ∙ on_type-client a (exchange_timeout nums values get put a) other (asked nums a p') t
            ∙ exchange_timeout-asked get put a n p' h
                (ap get (set_tpt-at a u (given nums a n p)) ∙ g (timeval n) (transport_at p a)),
      )

  -- Where `double` is exact on whole numbers, a whole number of milliseconds, below 2 ^ 31 seconds and
  -- not above the largest time_t, so that nothing overflows, that is set as the one timeout or the other on a handle with the metatable of clients: the
  -- transport gets its seconds and the rest in microseconds, fewer than 10 ^ 6, and a call without
  -- a number gives the same number of milliseconds again.
  pub rpc_timeouts-RoundTrip :
      (a n : ℕ) (p : Process G W)
      → n < 2 ^ 31 * 1000
      → n ≤ nums.time_max
      → values.tonumber (number (nums.of_int (pos n))) ≡ some (nums.of_int (pos n))
      → IsClient values a
      → RoundTrip nums (rpc_wait_timeout nums values) set_wait a n p
        × RoundTrip nums (rpc_com_timeout nums values) set_com a n p
        × (n % 1000 * 1000 < 10 ^ 6)
  unfolding rpc_wait_timeout rpc_com_timeout on_client
  rpc_timeouts-RoundTrip a n p h l c t = (
    RoundTrip-exchange (rpc_wait_timeout nums values)
        (fail_with nums values (codes "arg must be rpc.client")) (λ u. u.wait_timeout) set_wait a n
        p h l c t (λ t u. refl) (λ q. refl) (λ q. refl),
    RoundTrip-exchange (rpc_com_timeout nums values)
        (on_type nums values (client a) rpc_server_handle_name (exchange_com nums values (client a))
          (fail_with nums values (codes "arg must be handle")))
        (λ u. u.com_timeout) set_com a n p h l c t (λ t u. refl) (λ q. refl) (λ q. refl),
    omega arith,
  )
