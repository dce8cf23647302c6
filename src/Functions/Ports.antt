-- ===== src/Functions/Ports.antt =====
-- The port among the arguments of a function (luarpc_socket.c, `get_port_number`).
use luarpc.Base.{
  ◌≤◌, Bool-cases, inl, inr, arith, ℕ, ◌<◌, ◌≡◌, refl, ℤ, pos, Bytes, Bool, true, false, Option,
  none, some, if◌then◌else◌, codes,
}
use luarpc.Lua.{Value}
use luarpc.Process.{Process, Step, continues, raises, breaks, Act}
use luarpc.Functions.Timeouts.{Exact}
use luarpc.Functions.{Numbers, Values, argument, fail_with}

module _ {G W : Type 0} (nums : Numbers) (values : Values) where
  abbrev pub in_range : Bytes → Option ℤ → Act G W ℕ
  in_range port_d (some (pos port)) p =
      if nums.equal port_d (nums.of_int (pos port))
      then continues port p
      else fail_with nums values (codes "port number must be an integer") p
  in_range port_d _ p = breaks

  abbrev pub port_of : Option Bytes → Act G W ℕ
  port_of none p = fail_with nums values (codes "port number argument is bad") p
  port_of (some port_d) p =
      if nums.less port_d (nums.of_int (pos 0))
      then fail_with nums values (codes "port number must be in the range 0..65535") p
      else if nums.less (nums.of_int (pos 65535)) port_d
      then fail_with nums values (codes "port number must be in the range 0..65535") p
      else in_range port_d (nums.to_int port_d) p

  unfoldable pub get_port_number : ℕ → Act G W ℕ
  get_port_number i p = port_of (values.tonumber (argument nums values i p)) p

-- Comparisons of whole numbers as `double`.
pub record Ordered (nums : Numbers) : Type 0 where
  pub not_less : (n k : ℕ) → k ≤ n → nums.less (nums.of_int (pos n)) (nums.of_int (pos k)) ≡ false
  pub equal_self : (n : ℕ) → nums.equal (nums.of_int (pos n)) (nums.of_int (pos n)) ≡ true

module _ {G W : Type 0} (nums : Numbers) (values : Values) (e : Exact nums) (o : Ordered nums) where
  pub port_of-whole :
      (port : ℕ) (p : Process G W)
      → port < 65536
      → port_of nums values (some (nums.of_int (pos port))) p ≡ continues port p
  port_of-whole port p h =
      rw
        (
          o.not_less port 0 (omega arith),
          o.not_less 65535 port (omega arith),
          e.cast port (omega arith),
          o.equal_self port,
        )
        refl

-- The cast of a number that is in the range and is not NaN, which is not equal to itself; that of NaN
-- is undefined.
pub record Casts (nums : Numbers) : Type 0 where
  pub in_range_cast :
      (d : Bytes)
      → nums.equal d d ≡ true
      → nums.less d (nums.of_int (pos 0)) ≡ false
      → nums.less (nums.of_int (pos 65535)) d ≡ false
      → (n : ℕ) × (nums.to_int d ≡ some (pos n)) × (n < 65536)
  pub nan_cast : (d : Bytes) → nums.equal d d ≡ false → nums.to_int d ≡ none

module _ {G W : Type 0} (nums : Numbers) where
  -- A port of 16 bits, or a Lua error, the process being as it was; or an undefined cast, of NaN.
  pub data Checked (o : Option Bytes) (p : Process G W) : Step (Process G W) ℕ → Type 0 where
    accepted : {port : ℕ} → port < 65536 → Checked o p (continues port p)
    rejected : {v : Value} → Checked o p (raises v p)
    undefined : {d : Bytes} → o ≡ some d → nums.equal d d ≡ false → Checked o p breaks

  Checked-if :
      (o : Option Bytes) (b : Bool) (p : Process G W) {r s : Step (Process G W) ℕ}
      → (b ≡ true → Checked o p r)
      → (b ≡ false → Checked o p s)
      → Checked o p (if b then r else s)
  Checked-if o true p f g = f refl
  Checked-if o false p f g = g refl

module _ {G W : Type 0} (nums : Numbers) (values : Values) (c : Casts nums) where
  port_of-Checked :
      (o : Option Bytes) (p : Process G W) → Checked nums o p (port_of nums values o p)
  port_of-Checked none p = rejected
  port_of-Checked (some d) p =
      let o = some d in
      Checked-if nums o (nums.less d (nums.of_int (pos 0))) p (λ _. rejected)
        λ low.
          Checked-if nums o (nums.less (nums.of_int (pos 65535)) d) p (λ _. rejected)
            λ high. elim (Bool-cases (nums.equal d d)) [
              | inl whole ↦
                  let (n, e, l) = c.in_range_cast d whole low high in
                  rw e (
                    Checked-if nums o (nums.equal d (nums.of_int (pos n))) p (λ _. accepted l)
                      (λ _. rejected))
              | inr nan ↦ rw (c.nan_cast d nan) (undefined refl nan)
            ]

  pub get_port_number-Checked :
      (i : ℕ) (p : Process G W)
      → Checked nums
          (values.tonumber (argument nums values i p))
          p
          (get_port_number nums values i p)
  unfolding get_port_number
  get_port_number-Checked i p = port_of-Checked (values.tonumber (argument nums values i p)) p
