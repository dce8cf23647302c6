-- ===== src/Wire/Words.antt =====
-- Integers as bytes: least significant first, in a machine's memory, and in an order agreed on.
use luarpc.Base.{
  ℕ, zero, suc, ◌+◌, ◌*◌, ◌/◌, ◌%◌, ◌^◌, ◌<◌, ◌≡◌, refl, ap, Bytes, Bool, true, false, [], ◌∷◌,
  reverse, length, arith, if◌then◌else◌,
}
use luarpc.Machine.{Machine}

-- The `n` low bytes of `x`, least significant first.
abbrev pub le_bytes : ℕ → ℕ → Bytes
le_bytes zero x = []
le_bytes (suc n) x = (x % 256) ∷ le_bytes n (x / 256)

abbrev pub of_le : Bytes → ℕ
of_le [] = 0
of_le (b ∷ r) = b + 256 * of_le r

-- Between least significant first and the order of the machine's memory, both ways.
abbrev pub native : Machine → Bytes → Bytes
native m b = if m.little then b else reverse b

-- The `n` bytes of `x` in the byte order of the link.
unfoldable pub wire : Bool → ℕ → ℕ → Bytes
wire little n x = if little then le_bytes n x else reverse (le_bytes n x)

length-le_bytes : (n x : ℕ) → length (le_bytes n x) ≡ n
length-le_bytes zero x = refl
length-le_bytes (suc n) x = ap suc (length-le_bytes n (x / 256))

pub of_le-le_bytes_word : (x : ℕ) → x < 2 ^ 32 → of_le (le_bytes 4 x) ≡ x
of_le-le_bytes_word x h = omega arith

pub length-wire : (little : Bool) (x : ℕ) → length (wire little 4 x) ≡ 4
unfolding wire
length-wire true x = refl
length-wire false x = refl
